-- ===== src/Select/Sets.antt =====
-- Sets of file descriptors: their members below a bound, and what `FD_CLR` does to the number of them.
use sve.Base.{
  ℕ, zero, suc, ◌+◌, ◌≤◌, ◌<◌, ◌≡◌, refl, true, false, Option, none, some, arith, if◌then◌else◌, ℤ,
  pos, negsuc, ◌==◌, ==_refl, ==_iff,
}
use mathlib.Core.Path.{fun_ext, ap}
use sve.Kernel.{FdSet}
use sve.Select.{fd_clr, clr, isset}

-- The number of members among the descriptors below `n`.
unfoldable pub count : ℕ → FdSet → ℕ
count zero s = 0
count (suc n) s = (if s (pos n) then 1 else 0) + count n s

-- For a `fd_set *`, none for NULL.
unfoldable pub count_at : ℕ → Option FdSet → ℕ
unfolding count
count_at n none = 0
count_at n (some s) = count n s

abbrev pub InRange : ℕ → ℤ → Type 0
InRange n (pos i) = i < n
InRange n (negsuc i) = ⊥

-- A set of the system has `FD_SETSIZE` bits, and no member outside them.
abbrev pub Bounded : ℕ → Option FdSet → Type 0
Bounded n readfds = (fd : ℤ) → isset fd readfds ≡ true → InRange n fd

count-clr_above : (n i : ℕ) (s : FdSet) → n ≤ i → count n (fd_clr (pos i) s) ≡ count n s
unfolding count fd_clr ◌==◌
count-clr_above zero i s h = refl
count-clr_above (suc n) i s h = ground (arith, count-clr_above n i s)

count-clr :
    (n i : ℕ) (s : FdSet) → i < n → s (pos i) ≡ true → count n (fd_clr (pos i) s) + 1 ≡ count n s
unfolding count fd_clr ◌==◌
count-clr zero i s h e = absurd (omega arith)
count-clr (suc n) i s h e = ground (arith, count-clr n i s, count-clr_above n i s)

-- Clearing a member lowers the count by one.
pub count_at-clr :
    (n : ℕ) (fd : ℤ) (readfds : Option FdSet)
    → Bounded n readfds
    → isset fd readfds ≡ true
    → count_at n (clr fd readfds) + 1 ≡ count_at n readfds
unfolding count_at clr isset
count_at-clr n fd none b e = cc
count_at-clr n (pos i) (some s) b e = count-clr n i s (b (pos i) e) e
count_at-clr n (negsuc i) (some s) b e = absurd (b (negsuc i) e)

pub isset-clr :
    (fd other : ℤ) (readfds : Option FdSet)
    → isset other (clr fd readfds) ≡ (if other == fd then false else isset other readfds)
unfolding isset clr fd_clr
isset-clr fd other none = ground arith
isset-clr fd other (some s) = refl

pub Bounded-clr :
    (n : ℕ) (fd : ℤ) (readfds : Option FdSet) → Bounded n readfds → Bounded n (clr fd readfds)
Bounded-clr n fd readfds b other e = b other (ground (arith, isset-clr fd other readfds))

-- Clearing what is no member changes nothing.
pub clr-absent :
    (fd : ℤ) (readfds : Option FdSet) → isset fd readfds ≡ false → clr fd readfds ≡ readfds
unfolding clr isset fd_clr
clr-absent fd none e = refl
clr-absent fd (some s) e = ap some (fun_ext λ n. ground (arith, ==_iff n fd, e))

pub isset-clr_self : (fd : ℤ) (readfds : Option FdSet) → isset fd (clr fd readfds) ≡ false
isset-clr_self fd readfds = rw (isset-clr fd fd readfds, ==_refl fd)
