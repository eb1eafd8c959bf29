-- ===== src/Select/Watched.antt =====
-- The set that is handed to the system's `select`: `dsu_sniff_conn` of src/event_handlers/select.c.
use sve.Base.{
  ◌≡◌, refl, Bool, true, false, not, ◌&&◌, ◌||◌, arith, Option, some, List, [], ◌∷◌, ℤ, pos, negsuc,
  ◌==◌, ==_iff, Bool-cases, inl, inr, ◌+ℤ◌, ltb_ℤ, some_of,
}
use sve.State.{DsuSocket, fd_list_has}
use sve.Kernel.{Kernel, World, FdSet}
use sve.Kernel.Runs.{Returns, returns}
use sve.Select.{fd_set, raise_max, watch, watch_all, sniff, sniff_all, sniff_binds}

-- The descriptors on which a node waits for the library's own messages.
abbrev pub waits_on : ℤ → DsuSocket → Bool
waits_on n s = fd_list_has s.comfds n || (not s.ready && (n == s.comfd || n == s.readyfd))

-- Every member of the set is below the number.
abbrev pub Below : FdSet → ℤ → Type 0
Below readfds max_fds = (n : ℤ) → readfds n ≡ true → ltb_ℤ n max_fds ≡ true

-- A set and its bound, and the ones behind: what was there, and the descriptors of the test.
record Grows (test : ℤ → Bool) (before after : FdSet × ℤ) : Type 0 where
  members : (n : ℤ) → after.0 n ≡ (before.0 n || test n)
  below : Below before.0 before.1 → Below after.0 after.1

Grows-none : (p : FdSet × ℤ) → Grows (λ _. false) p p
Grows-none p = record { members = λ n. ground arith; below = λ b. b }

Grows-trans :
    {test test' : ℤ → Bool} {p q r : FdSet × ℤ}
    → Grows test p q
    → Grows test' q r
    → Grows (λ n. test n || test' n) p r
Grows-trans {test} {test'} {p} g h = record {
  members = λ n. ground (arith, g.members n, h.members n);
  below = λ b. h.below (g.below b);
}

Grows-iff :
    {test test' : ℤ → Bool} {p q : FdSet × ℤ}
    → ((n : ℤ) → test n ≡ test' n)
    → Grows test p q
    → Grows test' p q
Grows-iff same g = record { members = λ n. rw (← same n) (g.members n); below = g.below }

ltb_ℤ-trans : (a b c : ℤ) → ltb_ℤ a b ≡ true → ltb_ℤ b c ≡ true → ltb_ℤ a c ≡ true
ltb_ℤ-trans a b c p q = ground arith

below_next : (fd : ℤ) → ltb_ℤ fd (fd +ℤ pos 1) ≡ true
unfolding ◌+ℤ◌
below_next (pos n) = ground arith
below_next (negsuc n) = ground arith

next_above : (fd max_fds : ℤ) → ltb_ℤ max_fds (fd +ℤ pos 1) ≡ false → ltb_ℤ fd max_fds ≡ true
unfolding ◌+ℤ◌
next_above (pos n) max_fds h = ground arith
next_above (negsuc n) max_fds h = ground arith

raise_max-below :
    (fd n max_fds : ℤ) → ltb_ℤ n max_fds ≡ true → ltb_ℤ n (raise_max fd max_fds) ≡ true
unfolding raise_max
raise_max-below fd n max_fds h = elim (Bool-cases (ltb_ℤ max_fds (fd +ℤ pos 1))) [
  | inl e ↦ rw e (ltb_ℤ-trans n max_fds (fd +ℤ pos 1) h e)
  | inr e ↦ rw e h
]

raise_max-own : (fd max_fds : ℤ) → ltb_ℤ fd (raise_max fd max_fds) ≡ true
unfolding raise_max
raise_max-own fd max_fds = elim (Bool-cases (ltb_ℤ max_fds (fd +ℤ pos 1))) [
  | inl e ↦ rw e (below_next fd)
  | inr e ↦ rw e (next_above fd max_fds e)
]

watch-Below :
    (fd n max_fds : ℤ) (readfds : FdSet)
    → Below readfds max_fds
    → fd_set fd readfds n ≡ true
    → ltb_ℤ n (raise_max fd max_fds) ≡ true
unfolding fd_set
watch-Below fd n max_fds readfds b e = elim (Bool-cases (n == fd)) [
  | inl hit ↦ rw ((==_iff n fd).0 hit) (raise_max-own fd max_fds)
  | inr miss ↦ raise_max-below fd n max_fds (b n (ground arith))
]

watch-Grows : (fd : ℤ) (p : FdSet × ℤ) → Grows (λ n. n == fd) p (watch fd p)
unfolding watch fd_set
watch-Grows fd (readfds, max_fds) = record {
  members = λ n. ground arith;
  below = λ b n e. watch-Below fd n max_fds readfds b e;
}

watch_all-Grows : (fds : List ℤ) (p : FdSet × ℤ) → Grows (fd_list_has fds) p (watch_all fds p)
unfolding watch_all fd_list_has
watch_all-Grows [] p = Grows-none p
watch_all-Grows (fd ∷ fds) p =
    Grows-iff (λ n. ground (arith, ==_iff n fd, ==_iff fd n))
      (Grows-trans (watch-Grows fd p) (watch_all-Grows fds (watch fd p)))

sniff-Grows : (s : DsuSocket) (p : FdSet × ℤ) → Grows (λ n. waits_on n s) p (sniff s p)
unfolding sniff
sniff-Grows s p = elim (Bool-cases s.ready) [
  | inl e ↦ rw e (Grows-iff (λ n. ground arith) (watch_all-Grows s.comfds p))
  | inr e ↦ rw e (
      Grows-iff (λ n. ground arith)
        (Grows-trans (Grows-trans (watch-Grows s.comfd p) (watch-Grows s.readyfd (watch s.comfd p)))
          (watch_all-Grows s.comfds (watch s.readyfd (watch s.comfd p)))))
]

sniff_all-Grows :
    (xs : List DsuSocket) (p : FdSet × ℤ) → Grows (λ n. some_of (waits_on n) xs) p (sniff_all xs p)
unfolding sniff_all
sniff_all-Grows [] p = Grows-none p
sniff_all-Grows (s ∷ xs) p = Grows-trans (sniff-Grows s p) (sniff_all-Grows xs (sniff s p))

-- What is handed over.
pub record Watched (readfds : FdSet) (w : World) (passed : Option FdSet) (v : World) : Type 0 where
  pub set : FdSet
  pub handed : passed ≡ some set
  pub members : (n : ℤ) → set n ≡ (readfds n || some_of (waits_on n) w.binds)
  pub below : Below set v.max_fds
  pub others : record v { max_fds = w.max_fds } ≡ w

-- The set that is handed to the system holds what the caller's held, and the descriptors on which the
-- binds wait: for requests and for the ready signal unless the port is marked, and for messages of the
-- connected versions. Where the caller's number is above its members, the number that is handed over is
-- above all members. No other global is written.
pub sniff_binds-Watched :
    (k : Kernel) (readfds : FdSet) (w : World)
    → Below readfds w.max_fds
    → Returns (λ passed v. Watched readfds w passed v) (sniff_binds k (some readfds) w)
unfolding sniff_binds
sniff_binds-Watched k readfds w below =
    let g = sniff_all-Grows w.binds (readfds, w.max_fds) in
    returns
      (record { set = _; handed = refl; members = g.members; below = g.below below; others = refl })
