-- ===== src/Epoll/Compact/Filter.antt =====
-- `dsu_epoll_correct_events` is a filter.
use mathlib.Core.List.{append_assoc}
use sve.Base.{
  ℕ, zero, suc, ◌+◌, ◌≤◌, ◌≡◌, refl, ap, sym, ◌∙◌, Bool, true, false, not, List, [], ◌∷◌, ◌++◌,
  some, arith, inl, inr, Bool-cases, if◌then◌else◌, pos, minus_one, ◌==◌, length, take, drop, keep,
  get_elem?, length-append, get_elem?-append, set-append, take-append, drop-append,
  take-append-drop, length-take, length-keep,
}
use sve.Kernel.{EpollEvent}
use sve.Epoll.Compact.{data_fd, copy_down, shift, correct_from, correct_events}

-- The event is not marked as the library's own.
abbrev pub unmarked : EpollEvent → Bool
unmarked e = not (data_fd e == minus_one)

-- `front` ends where `i` points.
module _ (front : List EpollEvent) (i : ℕ) (at : i ≡ length front + 0) where
  get_at : (ys : List EpollEvent) → get_elem? (front ++ ys) i ≡ get_elem? ys 0
  get_at ys = rw at (get_elem?-append front ys 0)

  get_next : (ys : List EpollEvent) → get_elem? (front ++ ys) (suc i) ≡ get_elem? ys 1
  get_next ys = let e : suc i ≡ length front + 1 = omega arith in rw e (get_elem?-append front ys 1)

  copy_down_at :
      (e r : EpollEvent) (ys : List EpollEvent)
      → copy_down i (front ++ e ∷ r ∷ ys) ≡ front ++ r ∷ r ∷ ys
  unfolding copy_down
  copy_down_at e r ys =
      rw (get_next (e ∷ r ∷ ys), copy_down) (rw at (set-append front (e ∷ r ∷ ys) 0 r))

-- The inner loop moves the events behind `i` down by one; what stood last stands twice.
shift-append :
    (rest front tail : List EpollEvent) (e : EpollEvent) (i : ℕ)
    → i ≡ length front + 0
    → (x : EpollEvent) × (shift (length rest) i (front ++ e ∷ (rest ++ tail))
        ≡ front ++ (rest ++ x ∷ tail))
unfolding shift
shift-append [] front tail e i at = (e, refl)
shift-append (r ∷ rest) front tail e i at =
    let next =
      shift-append rest (front ++ r ∷ []) tail r (suc i)
        (omega (arith, length-append front (r ∷ []))) in
    (
      next.0,
      ap (shift (length rest) (suc i)) (
            copy_down_at front i at e r (rest ++ tail)
            ∙ sym (append_assoc front (r ∷ []) (r ∷ (rest ++ tail))))
          ∙ next.1
          ∙ append_assoc front (r ∷ []) (rest ++ next.0 ∷ tail),
    )

correct_from-step :
    (left i : ℕ) (events : List EpollEvent) (e : EpollEvent)
    → get_elem? events i ≡ some e
    → correct_from (suc left) i events ≡ (
        if data_fd e == minus_one
        then correct_from left i (shift left i events)
        else correct_from left (suc i) events)
unfolding correct_from
correct_from-step left i events e found = rw (found, correct_from)

-- What the outer loop leaves of the events `rest` from `i` on, in front of `tail`.
pub record Corrected (front rest tail : List EpollEvent) (r : ℕ × List EpollEvent) : Type 0 where
  pub junk : List EpollEvent
  pub number : r.0 ≡ length front + length (keep unmarked rest)
  pub array : r.1 ≡ front ++ (keep unmarked rest ++ (junk ++ tail))
  pub size : length (keep unmarked rest) + length junk ≡ length rest

Corrected-removed :
    {front rest tail : List EpollEvent} {r : ℕ × List EpollEvent} (x y : EpollEvent)
    → (data_fd x == minus_one) ≡ true
    → Corrected front rest (y ∷ tail) r
    → Corrected front (x ∷ rest) tail r
Corrected-removed {front} {rest} {tail} x y marked c = record {
  junk = c.junk ++ y ∷ [];
  number = rw marked c.number;
  array = rw marked (
      c.array
      ∙ ap (λ l. front ++ (keep unmarked rest ++ l)) (sym (append_assoc c.junk (y ∷ []) tail)));
  size = rw marked (omega (arith, length-append c.junk (y ∷ []), c.size));
}

Corrected-passed :
    {front rest tail : List EpollEvent} {r : ℕ × List EpollEvent} (x : EpollEvent)
    → (data_fd x == minus_one) ≡ false
    → Corrected (front ++ x ∷ []) rest tail r
    → Corrected front (x ∷ rest) tail r
Corrected-passed {front} {rest} {tail} x kept c = record {
  junk = c.junk;
  number = rw kept (omega (arith, length-append front (x ∷ []), c.number));
  array = rw kept (c.array ∙ append_assoc front (x ∷ []) (keep unmarked rest ++ (c.junk ++ tail)));
  size = rw kept (omega (arith, c.size));
}

correct_from-Corrected :
    (left i : ℕ) (front rest tail : List EpollEvent)
    → left ≡ length rest
    → i ≡ length front + 0
    → Corrected front rest tail (correct_from left i (front ++ (rest ++ tail)))
unfolding correct_from
correct_from-Corrected zero i front [] tail e at = record {
  junk = [];
  number = omega arith;
  array = refl;
  size = omega arith;
}
correct_from-Corrected zero i front (x ∷ rest) tail e at = absurd (omega arith)
correct_from-Corrected (suc left) i front [] tail e at = absurd (omega arith)
correct_from-Corrected (suc left) i front (x ∷ rest) tail e at =
    let here = get_at front i at (x ∷ (rest ++ tail)) in
    let moved = shift-append rest front tail x i at in
    let l : left ≡ length rest = omega arith in
    rw (correct_from-step left i _ x here) (elim (Bool-cases (data_fd x == minus_one)) [
      | inl marked ↦
          rw (marked, ap (λ n. shift n i (front ++ x ∷ (rest ++ tail))) l, moved.1)
            (Corrected-removed x moved.0 marked
              (correct_from-Corrected left i front rest (moved.0 ∷ tail) l at))
      | inr kept ↦
          rw (kept, ← append_assoc front (x ∷ []) (rest ++ tail))
            (Corrected-passed x kept (
              correct_from-Corrected left (suc i) (front ++ x ∷ []) rest tail l
                (omega (arith, length-append front (x ∷ [])))))
    ])

-- What the caller finds: `n` events of `events` before, and `r` after.
abbrev pub Kept : ℕ → List EpollEvent → ℕ × List EpollEvent → Type 0
Kept n events r =
    (r.0 ≤ n)
    × (take r.0 r.1 ≡ keep unmarked (take n events))
    × (length r.1 ≡ length events)
    × (drop n r.1 ≡ drop n events)

Corrected-Kept :
    (rest tail : List EpollEvent) (n : ℕ) (events : List EpollEvent) (r : ℕ × List EpollEvent)
    → n ≡ length rest
    → take n events ≡ rest
    → drop n events ≡ tail
    → length events ≡ length rest + length tail
    → Corrected [] rest tail r
    → Kept n events r
Corrected-Kept rest tail n events r e front back all c = (
  omega (arith, c.number, length-keep unmarked rest),
  rw (c.array, number, front) (take-append (keep unmarked rest) (c.junk ++ tail)),
  omega (
    arith,
    ap length c.array,
    length-append (keep unmarked rest) (c.junk ++ tail),
    length-append c.junk tail,
    c.size,
  ),
  rw (c.array, back, ← append_assoc (keep unmarked rest) c.junk tail, size)
      (drop-append (keep unmarked rest ++ c.junk) tail),
)
  where
    number : r.0 ≡ length (keep unmarked rest)
    number = omega (arith, c.number)

    size : n ≡ length (keep unmarked rest ++ c.junk)
    size = omega (arith, length-append (keep unmarked rest) c.junk, c.size)

-- With `n` events in an array that holds as many, the number that is returned is at most `n`; that
-- many events at the front of the array are those of the `n` that are not marked, in their order; the
-- array keeps its size, and what stands behind the `n` events is untouched.
pub correct_events-keep :
    (n : ℕ) (events : List EpollEvent)
    → n ≤ length events
    → (m : ℕ) × ((correct_events (pos n) events).0 ≡ pos m)
      × Kept n events (m, (correct_events (pos n) events).1)
unfolding correct_events
correct_events-keep n events fits = (
  (correct_from n 0 events).0,
  refl,
  Corrected-Kept (take n events) (drop n events) n events _ size refl refl all
      (rw whole at (correct_from-Corrected n 0 [] (take n events) (drop n events) size refl)),
)
  where
    size : n ≡ length (take n events)
    size = omega (arith, length-take n events)

    whole : take n events ++ drop n events ≡ events
    whole = take-append-drop n events

    all : length events ≡ length (take n events) + length (drop n events)
    all = omega (arith, ap length whole, length-append (take n events) (drop n events))
