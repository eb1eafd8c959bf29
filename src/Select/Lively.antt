-- ===== src/Select/Lively.antt =====
-- When the wrapper of select comes back: src/event_handlers/select.c.
use sve.Base.{
  ℕ, zero, suc, ◌≡◌, refl, ◌∙◌, ◌⊎◌, inl, inr, Bool, true, false, ◌&&◌, Option, none, arith,
  is_none, ℤ, pos, minus_one, ◌==◌, ==_iff, Bool-cases,
}
use sve.Kernel.{Kernel, Call, World, FdSets, Reply, Run}
use sve.Kernel.Runs
use sve.Kernel.Runs.{
  Returns, Ends, came_back, did_not, Responsive, Called, returns_with, if_program-Ends,
}
use sve.Kernel.Stuck.{Stuck, sys-Stuck}
use sve.Messages.Foreign.{NeverAccepts}
use sve.Select.{isset, replied_sets, finish, select}
use sve.Select.Sets.{count_at-clr}
use sve.Select.Count.{Reported, finish-count}
use sve.Select.Application.{AllApart, finish-Leaves}
use sve.Select.Result.{Reports, Selected, select-Selected}
use sve.Select.Shown.{Hushed, Hushed-trans, unlogged, quiet-Hushed, prepare-Hushed, finish-Hushed}

-- A result of 0 leaves the set empty.
empty-Reported :
    (size others : ℕ) (x result : ℤ) (sets : FdSets)
    → Reported size others result sets
    → result ≡ pos 0
    → isset x sets.read_set ≡ false
empty-Reported size others x result sets reported none_left =
    elim (Bool-cases (isset x sets.read_set)) [
      | inr absent ↦ absent
      | inl here ↦ absurd (
          ground (
            arith,
            count_at-clr size x sets.read_set reported.bounded here,
            reported.number,
            none_left,
          ))
    ]

Hushed-as :
    {k : Kernel} {x : ℤ} {m n : ℕ} {w v : World} → m ≡ n → Hushed k x m w v → Hushed k x n w v
Hushed-as e h = record {
  more = h.more;
  logged = h.logged;
  rounds = h.rounds ∙ e;
  silent = h.silent;
}

is_zero : (result : ℤ) (b : Bool) → (result == pos 0 && b) ≡ true → result ≡ pos 0
is_zero result b e = (==_iff result (pos 0)).0 (ground arith)

-- A round that has not failed and has not shown the descriptor.
round-Hushed :
    {k : Kernel} {x nfds : ℤ} {passed : FdSets} {timeout : Option ℕ} {r : Reply} {w v v' u : World}
    → Hushed k x 0 w v
    → Called k (Call.select nfds passed timeout) v r v'
    → Hushed k x 0 v' u
    → (r.value == minus_one) ≡ false
    → isset x (replied_sets passed r.sets).read_set ≡ false
    → Hushed k x 1 w u
round-Hushed before c behind good absent =
    Hushed-as (omega arith)
      (Hushed-trans before (Hushed-trans (quiet-Hushed c (rw (good, absent) refl)) behind))

-- How a run ends, known from two sides.
combined :
    {A : Type 0} {Q R : A → World → Type 0} {P S : World → Type 0} {run : Run A}
    → Ends Q P run
    → Ends R S run
    → Ends Q (λ v. P v × S v) run
combined (came_back q) (came_back _) = came_back q
combined (did_not p) (did_not s) = did_not (p, s)

module _ (k : Kernel) (size : ℕ) (x : ℤ) (responsive : Responsive k) (reports : Reports k size)
    (never : NeverAccepts k x) where
  -- Why select stays away: the rounds run out and none of them has shown the descriptor, or the system
  -- does not answer.
  abbrev Off : ℕ → World → World → Type 0
  Off n w v = Hushed k x n w v ⊎ Stuck k v

  Off-behind : {n : ℕ} {w u z : World} → Hushed k x 1 w u → Off n u z → Off (suc n) w z
  Off-behind before (inl h) = inl (Hushed-as (omega arith) (Hushed-trans before h))
  Off-behind before (inr stuck) = inr stuck

  -- The handlers behind a select that has reported.
  finish-Round :
      (others : ℕ) (result : ℤ) (sets : FdSets) (w : World)
      → w.correction ≡ 0
      → AllApart x w.binds
      → Reported size others result sets
      → Returns
          (λ (result', sets') v.
            (v.correction ≡ 0)
            × AllApart x v.binds
            × Hushed k x 0 w v
            × (result' ≡ pos 0 → isset x sets.read_set ≡ false))
          (finish k result sets w)
  finish-Round others result sets w settled apart reported =
      Runs.mono
        (returns_with
          (returns_with (finish-count k size others result sets w responsive reported settled)
            (finish-Leaves k x (isset x sets.read_set) result sets w never apart refl))
          (finish-Hushed k x result sets w))
        λ (result', sets') v (((reported', settled', _, _), (apart', same)), (_, h)). (
          settled',
          apart',
          h,
          λ none_left. rw same at (empty-Reported size others x result' sets' reported' none_left),
        )

  round-Off :
      (fuel : ℕ) (nfds : ℤ) (sets : FdSets) (timeout : Option ℕ) (w : World)
      → w.correction ≡ 0
      → AllApart x w.binds
      → ((v : World)
          → v.correction ≡ 0
          → AllApart x v.binds
          → Ends (λ _ _. Unit) (Off fuel v) (select k fuel nfds sets none v))
      → Ends (λ _ _. Unit) (Off (suc fuel) w) (select k (suc fuel) nfds sets timeout w)
  unfolding select
  round-Off fuel nfds sets timeout w settled apart again =
      Runs.bind-Ends (stays (prepare-Hushed k x nfds sets.read_set w))
        λ readfds v (_, (((lists, _), corrected), before)).
          Runs.bind-Ends (stays (sys-Stuck k _ v)) λ r v' c.
            if_program-Ends (r.value == minus_one) _ _ v' (λ failed. came_back tt)
              λ good.
                let passed : FdSets = record sets { read_set = readfds } in
                let fine : ((k v.log (Call.select v.max_fds passed timeout)).value == minus_one)
                    ≡ false =
                  rw (← c.reply) good in
                let (others, reported) = reports v.log v.max_fds passed timeout fine in
                Runs.bind_returns-Ends
                  (finish-Round others r.value _ v' (c.quiet.correction ∙ corrected ∙ settled)
                    (rw (c.quiet.binds, lists.binds) apart) (rw c.reply reported))
                  λ (result, sets') u (settled', apart', behind, empty).
                    if_program-Ends (result == pos 0 && is_none timeout) _ _ u
                      (λ none_left.
                        Runs.mono-Ends (again u settled' apart') (λ _ _ _. tt)
                          λ z off.
                            Off-behind
                              (round-Hushed before c behind good
                                (empty (is_zero result _ none_left)))
                              off)
                      λ _. came_back tt
    where
      stays :
          {A : Type 0} {Q : A → World → Type 0} {run : Run A}
          → Ends Q (Stuck k) run
          → Ends Q (Off (suc fuel) w) run
      stays ends = Runs.mono-Ends ends (λ _ _ q. q) λ _ p. inr p

  select-Off :
      (fuel : ℕ) (nfds : ℤ) (sets : FdSets) (timeout : Option ℕ) (w : World)
      → w.correction ≡ 0
      → AllApart x w.binds
      → Ends (λ _ _. Unit) (Off (suc fuel) w) (select k (suc fuel) nfds sets timeout w)
  unfolding select
  select-Off zero nfds sets timeout w settled apart =
      round-Off zero nfds sets timeout w settled apart λ v _ _. did_not (inl (unlogged k x v refl))
  select-Off (suc fuel) nfds sets timeout w settled apart =
      round-Off (suc fuel) nfds sets timeout w settled apart λ v. select-Off fuel nfds sets none v

  -- Where the system answers the calls that do not wait, the number that its select returns is that of the
  -- members it leaves, and no correction is pending; and where a descriptor is one for which no bind has
  -- a use and that is never given out as a new connection: if select comes back, it returns what the last
  -- call of the system's select makes of it, as Selected says. It stays away only if the last call is one that the
  -- system does not answer, or an exit behind a socket pair that could not be made, or, without a
  -- timeout, if the system's select was called `suc fuel` times and none of these calls has failed or has
  -- left the descriptor in the read set.
  pub select-Hushed :
      (fuel : ℕ) (nfds : ℤ) (sets : FdSets) (timeout : Option ℕ) (w : World)
      → w.correction ≡ 0
      → AllApart x w.binds
      → Ends
          (λ (result, sets') v. Selected k size timeout result sets' v)
          (λ v. ((is_none timeout ≡ true) × Hushed k x (suc fuel) w v) ⊎ Stuck k v)
          (select k (suc fuel) nfds sets timeout w)
  select-Hushed fuel nfds sets timeout w settled apart =
      Runs.mono-Ends
        (combined (select-Selected k size responsive reports fuel nfds sets timeout w settled)
          (select-Off fuel nfds sets timeout w settled apart))
        (λ _ _ q. q)
        λ v (away, off). elim away [
          | inl (endless, _) ↦ elim off [ inl h ↦ inl (endless, h) | inr stuck ↦ inr stuck ]
          | inr stuck ↦ inr stuck
        ]
