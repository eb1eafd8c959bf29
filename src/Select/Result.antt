-- ===== src/Select/Result.antt =====
-- The wrapper of select as a whole.
use mathlib.Core.List.{append_assoc}
use sve.Base.{
  sym, [], ◌∷◌, ◌++◌, ◌+◌, ℕ, zero, suc, ◌≡◌, refl, ◌∙◌, ◌⊎◌, inl, inr, Bool, true, false, ◌&&◌,
  Option, none, some, arith, is_none, ℤ, pos, minus_one, ◌==◌,
}
use sve.Kernel.{Kernel, Call, Log, World, Reply, Run, FdSets}
use sve.Kernel.Runs
use sve.Kernel.Runs.{
  Returns, returns, Ends, came_back, did_not, Responsive, Called, returns_with, if_program-Ends,
}
use sve.Kernel.Stuck.{Stuck, sys-Stuck}
use sve.Select.{replied_sets, finish, select}
use sve.Select.Shown.{selects, selects-append, Hushed, prepare-Hushed, finish-Hushed}
use sve.Select.Count.{Reported, finish-count}

returns-Ends :
    {A : Type 0} {Q : A → World → Type 0} {P : World → Type 0} {r : Run A}
    → Returns Q r
    → Ends Q P r
returns-Ends (returns q) = came_back q

-- What the system's select promises: where it is not -1, its result is the number of members of the
-- read set that it leaves, below `size`, and of the others.
abbrev pub Reports : Kernel → ℕ → Type 0
Reports k size =
    (log : Log) (nfds : ℤ) (passed : FdSets) (timeout : Option ℕ)
    → ((k log (Call.select nfds passed timeout)).value == minus_one) ≡ false
    → (others : ℕ) × Reported size others (k log (Call.select nfds passed timeout)).value
        (replied_sets passed (k log (Call.select nfds passed timeout)).sets)

-- The result and the sets, by what the last call of the system's select replied: it has failed; or the
-- result is the number of members of the read set as the caller finds it, and of as many others as the
-- system has reported with the members that it left.
pub data Outcome (size : ℕ) (passed : FdSets) (r : Reply) : ℤ → FdSets → Type 0 where
  failed :
      (r.value == minus_one) ≡ true → Outcome size passed r minus_one (replied_sets passed r.sets)
  given :
      {result : ℤ} {sets : FdSets} (others : ℕ)
      → Reported size others r.value (replied_sets passed r.sets)
      → Reported size others result sets
      → Outcome size passed r result sets

-- The last call of the system's select, what came of it, and that no correction is pending. The result
-- is 0 only with a timeout.
pub record Selected (k : Kernel) (size : ℕ) (timeout : Option ℕ) (result : ℤ) (sets : FdSets)
    (v : World) : Type 0 where
  pub nfds : ℤ
  pub passed : FdSets
  pub before : Log
  pub more : Log
  pub logged : v.log ≡ more ++ Call.select nfds passed timeout ∷ before
  pub last : selects more ≡ 0
  pub outcome : Outcome size passed (k before (Call.select nfds passed timeout)) result sets
  pub settled : v.correction ≡ 0
  pub not_empty : (result == pos 0 && is_none timeout) ≡ false

-- The calls made from one world to the other, `n` of them calls of select.
pub record Rounds (n : ℕ) (w v : World) : Type 0 where
  pub more : Log
  pub logged : v.log ≡ more ++ w.log
  pub rounds : selects more ≡ n

Hushed-Rounds : {k : Kernel} {x : ℤ} {n : ℕ} {w v : World} → Hushed k x n w v → Rounds n w v
Hushed-Rounds h = record { more = h.more; logged = h.logged; rounds = h.rounds }

Rounds-trans : {m n o : ℕ} {u v w : World} → Rounds m u v → Rounds n v w → n + m ≡ o → Rounds o u w
Rounds-trans {u} p q e = record {
  more = q.more ++ p.more;
  logged = rw (q.logged, p.logged) (sym (append_assoc q.more p.more u.log));
  rounds = selects-append q.more p.more ∙ rw (q.rounds, p.rounds) e;
}

Called-Rounds :
    {k : Kernel} {nfds : ℤ} {passed : FdSets} {timeout : Option ℕ} {w : World} {r : Reply}
    {v : World}
    → Called k (Call.select nfds passed timeout) w r v
    → Rounds 1 w v
Called-Rounds {nfds} {passed} {timeout} c = record {
  more = Call.select nfds passed timeout ∷ [];
  logged = c.logged;
  rounds = refl;
}

is_none-last :
    (b : Bool) (timeout : Option ℕ) → (b && is_none timeout) ≡ true → is_none timeout ≡ true
is_none-last b timeout e = ground arith

without_timeout :
    {k : Kernel} {size : ℕ} (timeout : Option ℕ) {result : ℤ} {sets : FdSets} {v : World}
    → is_none timeout ≡ true
    → Selected k size none result sets v
    → Selected k size timeout result sets v
without_timeout none e selected = selected
without_timeout (some t) e selected = cc

-- Why select stays away: the system does not answer, or, without a timeout, the rounds run out, each
-- with one call of the system's select.
abbrev Away : Kernel → Option ℕ → ℕ → World → World → Type 0
Away k timeout n w v = ((is_none timeout ≡ true) × Rounds n w v) ⊎ Stuck k v

module _ (k : Kernel) (size : ℕ) (responsive : Responsive k) (reports : Reports k size) where
  away :
      {A : Type 0} {Q : A → World → Type 0} {run : Run A} (timeout : Option ℕ) (n : ℕ) (w : World)
      → Ends Q (Stuck k) run
      → Ends Q (Away k timeout n w) run
  away timeout n w ends = Runs.mono-Ends ends (λ _ _ q. q) λ _ p. inr p

  Away-behind :
      (timeout : Option ℕ) {n : ℕ} {w u v : World}
      → is_none timeout ≡ true
      → Rounds 1 w u
      → Away k none n u v
      → Away k timeout (suc n) w v
  Away-behind timeout e before (inl (_, behind)) = inl (e, Rounds-trans before behind (omega arith))
  Away-behind timeout e before (inr stuck) = inr stuck

  -- The handlers behind a select that has reported.
  finish-Outcome :
      (nfds : ℤ) (passed : FdSets) (timeout : Option ℕ) (v : World) {r : Reply} (v' : World)
      → Called k (Call.select nfds passed timeout) v r v'
      → (r.value == minus_one) ≡ false
      → v'.correction ≡ 0
      → Returns
          (λ (result, sets') u.
            Outcome size passed (k v.log (Call.select nfds passed timeout)) result sets'
            × (u.correction ≡ 0)
            × Rounds 0 v' u)
          (finish k r.value (replied_sets passed r.sets) v')
  finish-Outcome nfds passed timeout v v' c good settled =
      let (others, reported) = reports v.log nfds passed timeout (rw (← c.reply) good) in
      Runs.mono
        (returns_with (finish-count k size others _ _ v' responsive (rw c.reply reported) settled)
          (finish-Hushed k (pos 0) _ _ v'))
        λ (result, sets') u ((reported', settled', _, _), (_, h)).
          (given others reported reported', settled', Hushed-Rounds h)

  -- A select of which one more round is known.
  round-Selected :
      (fuel : ℕ) (nfds : ℤ) (sets : FdSets) (timeout : Option ℕ) (w : World)
      → w.correction ≡ 0
      → ((v : World)
          → v.correction ≡ 0
          → Ends
              (λ (result, sets') u. Selected k size none result sets' u)
              (Away k none fuel v)
              (select k fuel nfds sets none v))
      → Ends
          (λ (result, sets') v. Selected k size timeout result sets' v)
          (Away k timeout (suc fuel) w)
          (select k (suc fuel) nfds sets timeout w)
  unfolding select ◌==◌
  round-Selected fuel nfds sets timeout w settled again =
      Runs.bind-Ends (away timeout (suc fuel) w (prepare-Hushed k (pos 0) nfds sets.read_set w))
        λ readfds v (_, ((_, corrected), before)).
          Runs.bind-Ends (away timeout (suc fuel) w (sys-Stuck k _ v)) λ r v' c.
            let passed : FdSets = record sets { read_set = readfds } in
            if_program-Ends (r.value == minus_one) _ _ v'
              (λ lost. came_back (record {
                nfds = v.max_fds;
                passed = passed;
                before = v.log;
                more = [];
                logged = c.logged;
                last = refl;
                outcome = rw c.reply (failed (rw (← c.reply) lost));
                settled = c.quiet.correction ∙ corrected ∙ settled;
                not_empty = refl;
              }))
              λ good.
                Runs.bind_returns-Ends
                  (finish-Outcome v.max_fds passed timeout v v' c good
                    (c.quiet.correction ∙ corrected ∙ settled))
                  λ (result, sets') u (outcome, settled', behind).
                    if_program-Ends (result == pos 0 && is_none timeout) _ _ u
                      (λ empty.
                        let endless = is_none-last (result == pos 0) timeout empty in
                        Runs.mono-Ends (again u settled')
                          (λ _ _ selected. without_timeout timeout endless selected)
                          (λ _ stays.
                            Away-behind timeout endless
                              (Rounds-trans (Hushed-Rounds before)
                                (Rounds-trans (Called-Rounds c) behind refl) refl)
                              stays))
                      λ some_left. came_back (record {
                        nfds = v.max_fds;
                        passed = passed;
                        before = v.log;
                        more = behind.more;
                        logged = rw (behind.logged, c.logged) refl;
                        last = behind.rounds;
                        outcome = outcome;
                        settled = settled';
                        not_empty = some_left;
                      })

  -- Where the system answers the calls that do not wait, its select returns the number of members that it
  -- leaves in the read set, all below `size`, and of the others, and no correction is pending: if select
  -- comes back, no correction is pending, and by the last call of the system's select: that has
  -- failed and it returns -1; or it returns the number of members that the caller finds in the read set,
  -- and of the others that the system reported in that call with the members that it left. Without a
  -- timeout it never returns 0. It stays away only if the last call is one that the system does not
  -- answer, or an exit behind a socket pair that could not be made, or, without a timeout, if the rounds
  -- run out, each with one call of the system's select.
  pub select-Selected :
      (fuel : ℕ) (nfds : ℤ) (sets : FdSets) (timeout : Option ℕ) (w : World)
      → w.correction ≡ 0
      → Ends
          (λ (result, sets') v. Selected k size timeout result sets' v)
          (λ v. ((is_none timeout ≡ true) × Rounds (suc fuel) w v) ⊎ Stuck k v)
          (select k (suc fuel) nfds sets timeout w)
  unfolding select
  select-Selected zero nfds sets timeout w settled =
      round-Selected zero nfds sets timeout w settled
        λ v _. did_not (inl (refl, record { more = []; logged = refl; rounds = refl }))
  select-Selected (suc fuel) nfds sets timeout w settled =
      round-Selected (suc fuel) nfds sets timeout w settled
        λ v. select-Selected fuel nfds sets none v
