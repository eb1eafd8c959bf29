-- ===== src/Core/Workers/Interleaved/Settle.antt =====
-- Every worker can be led out of the group, and then the group is ended.
use native.Mathlib.Decide.{ℕ_discrete}
use sve.Base.{ℕ, zero, suc, ◌≤◌, ◌<◌, ◌≡◌, refl, sym, ap, ◌∙◌, true, arith}
use sve.Kernel.{Kernel}
use sve.Kernel.Runs.{Responsive}
use sve.Core.Workers.Interleaved.{Pc, starting, sent, active, taken, Sockets, Pool, Reach}
use sve.Core.Workers.Interleaved.Last.{has_left, Ended, all_left-Ended}
use sve.Core.Workers.Interleaved.Moved.{
  Leads, stay, Moved, Moved-trans, Leads-trans, Reach-Leads, peek-active, arrive, take, look,
}
use sve.Core.Workers.Interleaved.Invariant.{Setting}

-- Worker `i` can be led past its last peek, the others left where they were.
abbrev Out : (k : Kernel) (fds : Sockets) (n : ℕ) (s : Pool) (i : ℕ) → Type 0
Out k fds n s i = (t : Pool) × (p : Pc) × Moved k fds n s i p t × (has_left p ≡ true)

module _ {k : Kernel} {fds : Sockets} {n : ℕ} (setting : Setting k fds)
    (responsive : Responsive k) where
  module _ (i : ℕ) (lt : i < n) where
    from_taken : (s : Pool) → s.pc i ≡ taken → Out k fds n s i
    from_taken s e = let (t, m) = look setting responsive i lt s e in (t, _, m, ground arith)

    from_active : (s : Pool) → s.pc i ≡ active → Out k fds n s i
    from_active s e =
        let (t, m) = take setting responsive i lt s e in
        let (u, p, m', out) = from_taken t m.here in (u, p, Moved-trans m m', out)

    from_sent : (s : Pool) → Reach k fds n s → s.pc i ≡ sent → Out k fds n s i
    from_sent s r e =
        let (t, m) = peek-active setting responsive i lt s r e in
        let (u, p, m', out) = from_active t m.here in (u, p, Moved-trans m m', out)

    from_starting : (s : Pool) → Reach k fds n s → s.pc i ≡ starting → Out k fds n s i
    from_starting s r e =
        let (t, m) = arrive setting responsive i lt s r e in
        let (u, p, m', out) = from_active t m.here in (u, p, Moved-trans m m', out)

    out : (s : Pool) → Reach k fds n s → (p : Pc) → s.pc i ≡ p → Out k fds n s i
    out s r starting e = from_starting s r e
    out s r sent e = from_sent s r e
    out s r active e = from_active s e
    out s r taken e = from_taken s e
    out s r p e = (s, p, record { leads = stay; here = e; others = λ j apart. refl }, ground arith)

  all_out :
      (m : ℕ)
      → m ≤ n
      → (s : Pool) → Reach k fds n s
      → (t : Pool) × Leads k fds n s t × ((i : ℕ) → i < m → has_left (t.pc i) ≡ true)
  all_out zero h s r = (s, stay, λ i lt. absurd (omega arith))
  all_out (suc m) h s r =
      let (t, leads, gone) = all_out m (omega arith) s r in
      let (u, p, moved, left) = out m (omega arith) t (Reach-Leads r leads) (t.pc m) refl in
      (
        u,
        Leads-trans leads moved.leads,
        λ i lt. elim (ℕ_discrete m i) [
          | yes e ↦ ap has_left (ap u.pc (sym e) ∙ moved.here) ∙ left
          | no apart ↦ ap has_left (moved.others i apart) ∙ gone i (omega arith)
        ],
      )

  -- Whatever the workers have done, the group can still be ended: where the system answers the calls
  -- that do not wait, some further calls of the workers bring every one of them past its last peek, and
  -- then one of them is about to kill the group or the group was killed.
  pub Reach-Ended :
      (s : Pool)
      → Reach k fds n s
      → 0 < n
      → (t : Pool) × Leads k fds n s t × ((i : ℕ) → i < n → has_left (t.pc i) ≡ true) × Ended n t
  Reach-Ended s r some =
      let (t, leads, gone) = all_out n (omega arith) s r in
      (t, leads, gone, all_left-Ended setting (Reach-Leads r leads) some gone)
