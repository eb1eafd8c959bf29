-- ===== src/Core/Workers/Interleaved/Race.antt =====
-- A worker that starts while the last one leaves.
use native.Mathlib.Decide.{ℕ_discrete}
use sve.Base.{ℕ, ◌<◌, ◌≡◌, refl, sym, ap, ◌∙◌, [], arith, ltb, if◌then◌else◌, false}
use sve.Kernel.{Kernel}
use sve.Kernel.Runs.{Responsive}
use sve.Kernel.Queue.{pending}
use sve.Core.Workers.Interleaved.{
  starting, active, taken, alone, pinging, Sockets, Pool, Reach, start,
}
use sve.Core.Workers.Interleaved.Tally.{tally-zero}
use sve.Core.Workers.Interleaved.Moved.{
  Moved, Moved-at, Moved-trans, Reach-Leads, arrive, take, look,
}
use sve.Core.Workers.Interleaved.Invariant.{counted, Setting, Reach-Inv}

abbrev at_first : Pool
at_first = record { log = []; pc = λ _. starting }

module _ {k : Kernel} {fds : Sockets} {n : ℕ} (setting : Setting k fds)
    (responsive : Responsive k) where
  -- The first worker comes and goes while the others are starting.
  first_alone : 0 < n → (t : Pool) × Moved k fds n at_first 0 alone t
  first_alone some =
      let (t, m) = arrive setting responsive 0 some at_first start refl in
      let (u, m') = take setting responsive 0 some t m.here in
      let gone = Moved-trans m m' in
      let (v, m'') = look setting responsive 0 some u m'.here in
      (
        v,
        Moved-trans gone
            (Moved-at (ap (λ q. if ltb 0 q then pinging false else alone) (none u gone)) m''),
      )
    where
      none :
          (u : Pool)
          → Moved k fds n at_first 0 taken u
          → pending k fds.activate fds.deactivate u.log ≡ 0
      none u m =
          (Reach-Inv setting (Reach-Leads start m.leads)).counts
          ∙ tally-zero counted n u.pc λ i. elim (ℕ_discrete 0 i) [
            | yes e ↦ ap counted (ap u.pc (sym e) ∙ m.here)
            | no apart ↦ ap counted (m.others i apart)
          ]

  -- On every such system, and with any number of workers from two on, a state is reached in which one
  -- worker is about to kill the group while another one has been told that it is active: the peek that
  -- found nobody and the kill are two calls, and a worker may start between them.
  pub kills-Active : 1 < n → (s : Pool) × Reach k fds n s × (s.pc 0 ≡ alone) × (s.pc 1 ≡ active)
  kills-Active two =
      let (s, m) = first_alone (omega arith) in
      let r = Reach-Leads start m.leads in
      let (t, m') = arrive setting responsive 1 two s r (m.others 1 (λ e. ground arith)) in
      (t, Reach-Leads r m'.leads, m'.others 0 (λ e. ground arith) ∙ m.here, m'.here)
