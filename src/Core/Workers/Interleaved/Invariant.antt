-- ===== src/Core/Workers/Interleaved/Invariant.antt =====
-- What holds in every state that the workers reach: the queue counts those that are active, somebody
-- is there to end the group, and each who did has killed it.
use native.Mathlib.Decide.{dec_lt}
use sve.Base.{ℕ, ◌+◌, ◌≤◌, ◌<◌, ◌≡◌, refl, sym, ◌∙◌, Bool, true, false, ◌∷◌, arith, ◌==◌, ==_refl}
use sve.Kernel.{Kernel, Call, Log}
use sve.Kernel.Queue.{pending, IsQueue}
use sve.Core.Workers.Group.{Roomy}
use sve.Core.Workers.Termination.{kills}
use sve.Core.Workers.Interleaved.{
  Pc, starting, sent, active, taken, alone, pinging, waiting, Sockets, Move, go, Pool, IsApart,
  Step, pick, elsewhere, Reach, start, later,
}
use sve.Core.Workers.Interleaved.Tally.{
  update, one_if, tally, one_if-tally, tally-update, tally-zero, tally_mono,
}

-- Between the `send` of dsu_activate_process and the `recv` of dsu_terminate.
abbrev pub counted : Pc → Bool
counted sent = true
counted active = true
counted p = false

-- Who still ends the group, or has.
abbrev pub responsible : Pc → Bool
responsible starting = false
responsible (pinging false) = false
responsible (waiting false) = false
responsible p = true

abbrev pub killed_group : Pc → Bool
killed_group (pinging true) = true
killed_group (waiting true) = true
killed_group p = false

-- Has left the group to another worker.
abbrev pub left_it : Pc → Bool
left_it (pinging false) = true
left_it (waiting false) = true
left_it p = false

-- The queue between `activate` and `deactivate` takes and gives every message, and `ping` is a socket
-- of its own.
pub record Setting (k : Kernel) (fds : Sockets) : Type 0 where
  pub queue : IsQueue k fds.activate fds.deactivate
  pub roomy : Roomy k fds.activate
  pub own_ping : (fds.ping == fds.activate) ≡ false

pub record Inv (k : Kernel) (fds : Sockets) (n : ℕ) (s : Pool) : Type 0 where
  pub counts : pending k fds.activate fds.deactivate s.log ≡ tally counted n s.pc
  pub kills_made : kills s.log ≡ tally killed_group n s.pc
  pub looked_after : (i : ℕ) → i < n → left_it (s.pc i) ≡ true → 0 < tally responsible n s.pc

counted-responsible : (p : Pc) → counted p ≡ true → responsible p ≡ true
counted-responsible p e = ground arith

module _ {k : Kernel} {fds : Sockets} (setting : Setting k fds) where
  open setting use {queue, roomy, own_ping}

  abbrev queued : Log → ℕ
  queued = pending k fds.activate fds.deactivate

  -- What one call does to the queue, given that a counted worker is in it.
  Move-queued :
      {log log' : Log} {p p' : Pc}
      → Move k fds log p log' p'
      → one_if (counted p) ≤ queued log
      → queued log' + one_if (counted p) ≡ queued log + one_if (counted p')
  unfolding pending
  Move-queued {log} {p = starting} (go _) h = rw (==_refl fds.activate, roomy log) (omega arith)
  Move-queued {log} {p = sent} (go _) h = rw (queue.peek log 1) (ground arith)
  Move-queued {log} {p = active} (go _) h =
      rw (==_refl fds.deactivate, queue.take log 1) (ground arith)
  Move-queued {log} {p = taken} (go _) h = rw (queue.peek log 1) (ground arith)
  Move-queued {p = alone} (go _) h = omega arith
  Move-queued {p = pinging killed} (go _) h = rw own_ping (omega arith)
  Move-queued {p = waiting killed} (go _) h = omega arith

  Move-kills :
      {log log' : Log} {p p' : Pc}
      → Move k fds log p log' p'
      → kills log' + one_if (killed_group p) ≡ kills log + one_if (killed_group p')
  Move-kills {p = starting} (go _) = omega arith
  Move-kills {log} {p = sent} (go _) = rw (queue.peek log 1) (ground arith)
  Move-kills {p = active} (go _) = omega arith
  Move-kills {log} {p = taken} (go _) = rw (queue.peek log 1) (ground arith)
  Move-kills {p = alone} (go _) = omega arith
  Move-kills {p = pinging killed} (go _) = ground arith
  Move-kills {p = waiting killed} (go _) = omega arith

  -- A worker stays responsible and does not leave, unless another one is counted at its peek.
  Move-responsible :
      {log log' : Log} {p p' : Pc}
      → Move k fds log p log' p'
      → one_if (counted p) ≤ queued log
      → queued log' ≡ 0
      → (one_if (responsible p) ≤ one_if (responsible p')) × (left_it p' ≡ true → left_it p ≡ true)
  unfolding pending
  Move-responsible {p = starting} (go _) h none = ground arith
  Move-responsible {log} {p = sent} (go _) h none = rw (queue.peek log 1) (ground arith)
  Move-responsible {p = active} (go _) h none = ground arith
  Move-responsible {log} {p = taken} (go _) h none = rw (queue.peek log 1) (ground arith)
  Move-responsible {p = alone} (go _) h none = ground arith
  Move-responsible {p = pinging killed} (go _) h none = ground arith
  Move-responsible {p = waiting killed} (go _) h none = ground arith

  module _ {n : ℕ} {s : Pool} (inv : Inv k fds n s) where
    open inv use {counts, kills_made, looked_after}

    -- A counted worker has its message in the queue.
    counted-queued : (i : ℕ) → i < n → one_if (counted (s.pc i)) ≤ queued s.log
    counted-queued i lt = rw counts (one_if-tally counted n s.pc i lt)

    module _ (i : ℕ) (lt : i < n) {log' : Log} {p' : Pc}
        (mv : Move k fds s.log (s.pc i) log' p') where
      counts' : queued log' ≡ tally counted n (update s.pc i p')
      counts' =
          omega (
            arith,
            counts,
            Move-queued mv (counted-queued i lt),
            tally-update counted n s.pc i p' lt,
          )

      kills' : kills log' ≡ tally killed_group n (update s.pc i p')
      kills' = omega (arith, kills_made, Move-kills mv, tally-update killed_group n s.pc i p' lt)

      looked_after' :
          (j : ℕ)
          → j < n
          → left_it (update s.pc i p' j) ≡ true
          → 0 < tally responsible n (update s.pc i p')
      looked_after' j below left = elim (dec_lt 0 (queued log')) [
        | yes some_counted ↦ omega (
          arith,
          counts',
          tally_mono responsible counted counted-responsible n (update s.pc i p'),
        )
        | no none_counted ↦
            let (stays, still) = Move-responsible mv (counted-queued i lt) (omega arith) in
            let before : 0 < tally responsible n s.pc = looked_after j below (ground arith) in
            omega (arith, stays, tally-update responsible n s.pc i p' lt)
      ]

      pub pick-Inv : Inv k fds n (record { log = log'; pc = update s.pc i p' })
      pick-Inv = record { counts = counts'; kills_made = kills'; looked_after = looked_after' }

    elsewhere-Inv :
        {call : Call} → IsApart k fds s.log call → Inv k fds n (record s { log = call ∷ s.log })
    unfolding pending
    elsewhere-Inv apart = record {
      counts = apart.untouched _ ∙ counts;
      kills_made = apart.spares ∙ kills_made;
      looked_after = looked_after;
    }

  pub Step-Inv : {n : ℕ} {s t : Pool} → Inv k fds n s → Step k fds n s t → Inv k fds n t
  Step-Inv inv (pick i lt mv) = pick-Inv inv i lt mv
  Step-Inv inv (elsewhere apart) = elsewhere-Inv inv apart

  pub Reach-Inv : {n : ℕ} {s : Pool} → Reach k fds n s → Inv k fds n s
  unfolding pending
  Reach-Inv {n} start = record {
    counts = sym (tally-zero counted n (λ _. starting) (λ i. refl));
    kills_made = sym (tally-zero killed_group n (λ _. starting) (λ i. refl));
    looked_after = λ i lt left. absurd (ground arith);
  }
  Reach-Inv (later r step) = Step-Inv (Reach-Inv r) step
