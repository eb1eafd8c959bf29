-- ===== src/Core/Workers/Interleaved/Last.antt =====
-- Who ends the group, in any order of the workers' calls.
use sve.Base.{Bool-cases, ℕ, ◌<◌, ◌≡◌, refl, ◌⊎◌, inl, inr, Bool, true, false, arith}
use sve.Kernel.{Kernel, Log}
use sve.Kernel.Queue.{pending}
use sve.Core.Workers.Termination.{kills}
use sve.Core.Workers.Interleaved.{
  Pc, starting, sent, active, taken, alone, pinging, waiting, Sockets, Move, go, Pool, Reach,
}
use sve.Core.Workers.Interleaved.Tally.{tally-pos, pos-tally}
use sve.Core.Workers.Interleaved.Invariant.{
  counted, responsible, killed_group, left_it, Setting, Inv, Reach-Inv,
}

-- The worker has made its last peek.
abbrev pub has_left : Pc → Bool
has_left alone = true
has_left (pinging _) = true
has_left (waiting _) = true
has_left p = false

-- Is about to kill the group, or the group was killed.
abbrev pub Ended : ℕ → Pool → Type 0
Ended n s = ((i : ℕ) × (i < n) × (s.pc i ≡ alone)) ⊎ (0 < kills s.log)

module _ {k : Kernel} {fds : Sockets} (setting : Setting k fds) where
  open setting use {queue}

  Move-alone :
      {log log' : Log} {p p' : Pc}
      → Move k fds log p log' p'
      → p' ≡ alone
      → pending k fds.activate fds.deactivate log ≡ 0
  Move-alone {log} {p = sent} (go _) e = absurd (ground arith)
  Move-alone {log} {p = taken} (go _) e = ground (arith, queue.peek log 1)
  Move-alone {p = starting} (go _) e = absurd (ground arith)
  Move-alone {p = active} (go _) e = absurd (ground arith)
  Move-alone {p = alone} (go _) e = absurd (ground arith)
  Move-alone {p = pinging killed} (go _) e = absurd (ground arith)
  Move-alone {p = waiting killed} (go _) e = absurd (ground arith)

  -- When a worker finds that it has to kill the group, no worker is counted as active.
  pub alone-Last :
      {n : ℕ} {s : Pool} {log : Log}
      → Reach k fds n s
      → (i : ℕ) → i < n
      → Move k fds s.log (s.pc i) log alone
      → (j : ℕ) → j < n
      → counted (s.pc j) ≡ false
  alone-Last {n} {s} r i lt mv j below =
      ground (arith, Move-alone mv refl, inv.counts, tally-pos counted n s.pc j below)
    where
      inv : Inv k fds n s
      inv = Reach-Inv setting r

  -- Once every worker has made its last peek, one is about to kill the group or the group was killed.
  pub all_left-Ended :
      {n : ℕ} {s : Pool}
      → Reach k fds n s
      → 0 < n
      → ((i : ℕ) → i < n → has_left (s.pc i) ≡ true)
      → Ended n s
  all_left-Ended {n} {s} r some all = elim (Bool-cases (left_it (s.pc 0))) [
    | inl left ↦
        let (i, lt, e) = pos-tally responsible n s.pc (inv.looked_after 0 some left) in
        ends i lt (s.pc i) refl (all i lt) e
    | inr stays ↦ ends 0 some (s.pc 0) refl (all 0 some) (ground (arith, all 0 some))
  ]
    where
      inv : Inv k fds n s
      inv = Reach-Inv setting r

      ends :
          (i : ℕ)
          → i < n
          → (p : Pc) → s.pc i ≡ p
          → has_left p ≡ true
          → responsible p ≡ true
          → Ended n s
      ends i lt alone e l m = inl (i, lt, e)
      ends i lt (pinging true) e l m =
          inr (rw inv.kills_made (tally-pos killed_group n s.pc i lt (rw e refl)))
      ends i lt (waiting true) e l m =
          inr (rw inv.kills_made (tally-pos killed_group n s.pc i lt (rw e refl)))
      ends i lt p e l m = absurd (ground arith)
