-- ===== src/Examples/Interleaved.antt =====
-- Workers in an order of their own, on a concrete system.
use native.Mathlib.Decide.{ℕ_discrete}
use sve.Base.{ℕ, suc, zero, ◌<◌, ◌≡◌, refl, false, true, Bool, [], ◌∷◌, arith, ◌==◌, if◌then◌else◌}
use sve.Kernel.Runs.{Ends}
use sve.Core.Workers.{activate_process, terminate}
use sve.Core.Workers.Interleaved.{
  Pool, Sockets, starting, active, alone, waiting, go, next_call, after, pick, Reach, start, later,
}
use sve.Core.Workers.Interleaved.Tally.{update}
use sve.Core.Workers.Interleaved.Invariant.{Setting, counted}
use sve.Core.Workers.Interleaved.Last.{Ended, has_left, alone-Last, all_left-Ended}
use sve.Core.Workers.Interleaved.Race.{kills-Active}
use sve.Core.Workers.Interleaved.Solo.{Moves, Halted, fds_of, worker-Moves}
use sve.Examples.Kernels.{calm, calm-Answers, calm-Responsive, calm-workers, running}

abbrev pairs : Sockets
pairs = fds_of running

calm-Setting : Setting calm pairs
unfolding ◌==◌
calm-Setting = record { queue = calm-workers; roomy = λ log. refl; own_ping = refl }

abbrev picked : Pool → ℕ → Pool
picked s i = record {
  log = next_call pairs (s.pc i) ∷ s.log;
  pc = update s.pc i (after (s.pc i) (calm s.log (next_call pairs (s.pc i))).value);
}

abbrev begin : Pool
begin = record { log = []; pc = λ _. starting }

picked-Reach :
    {n : ℕ} {s : Pool} (i : ℕ) → i < n → Reach calm pairs n s → Reach calm pairs n (picked s i)
picked-Reach {s} i lt r = later r (pick i lt (go (calm-Answers s.log (next_call pairs (s.pc i)))))

-- Worker 0 up to its last peek, while worker 1 is starting.
abbrev looking : Pool
looking = picked (picked (picked begin 0) 0) 0

looking-Reach : Reach calm pairs 2 looking
looking-Reach =
    picked-Reach 0 (omega arith) (picked-Reach 0 (omega arith) (picked-Reach 0 (omega arith) start))

alone-Last_example : counted (looking.pc 1) ≡ false
unfolding ◌==◌ ℕ_discrete
alone-Last_example =
    alone-Last calm-Setting looking-Reach 0 (omega arith)
      (go (calm-Answers looking.log (next_call pairs (looking.pc 0)))) 1 (omega arith)

-- One worker alone, up to its last peek.
abbrev single : Pool
single = picked looking 0

single-Reach : Reach calm pairs 1 single
single-Reach = picked-Reach 0 (omega arith) (
    picked-Reach 0 (omega arith)
      (picked-Reach 0 (omega arith) (picked-Reach 0 (omega arith) start)))

all_out : (i : ℕ) → i < 1 → has_left (single.pc i) ≡ true
unfolding ◌==◌ ℕ_discrete
all_out zero lt = refl
all_out (suc i) lt = absurd (omega arith)

all_left-Ended_example : Ended 1 single
all_left-Ended_example = all_left-Ended calm-Setting single-Reach (omega arith) all_out

kills-Active_example : (s : Pool) × Reach calm pairs 2 s × (s.pc 0 ≡ alone) × (s.pc 1 ≡ active)
kills-Active_example = kills-Active calm-Setting calm-Responsive (omega arith)

worker-Moves_example :
    Ends
      (λ told v.
        Moves calm (fds_of running) running.log starting v.log (if told then active else starting))
      (Halted calm running starting)
      (activate_process calm running)
    × Ends
        (λ _ v.
          (killed : Bool) × Moves calm (fds_of running) running.log active v.log (waiting killed))
        (Halted calm running active)
        (terminate calm running)
worker-Moves_example = worker-Moves calm running
