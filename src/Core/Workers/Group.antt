-- ===== src/Core/Workers/Group.antt =====
-- Workers that come and go, as a counter.
use sve.Base.{
  ◌≤◌, ◌<◌, arith, length, ℕ, ◌+◌, ◌-◌, ◌≡◌, refl, ap, ◌∙◌, Bool, true, false, List, [], ◌∷◌, ltb,
  not, is_negative, ℤ,
}
use sve.Kernel.{Kernel, Call, Log, World, Prog, pure, ◌>>=◌, bytes, confirm}
use sve.Kernel.Runs
use sve.Kernel.Runs.{Returns, returns, Responsive, Quiet}
use sve.Kernel.Queue.{IsQueue, pending}
use sve.Core.Workers.{activate_process, deactivate_process}
use sve.Core.Workers.Count.{workers, activate-workers, deactivate-workers}

pub data Move : Type 0 where
  arrive leave : Move

module _ (k : Kernel) where
  -- The workers of a group share the queue and the record of calls.
  unfoldable pub run_moves : List Move → Prog (List Bool)
  run_moves [] = pure []
  run_moves (arrive ∷ moves) = do
    active ← activate_process k
    rest ← run_moves moves
    pure (active ∷ rest)
  run_moves (leave ∷ moves) = do
    active ← deactivate_process k
    rest ← run_moves moves
    pure (active ∷ rest)

-- The counter: how many are active, and what each worker is told.
abbrev pub counter : ℕ → List Move → ℕ
counter n [] = n
counter n (arrive ∷ moves) = counter (n + 1) moves
counter n (leave ∷ moves) = counter (n - 1) moves

abbrev pub told : ℕ → List Move → List Bool
told n [] = []
told n (arrive ∷ moves) = true ∷ told (n + 1) moves
told n (leave ∷ moves) = ltb 1 n ∷ told (n - 1) moves

-- The queue takes every message.
abbrev pub Roomy : Kernel → ℤ → Type 0
Roomy k fd =
    (log : Log) → is_negative (k log (Call.send fd (bytes (b'a' ∷ [])) confirm)).value ≡ false

-- The queue takes a message while it holds fewer than `capacity`.
abbrev pub HasCapacity : Kernel → (sender receiver : ℤ) → ℕ → Type 0
HasCapacity k sender receiver capacity =
    (log : Log)
    → pending k sender receiver log < capacity
    → is_negative (k log (Call.send sender (bytes (b'a' ∷ [])) confirm)).value ≡ false

-- In any order of arrivals and departures, on a queue that gives what was sent and takes a message while it
-- holds fewer than its capacity, which is not below the number of workers at the start and of moves, and a system that
-- answers the calls that do not wait: each worker that arrives is told that one is active, each that
-- leaves is told whether another one is active at that moment, and the count is that of the counter.
pub run_moves-counter :
    (k : Kernel) (moves : List Move) (w : World) (n capacity : ℕ)
    → Responsive k
    → IsQueue k w.activate w.deactivate
    → HasCapacity k w.activate w.deactivate capacity
    → workers k w ≡ n
    → n + length moves ≤ capacity
    → Returns
        (λ answers v. (answers ≡ told n moves) × (workers k v ≡ counter n moves))
        (run_moves k moves w)
unfolding run_moves
run_moves-counter k [] w n capacity responsive queue roomy e fits = returns (refl, e)
run_moves-counter k (arrive ∷ moves) w n capacity responsive queue roomy e fits =
    Runs.bind
      (activate-workers k responsive w queue (ap not (roomy w.log (omega (arith, e, fits)))))
      λ active v (told_active, counted, quiet).
        Runs.bind
          (run_moves-counter k moves v (n + 1) capacity responsive
            (rw (quiet.activate, quiet.deactivate) queue)
            (rw (quiet.activate, quiet.deactivate) roomy) (counted ∙ ap (λ (m : ℕ). m + 1) e)
            (omega (arith, fits)))
          λ rest u (answers, count). returns (rw (told_active, answers), count)
run_moves-counter k (leave ∷ moves) w n capacity responsive queue roomy e fits =
    Runs.bind (deactivate-workers k responsive w queue) λ active v (told_active, counted, quiet).
      Runs.bind
        (run_moves-counter k moves v (n - 1) capacity responsive
          (rw (quiet.activate, quiet.deactivate) queue)
          (rw (quiet.activate, quiet.deactivate) roomy) (counted ∙ ap (λ (m : ℕ). m - 1) e)
          (omega (arith, fits)))
        λ rest u (answers, count). returns (rw (told_active, answers, e), count)
