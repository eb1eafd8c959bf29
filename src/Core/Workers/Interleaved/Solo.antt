-- ===== src/Core/Workers/Interleaved/Solo.antt =====
-- The moves of one worker, made with no call of another one in between, are dsu_activate_process and
-- dsu_terminate.
use sve.Base.{◌≡◌, refl, ap, Bool, true, false, ◌∷◌, [], if◌then◌else◌}
use sve.Kernel.{Kernel, Call, Log, World, pure, sys, bytes, confirm}
use sve.Kernel.Runs
use sve.Kernel.Runs.{Ends, came_back, did_not, Called}
use sve.Kernel.Stuck.{sys-answered}
use sve.Core.Workers.{
  change_number_of_workers, deactivate_process, activate_process, kill_group, send_ping, terminate,
}
use sve.Core.Workers.Interleaved.{
  Pc, starting, sent, active, taken, alone, pinging, waiting, Sockets, next_call, after, Move, go,
}

abbrev pub fds_of : World → Sockets
fds_of w = record { ping = w.ping; activate = w.activate; deactivate = w.deactivate }

pub data Moves (k : Kernel) (fds : Sockets) (log : Log) (p : Pc) : Log → Pc → Type 0 where
  none_yet : Moves k fds log p log p
  and_then :
      {log' log'' : Log} {p' p'' : Pc}
      → Moves k fds log p log' p'
      → Move k fds log' p' log'' p''
      → Moves k fds log p log'' p''

-- The worker made a call that the system does not answer.
abbrev pub Halted : Kernel → World → Pc → World → Type 0
Halted k w p v =
    (log : Log) × (q : Pc) × Moves k (fds_of w) w.log p log q
    × (v.log ≡ next_call (fds_of w) q ∷ log)
    × ((k log (next_call (fds_of w) q)).returns ≡ false)

module _ (k : Kernel) (w : World) (p : Pc) where
  -- The worker came from `p` in `w` to `q` in `v`.
  record Came (q : Pc) (v : World) : Type 0 where
    moves : Moves k (fds_of w) w.log p v.log q
    same : fds_of v ≡ fds_of w

  step :
      (q : Pc) (v : World)
      → Came q v
      → (call : Call) → call ≡ next_call (fds_of w) q
      → Ends (λ r u. Came (after q r.value) u) (Halted k w p) (sys k call v)
  step q v came call e =
      Runs.mono-Ends (sys-answered k call v)
        (λ r u (called, answers). record {
          moves = rw (called.logged, called.reply, e) (and_then came.moves (go (rw (← e) answers)));
          same = cc;
        })
        λ u (logged, silent). (v.log, q, came.moves, rw (← e) logged, rw (← e) silent)

Came-refl : (k : Kernel) (w : World) (p : Pc) → Came k w p p w
Came-refl k w p = record { moves = none_yet; same = refl }

-- dsu_activate_process is the worker's way from `starting` to `active`, or back
-- to `starting` if it is told that none is active.
activate_process-Moves :
    (k : Kernel) (w : World)
    → Ends
        (λ told v. Moves k (fds_of w) w.log starting v.log (if told then active else starting))
        (Halted k w starting)
        (activate_process k w)
unfolding activate_process change_number_of_workers
activate_process-Moves k w =
    Runs.bind-Ends (step k w starting starting w (Came-refl k w starting) _ refl) λ r v came.
      Runs.bind-Ends (step k w starting sent v came _ refl) λ r' u came'. came_back came'.moves

module _ (k : Kernel) (w : World) where
  deactivate_process-Came :
      Ends
        (λ told v. Came k w active (if told then pinging false else alone) v)
        (Halted k w active)
        (deactivate_process k w)
  unfolding deactivate_process change_number_of_workers
  deactivate_process-Came =
      Runs.bind-Ends (step k w active active w (Came-refl k w active) _ refl) λ r v came.
        Runs.bind-Ends (step k w active taken v came _ refl) λ r' u came'. came_back came'

  kill_group-Came :
      (told : Bool) (v : World)
      → Came k w active (if told then pinging false else alone) v
      → Ends
          (λ _ u. (killed : Bool) × Came k w active (pinging killed) u)
          (Halted k w active)
          ((if told then pure tt else kill_group k) v)
  unfolding kill_group
  kill_group-Came true v came = came_back (false, came)
  kill_group-Came false v came =
      Runs.bind-Ends (step k w active alone v came _ refl) λ r u came'. came_back (true, came')

  -- dsu_terminate is the worker's way from `active` to its `sigwait`.
  terminate-Moves :
      Ends
        (λ _ v. (killed : Bool) × Moves k (fds_of w) w.log active v.log (waiting killed))
        (Halted k w active)
        (terminate k w)
  unfolding terminate send_ping
  terminate-Moves = Runs.bind-Ends deactivate_process-Came λ told v came.
      Runs.bind-Ends (kill_group-Came told v came) λ _ u (killed, came').
        Runs.bind-Ends
          (Runs.bind-Ends
            (step k w active (pinging killed) u came' _
              (ap (λ (fds : Sockets). Call.send fds.ping (bytes (b'w' ∷ [])) confirm) came'.same))
            λ r x came''. came_back came'')
          λ _ x came''.
            Runs.bind-Ends (step k w active (waiting killed) x came'' _ refl)
              λ r y last. came_back (killed, last.moves)

-- Without a call of another worker in between, dsu_activate_process is the worker's way from its start
-- to where it is active, or back to its start where it is told that none is active, and dsu_terminate
-- its way from there to its `sigwait`; where one of them does not come back, the worker is on that way
-- in front of a call that the system does not answer.
pub worker-Moves :
    (k : Kernel) (w : World)
    → Ends
        (λ told v. Moves k (fds_of w) w.log starting v.log (if told then active else starting))
        (Halted k w starting)
        (activate_process k w)
      × Ends
          (λ _ v. (killed : Bool) × Moves k (fds_of w) w.log active v.log (waiting killed))
          (Halted k w active)
          (terminate k w)
worker-Moves k w = (activate_process-Moves k w, terminate-Moves k w)
