-- ===== src/Examples/Workers.antt =====
-- The theorems on workers, clients and messages, at concrete worlds.
use sve.Base.{
  ◌⊎◌, ◌-◌, ◌≡◌, ◌↔◌, refl, true, false, [], ◌∷◌, pos, minus_one, inl, if◌then◌else◌, arith,
}
use sve.Core.Workers.Decision.{IsDone, Left, terminate_if_done-Decides}
use sve.Kernel.{Call, dontwait_peek, Kernel}
use sve.Kernel.Runs.{Returns, Ends, Quiet}
use sve.Kernel.Queue.{pending}
use sve.Core.Workers.{termination_detection, terminate_if_done}
use sve.Core.Workers.Count.{workers}
use sve.Core.Workers.Group.{arrive, leave, run_moves, counter, run_moves-counter}
use sve.Core.Workers.Termination.{announced_clients, AllTransferred, termination_detection_iff}
use sve.Core.Wrappers.{close}
use sve.Core.Wrappers.Clients.{close-announced_clients, closes_client, asked_log}
use sve.Communication.{read_fd, fd_message}
use sve.Communication.RoundTrip.{delivered, read_fd-fd_message}
use sve.Examples.Kernels.{calm, calm-Responsive, calm-workers, calm-clients, running, reply}

run_moves-counter_example :
    Returns
      (λ answers v.
        (answers ≡ true ∷ true ∷ true ∷ false ∷ [])
        × (workers calm v ≡ counter 0 (arrive ∷ arrive ∷ leave ∷ leave ∷ [])))
      (run_moves calm (arrive ∷ arrive ∷ leave ∷ leave ∷ []) running)
unfolding pending
run_moves-counter_example =
    run_moves-counter calm (arrive ∷ arrive ∷ leave ∷ leave ∷ []) running 0 4 calm-Responsive
      calm-workers (λ log fits. refl) refl (omega arith)

termination_detection_iff_example :
    Returns
      (λ done v.
        ((done ≡ true) ↔ ((announced_clients calm running ≡ 0) × AllTransferred running.binds))
        × Quiet running v)
      (termination_detection calm running)
termination_detection_iff_example =
    termination_detection_iff calm running calm-Responsive calm-clients

terminate_if_done-Decides_example :
    Ends
      (λ _ v.
        Left calm running v
        ⊎ ((IsDone calm running → ⊥) × (v.log ≡ Call.recv (pos 9) 1 dontwait_peek ∷ [])))
      (λ v. Left calm running v)
      (terminate_if_done calm running)
terminate_if_done-Decides_example =
    terminate_if_done-Decides calm running calm-Responsive calm-clients calm-workers

close-announced_clients_example :
    Returns
      (λ result v.
        (result ≡ (calm (asked_log (pos 7) []) (Call.close (pos 7))).value)
        × (announced_clients calm v
            ≡ announced_clients calm running - (if closes_client calm (pos 7) [] then 1 else 0))
        × Quiet running v)
      (close calm (pos 7) running)
close-announced_clients_example =
    close-announced_clients calm calm-Responsive (pos 7) running calm-clients
      (λ log fd option. inl refl)

-- A system that delivers a message for descriptor 3 and port -1 as descriptor 21.
abbrev delivering : Kernel
delivering log call = record (reply (pos 4)) {
  message = record {
    iov = (fd_message (pos 3) minus_one).iov;
    control = delivered (fd_message (pos 3) minus_one).control (pos 21);
  };
}

read_fd-fd_message_example :
    Returns
      (λ result v. (result ≡ (pos 4, pos 21, minus_one)) × Quiet running v)
      (read_fd delivering (pos 4) (pos 0) (pos 0) running)
read_fd-fd_message_example =
    read_fd-fd_message delivering running (pos 4) (pos 3) (pos 21) minus_one (pos 0) (pos 0)
      (omega arith) (record { returns = refl; value = refl; iov = refl; control = refl })
