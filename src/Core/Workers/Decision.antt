-- ===== src/Core/Workers/Decision.antt =====
-- The head of select and epoll_wait as a whole: src/event_handlers/select.c and epoll.c call
-- dsu_termination_detection and, if it holds, dsu_terminate.
use sve.Base.{◌+◌, ◌≡◌, ◌∙◌, refl, ◌⊎◌, inl, inr, ◌∷◌, arith, ltb, if◌then◌else◌}
use sve.Kernel.{Kernel, Call, World, dontwait_peek}
use sve.Kernel.Runs
use sve.Kernel.Runs.{
  Quiet, Returns, Ends, came_back, did_not, Responsive, Called, prompt-Returns, if_program-Ends,
}
use sve.Kernel.Queue.{pending, IsQueue}
use sve.Core.Workers.{termination_detection, terminate_if_done}
use sve.Core.Workers.Count.{workers}
use sve.Core.Workers.Termination.{
  announced_clients, AllTransferred, kills, termination_detection_iff, terminate-kills,
}

-- No message is left in the queue between `accept` and `close`, every port is served by the new version,
-- and no connection of another version is open.
abbrev pub IsDone : Kernel → World → Type 0
IsDone k w = (announced_clients k w ≡ 0) × AllTransferred w.binds

-- The test makes one call.
abbrev Looked : World → World → Type 0
Looked w v = v.log ≡ Call.recv w.close 1 dontwait_peek ∷ w.log

detection-Looked :
    (k : Kernel) (w : World)
    → Responsive k
    → Returns (λ _ v. Looked w v) (termination_detection k w)
unfolding termination_detection
detection-Looked k w responsive =
    Runs.bind (prompt-Returns k responsive _ w refl) λ r v called. Returns.returns called.logged

-- The group is killed if the queue counts no other worker.
abbrev pub Left : Kernel → World → World → Type 0
Left k w v = IsDone k w × (kills v.log ≡ kills w.log + (if ltb 1 (workers k w) then 0 else 1))

-- The look changes no count.
kills-Looked :
    (k : Kernel) {w v : World}
    → Quiet w v
    → Looked w v
    → kills v.log + (if ltb 1 (workers k v) then 0 else 1)
      ≡ kills w.log + (if ltb 1 (workers k w) then 0 else 1)
unfolding pending
kills-Looked k quiet looked = rw (quiet.activate, quiet.deactivate, looked) refl

-- Where the system answers the calls that do not wait and the two queues give what was sent, however it
-- ends: where a message is left in the queue between `accept` and `close`, a port is not served
-- by the new version or a connection of another version is open, it comes back and has made only the
-- call that looks for messages; else the group is killed once if the queue of workers counts no other
-- one, and not at all if it counts one.
pub terminate_if_done-Decides :
    (k : Kernel) (w : World)
    → Responsive k
    → IsQueue k w.accept w.close
    → IsQueue k w.activate w.deactivate
    → Ends
        (λ _ v.
          Left k w v ⊎ ((IsDone k w → ⊥) × (v.log ≡ Call.recv w.close 1 dontwait_peek ∷ w.log)))
        (λ v. Left k w v)
        (terminate_if_done k w)
unfolding terminate_if_done
terminate_if_done-Decides k w responsive clients queue =
    Runs.bind_returns-Ends
      (Runs.both (termination_detection_iff k w responsive clients)
        (detection-Looked k w responsive))
      λ done v ((iff, quiet), looked).
        if_program-Ends done _ _ v
          (λ yes_done.
            Runs.mono-Ends
              (terminate-kills k responsive v (rw (quiet.activate, quiet.deactivate) queue))
              (λ _ u e. inl (iff.0 yes_done, e ∙ kills-Looked k quiet looked))
              (λ u e. (iff.0 yes_done, e ∙ kills-Looked k quiet looked)))
          λ not_done. came_back (inr ((λ is_done. ground (arith, iff.1 is_done)), looked))
