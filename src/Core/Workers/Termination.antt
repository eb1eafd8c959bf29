-- ===== src/Core/Workers/Termination.antt =====
-- When a version ends, and how.
use sve.Base.{
  ℕ, suc, ◌+◌, ◌≡◌, refl, ◌↔◌, Bool, true, false, List, [], ◌∷◌, arith, ltb, if◌then◌else◌, ℤ,
  is_positive,
}
use sve.State.{DsuSocket}
use sve.Kernel.{
  Kernel, Call, Log, World, Run, pure, sys, ◌>>=◌, ◌>>◌, bytes, confirm, dontwait, dontwait_peek,
}
use sve.Kernel.Runs
use sve.Kernel.Runs.{
  Returns, returns, Responsive, Called, Quiet, Ends, came_back, did_not, prompt-Returns, sys-Ends,
  if_program-Ends,
}
use sve.Kernel.Queue.{pending, IsQueue, peek-call}
use sve.Core.Workers.{
  is_empty, all_transferred, termination_detection, change_number_of_workers, deactivate_process,
  kill_group, send_ping, terminate,
}
use sve.Core.Workers.Count.{workers, deactivate-workers}

-- Every port is served by the new version, and no connection of another version is open.
abbrev pub AllTransferred : List DsuSocket → Type 0
AllTransferred [] = Unit {0}
AllTransferred (s ∷ xs) = ((s.ready ≡ true) × (s.comfds ≡ [])) × AllTransferred xs

empty_iff : (xs : List ℤ) → (is_empty xs ≡ true) ↔ (xs ≡ [])
unfolding is_empty
empty_iff xs = ground arith

all_transferred_iff : (xs : List DsuSocket) → (all_transferred xs ≡ true) ↔ AllTransferred xs
unfolding all_transferred
all_transferred_iff [] = ((λ _. tt), (λ _. refl))
all_transferred_iff (s ∷ xs) = ground (arith, empty_iff s.comfds, all_transferred_iff xs)

done_iff :
    (b t : Bool) (n : ℕ) {P : Type 0}
    → b ≡ ltb 0 n
    → (t ≡ true) ↔ P
    → ((if b then false else t) ≡ true) ↔ ((n ≡ 0) × P)
done_iff true t n e iff = ((λ f. cc), (λ (z, _). ground arith))
done_iff false t n e iff = ((λ h. (ground arith, iff.0 h)), (λ (_, p). iff.1 p))

-- The messages in the queue between `accept` and `close`: the clients that `accept4` announced and that
-- `close` has not taken back. A client from `accept` is not announced.
abbrev pub announced_clients : Kernel → World → ℕ
announced_clients k w = pending k w.accept w.close w.log

-- Where the system answers the calls that do not wait and the queue gives what was sent: the test comes
-- back, changes nothing, and holds exactly when no message is left in the queue between
-- `accept` and `close`, every port is served by the new version and no connection of another version is
-- open.
pub termination_detection_iff :
    (k : Kernel) (w : World)
    → Responsive k
    → IsQueue k w.accept w.close
    → Returns
        (λ done v.
          ((done ≡ true) ↔ ((announced_clients k w ≡ 0) × AllTransferred w.binds)) × Quiet w v)
        (termination_detection k w)
unfolding termination_detection
termination_detection_iff k w responsive queue =
    Runs.bind (prompt-Returns k responsive _ w refl) λ r v called. returns (
      done_iff (is_positive r.value) (all_transferred w.binds) (announced_clients k w)
          (peek-call queue called) (all_transferred_iff w.binds),
      called.quiet,
    )

-- How often the group was killed.
abbrev pub kills : Log → ℕ
kills [] = 0
kills (Call.killpg ∷ log) = suc (kills log)
kills (call ∷ log) = kills log

module _ (k : Kernel) (responsive : Responsive k) where
  deactivate-kills :
      (w : World) → Returns (λ _ v. kills v.log ≡ kills w.log) (deactivate_process k w)
  unfolding deactivate_process change_number_of_workers
  deactivate-kills w =
      Runs.bind (prompt-Returns k responsive (Call.recv w.deactivate 1 dontwait) w refl)
        λ r v called.
          Runs.bind (prompt-Returns k responsive (Call.recv w.deactivate 1 dontwait_peek) v refl)
            λ r' v' called'. returns (rw (called'.logged, called.logged))

  send_ping-kills : (w : World) → Returns (λ _ v. kills v.log ≡ kills w.log) (send_ping k w)
  unfolding send_ping
  send_ping-kills w =
      Runs.bind (prompt-Returns k responsive (Call.send w.ping (bytes (b'w' ∷ [])) confirm) w refl)
        λ sent v called. returns (rw called.logged)

  -- The group is killed `more` times, whether the run comes back or not.
  abbrev Kills : {A : Type 0} → World → ℕ → Run A → Type 0
  Kills w more =
      Ends (λ _ v. kills v.log ≡ kills w.log + more) (λ v. kills v.log ≡ kills w.log + more)

  kill_group-Kills : (w v : World) → kills v.log ≡ kills w.log → Kills w 1 (kill_group k v)
  unfolding kill_group
  kill_group-Kills w v e =
      Runs.bind-Ends
        (Runs.mono-Ends {P' = λ u. kills u.log ≡ kills w.log + 1} (sys-Ends k Call.killpg v)
          (λ r u called. called.logged) (λ u l. rw l (omega arith)))
        λ r u l. came_back (rw l (omega arith))

  -- The end of `dsu_terminate` kills no more.
  wait-Kills :
      (w v : World) (n : ℕ)
      → kills v.log ≡ kills w.log + n
      → Kills w n ((send_ping k >> (sys k Call.sigwait >>= λ _. pure tt)) v)
  wait-Kills w v n e = Runs.bind_returns-Ends (send_ping-kills v) λ _ u e'.
      Runs.bind-Ends
        (Runs.mono-Ends {P' = λ u'. kills u'.log ≡ kills w.log + n} (sys-Ends k Call.sigwait u)
          (λ r u' called. called.logged) (λ u' l. rw (l, e', e)))
        λ r u' l. came_back (rw (l, e', e))

  -- However the run ends, a worker that leaves kills the group once if the queue counts no other worker,
  -- and not at all if it counts one.
  pub terminate-kills :
      (w : World)
      → IsQueue k w.activate w.deactivate
      → Ends
          (λ _ v. kills v.log ≡ kills w.log + (if ltb 1 (workers k w) then 0 else 1))
          (λ v. kills v.log ≡ kills w.log + (if ltb 1 (workers k w) then 0 else 1))
          (terminate k w)
  unfolding terminate
  terminate-kills w queue =
      Runs.bind_returns-Ends
        (Runs.both (deactivate-workers k responsive w queue) (deactivate-kills w))
        λ active v ((told, _, _), same).
          Runs.bind-Ends (killed active v told same) λ _ u e. wait-Kills w u _ e
    where
      killed :
          (active : Bool) (v : World)
          → active ≡ ltb 1 (workers k w)
          → kills v.log ≡ kills w.log
          → Kills w
              (if ltb 1 (workers k w) then 0 else 1)
              ((if active then pure tt else kill_group k) v)
      killed active v told same = rw (← told) (
          Runs.if_program-Ends active (pure tt) (kill_group k) v
            (λ e. rw e (came_back (omega arith))) (λ e. rw e (kill_group-Kills w v same)))
