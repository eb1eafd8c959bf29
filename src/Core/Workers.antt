-- ===== src/Core/Workers.antt =====
-- The part of src/core.c that decides when a version ends: the termination test, the count of active
-- workers in the queue between `activate` and `deactivate`, and the end itself.
pub mod Count
pub mod Group
pub mod Termination
pub mod Kept
pub mod Decision
pub mod Interleaved
use sve.Base.{
  Bool, true, false, ◌||◌, not, List, [], ◌∷◌, if◌then◌else◌, ℤ, pos, minus_one, is_positive,
}
use sve.State.{DsuSocket}
use sve.Kernel.{
  Kernel, Call, bytes, dontwait, dontwait_peek, confirm, Prog, pure, ◌>>=◌, ◌>>◌, get, sys,
}

is_empty : List ℤ → Bool
is_empty [] = true
is_empty (_ ∷ _) = false

-- The loop of `dsu_termination_detection`.
unfoldable pub all_transferred : List DsuSocket → Bool
unfolding is_empty
all_transferred [] = true
all_transferred (current ∷ next) =
    if not current.ready || not (is_empty current.comfds) then false else all_transferred next

module _ (k : Kernel) where
  unfoldable pub termination_detection : Prog Bool
  termination_detection = do
    w ← get
    r ← sys k (Call.recv w.close 1 dontwait_peek)
    pure (if is_positive r.value then false else all_transferred w.binds)

  -- The message is the letter w.
  unfoldable pub send_ping : Prog (Unit {0})
  send_ping = do w ← get; sent ← sys k (Call.send w.ping (bytes (b'w' ∷ [])) confirm); pure tt

  -- Whether an active worker is left.
  unfoldable pub change_number_of_workers : ℤ → Prog Bool
  change_number_of_workers delta = do
    w ← get
    done ←
        if is_positive delta
        then sys k (Call.send w.activate (bytes (b'a' ∷ [])) confirm)
        else sys k (Call.recv w.deactivate 1 dontwait)
    r ← sys k (Call.recv w.deactivate 1 dontwait_peek)
    pure (is_positive r.value)

  unfoldable pub deactivate_process : Prog Bool
  deactivate_process = change_number_of_workers minus_one

  unfoldable pub activate_process : Prog Bool
  activate_process = change_number_of_workers (pos 1)

  -- `killpg` with SIGKILL at the own group.
  unfoldable pub kill_group : Prog (Unit {0})
  kill_group = do r ← sys k Call.killpg; pure tt

  unfoldable pub terminate : Prog (Unit {0})
  terminate = do
    workers ← deactivate_process
    if workers then pure tt else kill_group
    send_ping
    signalled ← sys k Call.sigwait
    pure tt

  -- The head of `select` and `epoll_wait`: a process that goes on is one that need not end.
  unfoldable pub terminate_if_done : Prog (Unit {0})
  terminate_if_done = do done ← termination_detection; if done then terminate else pure tt
