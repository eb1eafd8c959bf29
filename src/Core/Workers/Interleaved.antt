-- ===== src/Core/Workers/Interleaved.antt =====
-- The workers of a group, one system call at a time and in any order: dsu_activate_process,
-- dsu_terminate and dsu_change_number_of_workers of src/core.c as moves of one worker among others
-- that share the queue.
pub mod Tally
pub mod Invariant
pub mod Last
pub mod Moved
pub mod Settle
pub mod Race
pub mod Solo
use sve.Base.{ℕ, ◌<◌, ◌≡◌, Bool, true, false, List, [], ◌∷◌, if◌then◌else◌, ℤ, is_positive}
use sve.Kernel.{Kernel, Call, Log, bytes, confirm, dontwait, dontwait_peek}
use sve.Kernel.Queue.{advance}
use sve.Core.Workers.Termination.{kills}
use sve.Core.Workers.Interleaved.Tally.{update}

-- Where a worker stands: before the call that the comment names.
pub data Pc : Type 0 where
  starting : Pc  -- `send` on `activate`
  sent : Pc  -- the peek of dsu_activate_process
  active : Pc  -- the `recv` of dsu_terminate
  taken : Pc  -- the peek of dsu_terminate
  alone : Pc  -- `killpg`
  pinging : (killed : Bool) → Pc  -- `send` on `ping`
  waiting : (killed : Bool) → Pc  -- `sigwait`

-- The descriptors of the group, inherited by `fork`.
pub record Sockets : Type 0 where
  pub ping : ℤ
  pub activate : ℤ
  pub deactivate : ℤ

abbrev pub next_call : Sockets → Pc → Call
next_call fds starting = Call.send fds.activate (bytes (b'a' ∷ [])) confirm
next_call fds sent = Call.recv fds.deactivate 1 dontwait_peek
next_call fds active = Call.recv fds.deactivate 1 dontwait
next_call fds taken = Call.recv fds.deactivate 1 dontwait_peek
next_call fds alone = Call.killpg
next_call fds (pinging _) = Call.send fds.ping (bytes (b'w' ∷ [])) confirm
next_call fds (waiting _) = Call.sigwait

-- A worker that is told that none is active tries again at its next `select` or `epoll_wait`. No
-- process can wait for SIGKILL, so a worker in `sigwait` stays there.
abbrev pub after : Pc → ℤ → Pc
after starting value = sent
after sent value = if is_positive value then active else starting
after active value = taken
after taken value = if is_positive value then pinging false else alone
after alone value = pinging true
after (pinging killed) value = waiting killed
after (waiting killed) value = waiting killed

-- One call of one worker, with the record of all calls before and behind.
pub data Move (k : Kernel) (fds : Sockets) (log : Log) (p : Pc) : Log → Pc → Type 0 where
  go :
      (k log (next_call fds p)).returns ≡ true
      → Move k fds log p (next_call fds p ∷ log) (after p (k log (next_call fds p)).value)

-- The workers with the indices below their number.
pub record Pool : Type 0 where
  pub log : Log
  pub pc : ℕ → Pc

-- Calls of anyone that neither touch the queue nor kill the group.
pub record IsApart (k : Kernel) (fds : Sockets) (log : Log) (call : Call) : Type 0 where
  pub untouched : (n : ℕ) → advance fds.activate fds.deactivate call (k log call).value n ≡ n
  pub spares : kills (call ∷ log) ≡ kills log

module _ (k : Kernel) (fds : Sockets) (n : ℕ) where
  pub data Step (s : Pool) : Pool → Type 0 where
    pick :
        (i : ℕ) {log : Log} {p : Pc}
        → i < n
        → Move k fds s.log (s.pc i) log p
        → Step s (record { log = log; pc = update s.pc i p })
    elsewhere : {call : Call} → IsApart k fds s.log call → Step s (record s { log = call ∷ s.log })

  -- Every worker begins in front of dsu_activate_process.
  pub data Reach : Pool → Type 0 where
    start : Reach (record { log = []; pc = λ _. starting })
    later : {s t : Pool} → Reach s → Step s t → Reach t
