-- ===== src/Examples/Kernels.antt =====
-- Concrete systems and worlds.
use sve.Base.{
  ℕ, suc, ◌-◌, ◌≡◌, refl, true, false, none, [], ◌∷◌, arith, ltb, if◌then◌else◌, ℤ, pos, minus_one,
  ◌==◌, ==_iff, is_positive,
}
use sve.State.{SockaddrUn, DsuSocket}
use sve.Kernel.{
  Kernel, Log, Call, Reply, World, eagain, ebadf, FdSets, confirm, dontwait, SockOption, so_type,
  so_acceptconn, so_domain, so_error,
}
use sve.Kernel.Runs.{Responsive}
use sve.Kernel.Queue.{pending, IsQueue}

abbrev pub no_addr : SockaddrUn
no_addr = record { sun_family = 0; sun_path = [] }

abbrev pub no_sets : FdSets
no_sets = record { read_set = none; write_set = none; except_set = none }

abbrev pub reply : ℤ → Reply
reply value = record {
  value = value;
  errno = eagain;
  returns = true;
  received = [];
  option_value = pos 0;
  pair = (pos 0, pos 0);
  peer = no_addr;
  message = record { iov = []; control = none };
  sets = no_sets;
  ready_events = [];
}

-- The messages between a sender and a receiver, where every `send` succeeds.
abbrev pub queued : ℤ → ℤ → Log → ℕ
queued s r [] = 0
queued s r (Call.send fd message confirm ∷ log) =
    if fd == s then suc (queued s r log) else queued s r log
queued s r (Call.recv fd len dontwait ∷ log) =
    if fd == r then queued s r log - 1 else queued s r log
queued s r (call ∷ log) = queued s r log

-- Descriptors 12 and 11 are a pair, and any other receiver's sender is 10.
abbrev sender_of : ℤ → ℤ
sender_of fd = if fd == pos 12 then pos 11 else pos 10

-- A stream socket of the internet domain that does not listen.
abbrev option_of : SockOption → ℤ
option_of so_type = pos 1
option_of so_acceptconn = pos 0
option_of so_domain = pos 2
option_of so_error = pos 0

-- A system of two queues, where every call succeeds and a new connection is descriptor 7.
abbrev pub calm : Kernel
calm log (Call.recv fd len flags) =
    reply (if ltb 0 (queued (sender_of fd) fd log) then pos 1 else minus_one)
calm log (Call.send fd message flags) = reply (pos 1)
calm log (Call.accept4 fd flags) = reply (pos 7)
calm log (Call.accept fd) = reply (pos 7)
calm log (Call.accept4_nonblock fd) = reply (pos 8)
calm log (Call.getsockopt fd option) = record (reply (pos 0)) { option_value = option_of option }
calm log call = reply (pos 0)

pub calm-Answers : (log : Log) (call : Call) → (calm log call).returns ≡ true
calm-Answers log (Call.recv fd len flags) = refl
calm-Answers log call = refl

pub calm-Responsive : Responsive calm
calm-Responsive log call e = calm-Answers log call

pending-queued : (s r : ℤ) (log : Log) → sender_of r ≡ s → pending calm s r log ≡ queued s r log
unfolding pending
pending-queued s r [] e = refl
pending-queued s r (Call.send fd message confirm ∷ log) e = ground (arith, pending-queued s r log e)
pending-queued s r (Call.recv fd len dontwait ∷ log) e =
    ground (arith, pending-queued s r log e, ==_iff fd r)
pending-queued s r (call ∷ log) e = pending-queued s r log e

-- A receive gets a message exactly when one is queued.
received : (n : ℕ) → is_positive (if ltb 0 n then pos 1 else minus_one) ≡ ltb 0 n
received n = ground arith

calm-IsQueue : (s r : ℤ) → sender_of r ≡ s → IsQueue calm s r
calm-IsQueue s r e = record {
  take = λ log len. rw (pending-queued s r log e, e) (received (queued s r log));
  peek = λ log len. rw (pending-queued s r log e, e) (received (queued s r log));
}

pub calm-workers : IsQueue calm (pos 11) (pos 12)
unfolding ◌==◌
calm-workers = calm-IsQueue (pos 11) (pos 12) refl

pub calm-clients : IsQueue calm (pos 10) (pos 9)
unfolding ◌==◌
calm-clients = calm-IsQueue (pos 10) (pos 9) refl

abbrev pub comm_socket : DsuSocket
comm_socket = record {
  fd = pos 3;
  port = pos 80;
  fds = [];
  comfd_addr = no_addr;
  comfds = pos 6 ∷ [];
  comfd = pos 4;
  comfd_close = minus_one;
  readyfd = pos 13;
  markreadyfd = pos 14;
  ready = false;
}

-- One bound port with one connection of another version.
abbrev pub running : World
running = record {
  sockets = [];
  binds = comm_socket ∷ [];
  close = pos 9;
  accept = pos 10;
  ping = pos 15;
  wakeup = pos 16;
  activate = pos 11;
  deactivate = pos 12;
  correction = 0;
  max_fds = pos 0;
  live = false;
  live_epoll = false;
  errno = ebadf;
  log = [];
}
