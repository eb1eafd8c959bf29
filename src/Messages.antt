-- ===== src/Messages.antt =====
-- The treatment of one message on an internal connection, which src/event_handlers/select.c and
-- src/event_handlers/epoll.c share: what `recv` left in `buffer`, and the two answers.
pub mod Quiet
pub mod Kept
pub mod Foreign
pub mod Requests
use sve.Base.{
  ℕ, ◌+◌, ◌*◌, ◌^◌, Bool, true, false, List, [], ◌∷◌, if◌then◌else◌, ℤ, pos, minus_one, ◌==◌,
}
use sve.State.{DsuSocket}
use sve.Kernel.{
  Kernel, Call, Payload, bytes, pointer_bytes, confirm, Errno, eaddrinuse, eagain, ebadf,
  other_errno, Reply, Prog, pure, ◌>>=◌, sys,
}
use sve.Communication.{int32, write_fd}
use sve.Core.Handover.{int_bytes}

from_memory : List ℕ → ℕ
from_memory [] = 0
from_memory (b ∷ bs) = b + from_memory bs * 2 ^ 8

-- `int buffer = 0` after `recv` has written what it received over its first bytes.
unfoldable pub buffer_int : List ℕ → ℤ
unfolding int32 from_memory
buffer_int received = int32 (from_memory received)

-- EAGAIN and EWOULDBLOCK are one number.
unfoldable pub is_eagain : Errno → Bool
is_eagain eagain = true
is_eagain eaddrinuse = false
is_eagain ebadf = false
is_eagain (other_errno _) = false

-- What is done about a connection on which something arrived.
pub data Answer : Type 0 where
  hang_up : Answer
  ignore : Answer
  mark_ready : Answer
  send_fds : ℤ → Answer

-- The tests on `r`, `errno` and `buffer`, in the order of the source. `port` is the socket's.
unfoldable pub answer_to : Reply → Errno → ℤ → Answer
unfolding buffer_int is_eagain
answer_to r errno port =
    if r.value == pos 0
    then hang_up
    else if r.value == minus_one
    then if is_eagain errno then ignore else send_fds minus_one
    else if buffer_int r.received == pos 1
    then mark_ready
    else send_fds port

-- `send(markreadyfd, &buf, 5, MSG_CONFIRM)` with `const char *buf = "ready"`: the first five bytes of
-- the pointer, not of the text.
unfoldable pub ready_payload : Payload
ready_payload = pointer_bytes 5

module _ (k : Kernel) where
  unfoldable pub send_ready : DsuSocket → Prog (Unit {0})
  send_ready dsu_sockfd = do
    sent ← sys k (Call.send dsu_sockfd.markreadyfd ready_payload confirm)
    pure tt

  -- Both descriptors, the listening socket's first.
  unfoldable pub send_both : DsuSocket → ℤ → ℤ → Prog (Unit {0})
  send_both dsu_sockfd fd port = do
    first ← write_fd k fd dsu_sockfd.fd port
    second ← write_fd k fd dsu_sockfd.comfd port
    pure tt

  -- The signal to the older version that the port is served here: the number 1.
  unfoldable pub tell_ready : DsuSocket → Prog DsuSocket
  tell_ready dsu_sockfd = do
    sent ← sys k (Call.send dsu_sockfd.comfd_close (bytes (int_bytes (pos 1))) confirm)
    closed ←
        if sent.value == minus_one then pure sent else sys k (Call.close dsu_sockfd.comfd_close)
    pure (record dsu_sockfd { comfd_close = minus_one })
