-- ===== src/Communication.antt =====
-- src/communication.c: a file descriptor and a port number in one message on a stream socket, in the
-- build with HAVE_MSGHDR_MSG_CONTROL (core.h). An `int` is 32 bits in two's complement.
pub mod RoundTrip
use sve.Base.{
  ℕ, ◌+◌, ◌-◌, ◌*◌, ◌/◌, ◌%◌, ◌^◌, Option, none, some, List, [], ◌∷◌, eqb, ltb, if◌then◌else◌, ℤ,
  pos, negsuc, minus_one, is_positive, is_negative,
}
use sve.Kernel.{
  Kernel, Call, Cmsg, CmsgLevel, CmsgType, sol_socket, other_level, scm_rights, other_type, Msghdr,
  Reply, so_error, Prog, pure, ◌>>=◌, sys,
}

-- The bit pattern of an int.
unfoldable pub word32 : ℤ → ℕ
word32 (pos n) = n % 2 ^ 32
word32 (negsuc n) = 2 ^ 32 - 1 - n % 2 ^ 32

unfoldable pub int32 : ℕ → ℤ
int32 w = if ltb w (2 ^ 31) then pos w else negsuc (2 ^ 32 - 1 - w)

-- The four bytes of `htonl(port)` in memory: most significant first.
unfoldable pub htonl : ℤ → List ℕ
unfolding word32
htonl port =
    let w = word32 port in
    (w / 2 ^ 24) ∷ (w / 2 ^ 16 % 2 ^ 8) ∷ (w / 2 ^ 8 % 2 ^ 8) ∷ (w % 2 ^ 8) ∷ []

from_network : ℕ → List ℕ → ℕ
from_network acc [] = acc
from_network acc (b ∷ bs) = from_network (acc * 2 ^ 8 + b) bs

unfoldable pub ntohl : List ℕ → ℤ
unfolding int32 from_network
ntohl nport = int32 (from_network 0 nport)

-- CMSG_LEN(sizeof(int)): the header of 16 bytes and an int.
abbrev pub cmsg_len_int : ℕ
cmsg_len_int = 20

-- What `dsu_write_fd` hands to `sendmsg`.
unfoldable pub fd_message : ℤ → ℤ → Msghdr
unfolding htonl
fd_message sendfd port = record {
  iov = htonl port;
  control = some (record {
    cmsg_len = cmsg_len_int;
    cmsg_level = sol_socket;
    cmsg_type = scm_rights;
    cmsg_data = sendfd;
  });
}

-- The file descriptor that a control message carries; `none` is the early `return -1`.
unfoldable pub cmsg_fd : CmsgLevel → CmsgType → ℤ → Option ℤ
cmsg_fd sol_socket scm_rights fd = some fd
cmsg_fd sol_socket other_type fd = none
cmsg_fd other_level _ fd = none

-- The part of `dsu_read_fd` behind `recvmsg`: the result, `*recvfd` and `*port`. `iov` is what the
-- buffer holds after the call.
unfoldable pub read_control : ℤ → Option Cmsg → ℤ → ℤ → ℤ × ℤ × ℤ
unfolding cmsg_fd
read_control n none port nport = (n, minus_one, nport)
read_control n (some c) port nport =
    if eqb c.cmsg_len cmsg_len_int
    then (elim (cmsg_fd c.cmsg_level c.cmsg_type c.cmsg_data) [
      | none ↦ (minus_one, minus_one, port)
      | some fd ↦ (n, fd, nport)
    ])
    else (n, minus_one, nport)

unfoldable pub read_reply : Reply → ℤ → ℤ → ℤ × ℤ × ℤ
unfolding read_control ntohl
read_reply r recvfd port =
    if is_positive r.value
    then read_control r.value r.message.control port (ntohl r.message.iov)
    else (r.value, recvfd, port)

module _ (k : Kernel) where
  unfoldable pub write_fd : ℤ → ℤ → ℤ → Prog ℤ
  write_fd fd sendfd port = do
    error ← sys k (Call.getsockopt sendfd so_error)
    if is_negative error.value
        then pure minus_one
        else do sent ← sys k (Call.sendmsg fd (fd_message sendfd port)); pure sent.value

  -- `recvfd` and `port` are what the caller's variables hold before the call.
  unfoldable pub read_fd : ℤ → ℤ → ℤ → Prog (ℤ × ℤ × ℤ)
  read_fd fd recvfd port = do r ← sys k (Call.recvmsg fd); pure (read_reply r recvfd port)
