-- ===== src/Communication/RoundTrip.antt =====
-- What one version writes, the other reads.
use sve.Base.{
  ℕ, ◌/◌, ◌%◌, ◌^◌, ◌<◌, ◌≡◌, ap, ◌∙◌, true, Option, none, some, [], ◌∷◌, arith, ℤ, pos, negsuc,
  is_positive,
}
use sve.Kernel.{Kernel, Call, Cmsg, Msghdr, Reply, World}
use sve.Kernel.Runs
use sve.Kernel.Runs.{Returns, returns, Called, Quiet, sys-Returns}
use sve.Communication.{
  word32, int32, htonl, from_network, ntohl, fd_message, read_control, read_reply, read_fd, cmsg_fd,
}

-- A value of a 32-bit `int`.
abbrev pub IsInt32 : ℤ → Type 0
IsInt32 (pos n) = n < 2 ^ 31
IsInt32 (negsuc n) = n < 2 ^ 31

pub word32-bound : (n : ℤ) → IsInt32 n → word32 n < 2 ^ 32
unfolding word32
word32-bound (pos n) h = omega arith
word32-bound (negsuc n) h = omega arith

pub int32-word32 : (n : ℤ) → IsInt32 n → int32 (word32 n) ≡ n
unfolding int32 word32
int32-word32 (pos n) h = ground arith
int32-word32 (negsuc n) h = ground arith

-- The four bytes of a number below 2 ^ 32, read back.
network_bytes :
    (w : ℕ)
    → w < 2 ^ 32
    → from_network 0 ((w / 2 ^ 24) ∷ (w / 2 ^ 16 % 2 ^ 8) ∷ (w / 2 ^ 8 % 2 ^ 8) ∷ (w % 2 ^ 8) ∷ [])
      ≡ w
unfolding from_network
network_bytes w h = omega arith

pub ntohl-htonl : (port : ℤ) → IsInt32 port → ntohl (htonl port) ≡ port
unfolding ntohl htonl
ntohl-htonl port h =
    ap int32 (network_bytes (word32 port) (word32-bound port h)) ∙ int32-word32 port h

-- What the system makes of a message with a descriptor: the receiver gets a descriptor of its own for
-- the same file.
abbrev pub delivered : Option Cmsg → ℤ → Option Cmsg
delivered none fd = none
delivered (some c) fd = some (record c { cmsg_data = fd })

pub record Delivers (r : Reply) (m : Msghdr) (fd : ℤ) : Type 0 where
  pub returns : r.returns ≡ true
  pub value : is_positive r.value ≡ true
  pub iov : r.message.iov ≡ m.iov
  pub control : r.message.control ≡ delivered m.control fd

-- `dsu_read_fd` on a message that `dsu_write_fd` sent for `sendfd` and `port`, and that the system
-- delivers with the descriptor `received`, returns the system's result and leaves `received` and `port`
-- in the caller's variables, whatever was in them, for every port that is a 32-bit int, negative ones
-- included.
pub read_fd-fd_message :
    (k : Kernel) (w : World) (fd sendfd received port old_fd old_port : ℤ)
    → IsInt32 port
    → Delivers (k w.log (Call.recvmsg fd)) (fd_message sendfd port) received
    → Returns
        (λ result v. (result ≡ ((k w.log (Call.recvmsg fd)).value, received, port)) × Quiet w v)
        (read_fd k fd old_fd old_port w)
unfolding read_fd fd_message read_reply read_control cmsg_fd
read_fd-fd_message k w fd sendfd received port old_fd old_port range d =
    Runs.bind (sys-Returns k (Call.recvmsg fd) w d.returns) λ r v called.
      returns (rw (called.reply, d.value, d.control, d.iov, ntohl-htonl port range), called.quiet)
