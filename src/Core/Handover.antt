-- ===== src/Core/Handover.antt =====
-- The part of src/core.c by which a version takes over the listening socket of the one that runs:
-- the address on which versions meet, the attempt to listen there, and the inheritance.
pub mod Address
pub mod Inherit
pub mod Meeting
use Prim.Native.Nat.{bit_and, bit_or}
use sve.Base.{
  ℕ, zero, suc, ◌+◌, ◌-◌, ◌/◌, ◌%◌, ◌^◌, List, [], ◌∷◌, ◌++◌, if◌then◌else◌, ltb, take, replicate,
  ℤ, pos, negsuc, minus_one, ◌==◌, is_positive,
}
use sve.State.{SockaddrUn, DsuSocket}
use sve.Kernel.{Kernel, Call, sun, bytes, no_flags, Prog, pure, ◌>>=◌, ◌>>◌, sys}
use sve.Communication.{word32, read_fd}

-- The object representation of an int: four bytes, least significant first.
unfoldable pub int_bytes : ℤ → List ℕ
unfolding word32
int_bytes n =
    let w = word32 n in (w % 2 ^ 8) ∷ (w / 2 ^ 8 % 2 ^ 8) ∷ (w / 2 ^ 16 % 2 ^ 8) ∷ (w / 2 ^ 24) ∷ []

-- `%d` of a number below 10 ^ fuel.
unfoldable pub decimal : ℕ → ℕ → List ℕ
decimal zero n = []
decimal (suc fuel) n =
    let rest = decimal fuel (n / 10) in (if ltb n 10 then [] else rest) ++ (b'0' + n % 10) ∷ []

-- "dsu_com_" and ".unix" of the format "X%s_%d.unix"
abbrev pub comm_prefix : List ℕ
comm_prefix = b'd' ∷ b's' ∷ b'u' ∷ b'_' ∷ b'c' ∷ b'o' ∷ b'm' ∷ b'_' ∷ []

abbrev pub comm_suffix : List ℕ
comm_suffix = b'.' ∷ b'u' ∷ b'n' ∷ b'i' ∷ b'x' ∷ []

-- `sun_path` has 108 bytes, zeroed before the text is written; a port has at most five digits.
-- The first byte is made 0, for the abstract namespace.
unfoldable pub comm_path : ℕ → List ℕ
unfolding decimal
comm_path port = take 108 (0 ∷ comm_prefix ++ (decimal 5 port ++ (comm_suffix ++ replicate 108 0)))

-- AF_UNIX is 1.
unfoldable pub comm_addr : ℕ → SockaddrUn
unfolding comm_path
comm_addr port = record { sun_family = 1; sun_path = comm_path port }

-- `flags | O_NONBLOCK` (04000) on an int.
unfoldable pub or_nonblock : ℤ → ℤ
or_nonblock (pos flags) = pos (bit_or flags 0o4000)
or_nonblock (negsuc m) = negsuc (m - bit_and m 0o4000)

-- DSU_MAXNUMOFPROC
abbrev pub max_num_of_proc : ℕ
max_num_of_proc = 5

module _ (k : Kernel) where
  unfoldable pub set_nonblock : ℤ → Prog (Unit {0})
  set_nonblock fd = do
    flags ← sys k (Call.getfl fd)
    done ← sys k (Call.setfl fd (or_nonblock flags.value))
    pure tt

  unfoldable pub monitor_init : DsuSocket → Prog ℤ
  monitor_init dsu_sockfd = do
    bound ← sys k (Call.bind dsu_sockfd.comfd (sun dsu_sockfd.comfd_addr))
    if bound.value == pos 0
        then (do
          listening ← sys k (Call.listen dsu_sockfd.comfd max_num_of_proc)
          if listening.value == pos 0
              then set_nonblock dsu_sockfd.comfd >> pure (pos 0)
              else pure minus_one)
        else pure minus_one

  -- Both descriptors are here: put the listening socket in place of the own one.
  unfoldable pub adopt : DsuSocket → ℤ → ℤ → ℤ → Prog (ℤ × DsuSocket)
  adopt dsu_sockfd sockfd comfd port = do
    flags ← sys k (Call.getfl dsu_sockfd.fd)
    duplicated ← sys k (Call.dup2 sockfd dsu_sockfd.fd)
    if duplicated.value == minus_one
        then (do
          restored ← sys k (Call.setfl dsu_sockfd.fd flags.value)
          pure (minus_one, dsu_sockfd))
        else pure (port, record dsu_sockfd { comfd_close = dsu_sockfd.comfd; comfd = comfd })

  -- `uninit` is what the variable `_sockfd` holds, which is not initialised.
  unfoldable pub receive_fds : ℤ → DsuSocket → Prog (ℤ × DsuSocket)
  receive_fds uninit dsu_sockfd = do
    (first, sockfd, port) ← read_fd k dsu_sockfd.comfd uninit (pos 0)
    (second, comfd, port') ← read_fd k dsu_sockfd.comfd (pos 0) port
    if is_positive port' then adopt dsu_sockfd sockfd comfd port' else pure (port', dsu_sockfd)

  -- The result, and the node as it is left.
  unfoldable pub inherit_fd : ℤ → DsuSocket → Prog (ℤ × DsuSocket)
  inherit_fd uninit dsu_sockfd = do
    connected ← sys k (Call.connect dsu_sockfd.comfd (sun dsu_sockfd.comfd_addr))
    if connected.value == minus_one then pure (minus_one, dsu_sockfd) else do
      sent ← sys k (Call.send dsu_sockfd.comfd (bytes (int_bytes dsu_sockfd.port)) no_flags)
      if is_positive sent.value then receive_fds uninit dsu_sockfd else pure (minus_one, dsu_sockfd)
