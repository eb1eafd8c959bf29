-- ===== src/Kernel.antt =====
-- The operating system as src/core.c, src/communication.c and src/event_handlers see it, and the
-- state of the library. The system is no part of the repository: it is a parameter, a function from
-- the calls made so far and the next call to the reply, so any behaviour of it, and of the other
-- processes behind it, is one such function. Every system call is recorded, newest first.
pub mod Runs
pub mod Stuck
pub mod Frame
pub mod Queue
use sve.Base.{ℕ, Bool, Option, List, ◌∷◌, ◌==◌, if◌then◌else◌, ℤ, minus_one}
use sve.State.{SockaddrUn, DsuSocket}

-- struct sockaddr_in; `sin_port` is in network byte order.
pub record SockaddrIn : Type 0 where
  pub sin_family : ℕ
  pub sin_port : ℕ
  pub sin_addr : ℕ

pub data Sockaddr : Type 0 where
  sun : SockaddrUn → Sockaddr
  sin : SockaddrIn → Sockaddr

pub data MsgFlags : Type 0 where
  no_flags dontwait dontwait_peek confirm : MsgFlags
  other_flags : ℕ → MsgFlags

pub data SockOption : Type 0 where
  so_type so_acceptconn so_domain so_error : SockOption

pub data Errno : Type 0 where
  eaddrinuse eagain ebadf : Errno
  other_errno : ℕ → Errno

-- What a buffer holds: bytes, or the object representation of a pointer.
pub data Payload : Type 0 where
  bytes : List ℕ → Payload
  pointer_bytes : ℕ → Payload

pub data CmsgLevel : Type 0 where
  sol_socket other_level : CmsgLevel

pub data CmsgType : Type 0 where
  scm_rights other_type : CmsgType

-- A control message whose data is one int.
pub record Cmsg : Type 0 where
  pub cmsg_len : ℕ
  pub cmsg_level : CmsgLevel
  pub cmsg_type : CmsgType
  pub cmsg_data : ℤ

pub record Msghdr : Type 0 where
  pub iov : List ℕ
  pub control : Option Cmsg

-- fd_set
abbrev pub FdSet : Type 0
FdSet = ℤ → Bool

pub record FdSets : Type 0 where
  pub read_set : Option FdSet
  pub write_set : Option FdSet
  pub except_set : Option FdSet

pub data EpollOp : Type 0 where
  ctl_add ctl_del : EpollOp

-- struct epoll_event: the mask, and the 64 bits of the union `data`.
pub record EpollEvent : Type 0 where
  pub events : ℕ
  pub data_bits : ℕ

pub data EpollMask : Type 0 where
  epollin epollin_exclusive : EpollMask

pub data Call : Type 0 where
  socket : ℤ → ℤ → ℤ → Call
  bind : ℤ → Sockaddr → Call
  listen : ℤ → ℕ → Call
  accept : ℤ → Call
  accept4 : ℤ → ℤ → Call
  accept4_nonblock : ℤ → Call
  close : ℤ → Call
  connect : ℤ → Sockaddr → Call
  send : ℤ → Payload → MsgFlags → Call
  recv : ℤ → ℕ → MsgFlags → Call
  sendmsg : ℤ → Msghdr → Call
  recvmsg : ℤ → Call
  getsockopt : ℤ → SockOption → Call
  getfl : ℤ → Call
  setfl : ℤ → ℤ → Call
  dup2 : ℤ → ℤ → Call
  unix_stream_socket : Call
  socketpair : Call
  select : ℤ → FdSets → Option ℕ → Call
  epoll_create : ℤ → Call
  epoll_create1 : ℤ → Call
  epoll_wait : ℤ → ℤ → ℤ → Call
  epoll_add : ℤ → ℤ → EpollMask → ℤ → Call
  epoll_del : ℤ → ℤ → Call
  killpg : Call
  sigwait : Call
  signal : ℕ → Call
  sigaction : ℕ → Call
  exit_failure : Call
  system : List ℕ → Call
  perror : Call
  read : ℤ → ℕ → Call
  write : ℤ → Payload → Call
  recvfrom : ℤ → ℕ → MsgFlags → Call
  sendto : ℤ → Payload → MsgFlags → Sockaddr → Call
  recvmsg_with : ℤ → MsgFlags → Call
  sendmsg_with : ℤ → Msghdr → MsgFlags → Call
  fopen : List ℕ → Call
  fprintf : ℤ → List ℕ → Call
  fflush : ℤ → Call

abbrev pub Log : Type 0
Log = List Call

-- The value that a call returns, what `errno` becomes if that is -1, whether the call comes back at
-- all, and what it writes into the caller's memory. A call has no use for most of these.
pub record Reply : Type 0 where
  pub value : ℤ
  pub errno : Errno
  pub returns : Bool
  pub received : List ℕ
  pub option_value : ℤ
  pub pair : ℤ × ℤ
  pub peer : SockaddrUn
  pub message : Msghdr
  pub sets : FdSets
  pub ready_events : List EpollEvent

abbrev pub Kernel : Type 0
Kernel = Log → Call → Reply

-- The globals: struct dsu_state_struct, and those of select.c and epoll.c.
pub record World : Type 0 where
  pub sockets : List DsuSocket
  pub binds : List DsuSocket
  pub close : ℤ
  pub accept : ℤ
  pub ping : ℤ
  pub wakeup : ℤ
  pub activate : ℤ
  pub deactivate : ℤ
  pub correction : ℕ
  pub max_fds : ℤ
  pub live : Bool
  pub live_epoll : Bool
  pub errno : Errno
  pub log : Log

-- Why a call of the library does not come back: `exit`, the system (a signal that kills, a wait
-- that does not end), a bound on the rounds of a loop, or what the C language leaves undefined.
pub data End : Type 0 where
  exited blocked out_of_fuel crashed : End

pub data Run (A : Type 0) : Type 0 where
  ok : A → World → Run A
  ended : End → World → Run A

abbrev pub Prog : Type 0 → Type 0
Prog A = World → Run A

abbrev pub pure : {A : Type 0} → A → Prog A
pure = ok

module _ {A B : Type 0} where
  abbrev pub and_then : Run A → (A → Prog B) → Run B
  and_then (ok a w) f = f a w
  and_then (ended e w) f = ended e w

  infixl 5 ◌>>=◌ ◌>>◌
  abbrev pub ◌>>=◌ : Prog A → (A → Prog B) → Prog B
  m >>= f = λ w. and_then (m w) f

  abbrev pub ◌>>◌ : Prog A → Prog B → Prog B
  m >> n = m >>= λ _. n

abbrev pub get : Prog World
get w = ok w w

abbrev pub put : World → Prog (Unit {0})
put w _ = ok tt w

-- One system call.
unfoldable pub sys : Kernel → Call → Prog Reply
sys k call w =
    let r = k w.log call in
    let w' = record w {
      errno = if r.value == minus_one then r.errno else w.errno;
      log = call ∷ w.log;
    } in
    if r.returns then ok r w' else ended blocked w'
