-- ===== src/Life.antt =====
-- The life of a process: the constructor of src/core.c, and behind it the application's calls of the
-- functions that the library puts in place of the system's, in src/core.c and src/event_handlers, one
-- after another. What happens outside the library between two calls changes errno and the record of
-- the calls.
pub mod Growth
pub mod Calls
pub mod Reached
use sve.Base.{
  ℕ, ◌^◌, ◌<◌, ◌≡◌, true, false, Bool, Option, List, [], ◌∷◌, ℤ, pos, minus_one, is_positive,
}
use sve.State.{DsuSocket}
use sve.State.Lists.{All}
use sve.State.Evolves.{Evolved}
use sve.Kernel.{Kernel, World, Prog, SockaddrIn, FdSets, pure, ok, ◌>>=◌, ◌>>◌}
use sve.Kernel.Runs.{Quiet}
use sve.Kernel.Frame.{SameQueues}
use sve.Core.Wrappers.{socket, bind, accept, accept4, close, signal, sigaction}
use sve.Select.{select, pselect}
use sve.Epoll.{epoll_create, epoll_create1, epoll_wait}

-- A call of the application. `uninit` is what a variable holds that the wrapper does not initialise,
-- `fuel` bounds the restarts of a wait.
pub data Request : Type 0 where
  to_socket : (uninit : DsuSocket) (domain type protocol : ℤ) → Request
  to_bind : (uninit sockfd : ℤ) (addr : SockaddrIn) → Request
  to_accept : (sockfd : ℤ) → Request
  to_accept4 : (sockfd flags : ℤ) → Request
  to_close : (sockfd : ℤ) → Request
  to_signal : (signum : ℕ) → Request
  to_sigaction : (signum : ℕ) → Request
  to_select : (fuel : ℕ) (nfds : ℤ) (sets : FdSets) (timeout : Option ℕ) → Request
  to_pselect : (nfds : ℤ) → Request
  to_epoll_create : (size : ℤ) → Request
  to_epoll_create1 : (flags : ℤ) → Request
  to_epoll_wait : (fuel : ℕ) (epfd maxevents timeout : ℤ) → Request

abbrev forget : {A : Type 0} → Prog A → Prog (Unit {0})
forget m = m >> pure tt

-- The wrapper of a request. What it returns is the application's.
unfoldable pub perform : Kernel → Request → Prog (Unit {0})
perform k (to_socket uninit domain type protocol) = forget (socket k uninit domain type protocol)
perform k (to_bind uninit sockfd addr) = forget (bind k uninit sockfd addr)
perform k (to_accept sockfd) = forget (accept k sockfd)
perform k (to_accept4 sockfd flags) = forget (accept4 k sockfd flags)
perform k (to_close sockfd) = forget (close k sockfd)
perform k (to_signal signum) = forget (signal k signum)
perform k (to_sigaction signum) = forget (sigaction k signum)
perform k (to_select fuel nfds sets timeout) = forget (select k fuel nfds sets timeout)
perform k (to_pselect nfds) = forget (pselect k nfds)
perform k (to_epoll_create size) = forget (epoll_create k size)
perform k (to_epoll_create1 flags) = forget (epoll_create1 k flags)
perform k (to_epoll_wait fuel epfd maxevents timeout) =
    forget (epoll_wait k fuel epfd maxevents timeout)

-- From one world to the next.
pub data Step (k : Kernel) (w v : World) : Type 0 where
  performs : (request : Request) → perform k request w ≡ ok tt v → Step k w v
  outside : Quiet w v → Step k w v

pub data Reaches (k : Kernel) (w : World) : World → Type 0 where
  start : Reaches k w w
  then_step : {v u : World} → Reaches k w v → Step k v u → Reaches k w u

-- A socket that no port is bound to: nothing is known of it but its descriptor.
pub record Fresh (s : DsuSocket) : Type 0 where
  pub fd : is_positive s.fd ≡ true
  pub port : s.port ≡ pos 0
  pub fds : s.fds ≡ []
  pub comfds : s.comfds ≡ []
  pub comfd : s.comfd ≡ minus_one
  pub comfd_close : s.comfd_close ≡ minus_one
  pub ready : s.ready ≡ false

-- A socket that a port is bound to.
pub record HasPort (s : DsuSocket) : Type 0 where
  pub fd : is_positive s.fd ≡ true
  pub number : ℕ
  pub port : s.port ≡ pos number
  pub small : number < 2 ^ 16

-- The invariant of the globals between two calls.
pub record IsSound (w : World) : Type 0 where
  pub sockets : All Fresh w.sockets
  pub binds : All HasPort w.binds
  pub settled : w.correction ≡ 0

-- The nodes of a list live on, in their order, and others may have come behind them.
pub data Grown : List DsuSocket → List DsuSocket → Type 0 where
  added : (ys : List DsuSocket) → Grown [] ys
  next :
      {s t : DsuSocket} {xs ys : List DsuSocket}
      → Evolved s t
      → Grown xs ys
      → Grown (s ∷ xs) (t ∷ ys)

pub record Progress (w v : World) : Type 0 where
  pub binds : Grown w.binds v.binds
  pub queues : SameQueues w v
