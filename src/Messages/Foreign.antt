-- ===== src/Messages/Foreign.antt =====
-- Descriptors for which the library has no use: those of the application.
use sve.Base.{◌≡◌, Bool, true, false, arith, List, if◌then◌else◌, ℤ, ◌==◌}
use sve.State.{DsuSocket, SockaddrUn, internal_fd, fd_list_has, socket_add_fds, socket_remove_fds}
use sve.State.Lists.{All, has-add, has-remove}
use sve.Kernel.{Kernel, Call, Log}

-- The descriptor is none of the node's own.
pub record Foreign (x : ℤ) (s : DsuSocket) : Type 0 where
  pub comfd : (x == s.comfd) ≡ false
  pub readyfd : (x == s.readyfd) ≡ false
  pub comfds : fd_list_has s.comfds x ≡ false

-- Every node is foreign to the descriptor.
abbrev pub Foreigns : ℤ → List DsuSocket → Type 0
Foreigns x = All (Foreign x)

-- A system that does not give out a descriptor that is in use.
abbrev pub NeverAccepts : Kernel → ℤ → Type 0
NeverAccepts k x = (log : Log) (fd : ℤ) → ((k log (Call.accept4_nonblock fd)).value == x) ≡ false

add-Foreign :
    {x : ℤ} {s : DsuSocket} (fd : ℤ)
    → (fd == x) ≡ false
    → Foreign x s
    → Foreign x (socket_add_fds s fd internal_fd)
unfolding socket_add_fds
add-Foreign {x} {s} fd ne f = record {
  comfd = f.comfd;
  readyfd = f.readyfd;
  comfds = ground (arith, has-add s.comfds fd x, ne, f.comfds);
}

pub accept-Foreign :
    {x : ℤ} (b : Bool) (s : DsuSocket) (fd : ℤ) (peer : SockaddrUn)
    → (fd == x) ≡ false
    → Foreign x s
    → Foreign x (if b then s else socket_add_fds (record s { comfd_addr = peer }) fd internal_fd)
accept-Foreign true s fd peer ne f = f
accept-Foreign false s fd peer ne f =
    add-Foreign fd ne (record { comfd = f.comfd; readyfd = f.readyfd; comfds = f.comfds })

pub remove-Foreign :
    {x : ℤ} {s : DsuSocket} (fd : ℤ) → Foreign x s → Foreign x (socket_remove_fds s fd internal_fd)
unfolding socket_remove_fds
remove-Foreign {x} {s} fd f = record {
  comfd = f.comfd;
  readyfd = f.readyfd;
  comfds = ground (arith, has-remove s.comfds fd x, f.comfds);
}
