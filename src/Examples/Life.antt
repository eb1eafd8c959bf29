-- ===== src/Examples/Life.antt =====
-- The theorems on the life of a process, at a concrete one.
use sve.Base.{◌≡◌, refl, false, some, [], ◌∷◌, pos, ◌==◌}
use sve.State.{
  DsuSocket, socket_list_init, sockets_add, sockets_search_fd, sockets_transfer_fd,
  sockets_remove_fd,
}
use sve.State.Evolves.{Evolved}
use sve.Kernel.{Kernel, Call, World, Run, ok, ended, SockaddrIn, other_errno, sys}
use sve.Core.Handover.{monitor_init, set_nonblock}
use sve.Core.Wrappers.{
  dsu_init, socketpair, socket, register, bind, bind_searched, bind_known, bind_monitored,
  bind_first, transfer, accept,
}
use sve.Core.Wrappers.Bind.{announced}
use sve.Life.{
  to_socket, to_bind, to_accept, perform, performs, Reaches, start, then_step, IsSound, Progress,
}
use sve.Life.Reached.{reached-IsSound, reached-Progress, search-reached}
use sve.Examples.Kernels.{calm, reply, no_addr}

-- The system of `calm`, where the first socket is descriptor 3, and a socket pair is 21 and 22.
abbrev lively : Kernel
lively log (Call.socket domain type protocol) = reply (pos 3)
lively log Call.unix_stream_socket = reply (pos 4)
lively log Call.socketpair = record (reply (pos 0)) { pair = (pos 21, pos 22) }
lively log call = calm log call

abbrev blank : DsuSocket
blank = record {
  fd = pos 0;
  port = pos 0;
  fds = [];
  comfd_addr = no_addr;
  comfds = [];
  comfd = pos 0;
  comfd_close = pos 0;
  readyfd = pos 0;
  markreadyfd = pos 0;
  ready = false;
}

-- The globals as the process begins.
abbrev cold : World
cold = record {
  sockets = [];
  binds = [];
  close = pos 0;
  accept = pos 0;
  ping = pos 0;
  wakeup = pos 0;
  activate = pos 0;
  deactivate = pos 0;
  correction = 0;
  max_fds = pos 0;
  live = false;
  live_epoll = false;
  errno = other_errno 0;
  log = [];
}

-- Port 80, in network byte order.
abbrev address : SockaddrIn
address = record { sin_family = 2; sin_port = 20480; sin_addr = 0 }

abbrev world_of : {A : Type 0} → Run A → World
world_of (ok a w) = w
world_of (ended e w) = w

abbrev started : World
started = world_of (dsu_init lively cold)

abbrev opened : World
opened = world_of (perform lively (to_socket blank (pos 2) (pos 1) (pos 0)) started)

abbrev bound : World
bound = world_of (perform lively (to_bind (pos 0) (pos 3) address) opened)

abbrev accepted : World
accepted = world_of (perform lively (to_accept (pos 3)) bound)

dsu_init_test : dsu_init lively cold ≡ ok tt started
unfolding dsu_init socketpair sys ◌==◌
dsu_init_test = refl

socket_test : perform lively (to_socket blank (pos 2) (pos 1) (pos 0)) started ≡ ok tt opened
unfolding perform socket sys
socket_test = refl

abbrev own : DsuSocket
own = record (socket_list_init blank) { fd = pos 3 }

opened_test : opened.sockets ≡ own ∷ []
unfolding perform dsu_init socketpair socket sys register sockets_add ◌==◌
opened_test = refl

bind_test : perform lively (to_bind (pos 0) (pos 3) address) opened ≡ ok tt bound
unfolding perform bind bind_searched bind_known bind_monitored bind_first transfer socketpair
    monitor_init set_nonblock sys dsu_init socket register sockets_add socket_list_init
    sockets_search_fd ◌==◌
bind_test = refl

accept_test : perform lively (to_accept (pos 3)) bound ≡ ok tt accepted
unfolding perform accept sys
accept_test = refl

lived : Reaches lively started accepted
lived =
    then_step (then_step (then_step start (performs _ socket_test)) (performs _ bind_test))
      (performs _ accept_test)

reached-IsSound_example : IsSound accepted
reached-IsSound_example = reached-IsSound lively cold started accepted refl dsu_init_test lived

reached-Progress_example : Progress started accepted
reached-Progress_example = reached-Progress lively started accepted lived

abbrev node : DsuSocket
node = announced own address (pos 4) (pos 21, pos 22)

found_test : sockets_search_fd bound.binds (pos 3) ≡ some node
unfolding perform bind bind_searched bind_known bind_monitored bind_first transfer socketpair
    monitor_init set_nonblock sys dsu_init socket register sockets_add socket_list_init
    sockets_search_fd sockets_transfer_fd sockets_remove_fd ◌==◌
found_test = refl

search-reached_example :
    (t : DsuSocket) × (sockets_search_fd accepted.binds (pos 3) ≡ some t) × Evolved node t
search-reached_example =
    search-reached lively bound accepted (pos 3) node (then_step start (performs _ accept_test))
      found_test
