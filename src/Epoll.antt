-- ===== src/Epoll.antt =====
-- src/event_handlers/epoll.c: the wrapper of `epoll_wait`. The caller's array of events is a list.
pub mod Compact
pub mod Returned
pub mod Application
pub mod Kept
pub mod Result
pub mod Reported
pub mod Registered
pub mod Unlisted
use sve.Base.{
  ℕ, zero, suc, ◌+◌, ◌*◌, ◌-◌, ◌/◌, ◌%◌, ◌^◌, Bool, true, false, ◌&&◌, not, List, [], ◌∷◌, eqb,
  if◌then◌else◌, ℤ, pos, minus_one, ◌==◌, is_positive, is_negative, pos_part,
}
use sve.State.{DsuSocket, internal_fd, fd_list_has, socket_add_fds, socket_remove_fds}
use sve.Kernel.{
  Kernel, Call, dontwait, EpollEvent, EpollMask, epollin, epollin_exclusive, Prog, pure, ended,
  out_of_fuel, ◌>>=◌, ◌>>◌, get, put, sys,
}
use sve.Core.Workers.{activate_process, terminate_if_done}
use sve.Forall.{forall_binds}
use sve.Messages.{
  Answer, hang_up, ignore, mark_ready, send_fds, answer_to, send_ready, send_both, tell_ready,
}
use Compact.{data_fd, clear_fd, correct_events}

-- What an event is to one node, by the tests of the loop in their order.
pub data Kind : Type 0 where
  skipped : Kind
  request : Kind
  woken : Kind
  ready_signal : Kind
  message : Kind
  foreign : Kind

unfoldable pub kind_of : DsuSocket → ℤ → EpollEvent → Kind
unfolding fd_list_has
kind_of dsu_sockfd wakeup e =
    let fd = data_fd e in
    if eqb e.events 0
    then skipped
    else if fd == dsu_sockfd.comfd && not dsu_sockfd.ready
    then request
    else if fd == wakeup
    then woken
    else if fd == dsu_sockfd.readyfd
    then ready_signal
    else if fd_list_has dsu_sockfd.comfds fd
    then message
    else foreign

-- The calls of `dsu_epoll_internal_conn` for the connections of a node.
unfoldable pub add_comfds : ℤ → List ℤ → List Call
add_comfds epollfd [] = []
add_comfds epollfd (fd ∷ comfds) = Call.epoll_add epollfd fd epollin fd ∷ add_comfds epollfd comfds

unfoldable pub internal_calls : ℤ → ℤ → DsuSocket → List Call
unfolding add_comfds
internal_calls epollfd wakeup dsu_sockfd =
    let comfds = add_comfds epollfd dsu_sockfd.comfds in
    Call.epoll_add epollfd wakeup epollin wakeup
    ∷ (if dsu_sockfd.ready
        then Call.epoll_del epollfd dsu_sockfd.comfd
          ∷ Call.epoll_del epollfd dsu_sockfd.readyfd
          ∷ Call.epoll_del epollfd dsu_sockfd.fd
          ∷ comfds
        else Call.epoll_add epollfd dsu_sockfd.comfd epollin_exclusive dsu_sockfd.comfd
          ∷ Call.epoll_add epollfd dsu_sockfd.readyfd epollin dsu_sockfd.readyfd
          ∷ comfds)

unfoldable pub del_all : ℤ → List ℤ → List Call
del_all epollfd [] = []
del_all epollfd (fd ∷ comfds) = Call.epoll_del epollfd fd ∷ del_all epollfd comfds

-- The calls of `dsu_remove_internal`.
unfoldable pub remove_calls : ℤ → DsuSocket → List Call
unfolding del_all
remove_calls epollfd dsu_sockfd =
    Call.epoll_del epollfd dsu_sockfd.comfd ∷ del_all epollfd dsu_sockfd.comfds

module _ (k : Kernel) where
  -- Calls whose results the source ignores.
  unfoldable pub sys_all : List Call → Prog (Unit {0})
  sys_all [] = pure tt
  sys_all (call ∷ calls) = do r ← sys k call; sys_all calls

  unfoldable pub epoll_create1 : ℤ → Prog ℤ
  epoll_create1 flags = do r ← sys k (Call.epoll_create1 flags); pure r.value

  unfoldable pub epoll_create : ℤ → Prog ℤ
  epoll_create size = do r ← sys k (Call.epoll_create size); pure r.value

  unfoldable pub epoll_internal_conn : ℤ → DsuSocket → Unit {0} → Prog (DsuSocket × Unit {0})
  epoll_internal_conn epollfd dsu_sockfd _ = do
    w ← get
    sys_all (internal_calls epollfd w.wakeup dsu_sockfd)
    pure (dsu_sockfd, tt)

  unfoldable pub pre_epoll : ℤ → Prog (Unit {0})
  pre_epoll epollfd = forall_binds (epoll_internal_conn epollfd) tt

  unfoldable pub remove_internal : ℤ → DsuSocket → Unit {0} → Prog (DsuSocket × Unit {0})
  remove_internal epollfd dsu_sockfd _ = do
    sys_all (remove_calls epollfd dsu_sockfd)
    pure (dsu_sockfd, tt)

  -- What is done about a message on the connection `fd`.
  unfoldable pub serve_epoll : ℤ → ℤ → Answer → DsuSocket → Prog DsuSocket
  serve_epoll epollfd fd hang_up dsu_sockfd = do
    closed ← sys k (Call.close fd)
    deleted ← sys k (Call.epoll_del epollfd fd)
    pure (socket_remove_fds dsu_sockfd fd internal_fd)
  serve_epoll epollfd fd ignore dsu_sockfd = pure dsu_sockfd
  serve_epoll epollfd fd mark_ready dsu_sockfd = do
    send_ready k dsu_sockfd
    closed ← sys k (Call.close fd)
    deleted ← sys k (Call.epoll_del epollfd fd)
    pure (socket_remove_fds dsu_sockfd fd internal_fd)
  serve_epoll epollfd fd (send_fds port) dsu_sockfd = do
    send_both k dsu_sockfd fd port
    pure dsu_sockfd

  -- One round of the loop of `dsu_handle_conn_epoll`. An event of the library's own is marked by -1
  -- in its file descriptor.
  unfoldable pub handle_kind : ℤ → Kind → DsuSocket → EpollEvent → Prog (DsuSocket × EpollEvent)
  handle_kind epollfd skipped dsu_sockfd e = pure (dsu_sockfd, e)
  handle_kind epollfd request dsu_sockfd e = do
    acc ← sys k (Call.accept4_nonblock dsu_sockfd.comfd)
    let node =
        if acc.value == minus_one
        then dsu_sockfd
        else socket_add_fds (record dsu_sockfd { comfd_addr = acc.peer }) acc.value internal_fd
    pure (node, clear_fd e)
  handle_kind epollfd woken dsu_sockfd e = do
    w ← get
    r ← sys k (Call.recv w.wakeup 1 dontwait)
    pure (dsu_sockfd, clear_fd e)
  handle_kind epollfd ready_signal dsu_sockfd e = do
    deleted ← sys k (Call.epoll_del epollfd dsu_sockfd.readyfd)
    pure (record dsu_sockfd { ready = true }, clear_fd e)
  handle_kind epollfd message dsu_sockfd e = do
    r ← sys k (Call.recv (data_fd e) 4 dontwait)
    w ← get
    node ← serve_epoll epollfd (data_fd e) (answer_to r w.errno dsu_sockfd.port) dsu_sockfd
    pure (node, clear_fd e)
  handle_kind epollfd foreign dsu_sockfd e = pure (dsu_sockfd, e)

  unfoldable pub handle_event : ℤ → DsuSocket → EpollEvent → Prog (DsuSocket × EpollEvent)
  handle_event epollfd dsu_sockfd e = do
    w ← get
    handle_kind epollfd (kind_of dsu_sockfd w.wakeup e) dsu_sockfd e

  -- The rounds of the loop on the first events.
  unfoldable pub handle_events :
      ℤ → ℕ → DsuSocket → List EpollEvent → Prog (DsuSocket × List EpollEvent)
  handle_events epollfd zero dsu_sockfd events = pure (dsu_sockfd, events)
  handle_events epollfd (suc n) dsu_sockfd [] = pure (dsu_sockfd, [])
  handle_events epollfd (suc n) dsu_sockfd (e ∷ events) = do
    (node, e') ← handle_event epollfd dsu_sockfd e
    (node', events') ← handle_events epollfd n node events
    pure (node', e' ∷ events')

  unfoldable pub handle_conn_epoll :
      ℤ → ℤ → DsuSocket → List EpollEvent → Prog (DsuSocket × List EpollEvent)
  handle_conn_epoll epollfd nfds dsu_sockfd events = do
    node ← if is_positive dsu_sockfd.comfd_close then tell_ready k dsu_sockfd else pure dsu_sockfd
    handle_events epollfd (pos_part nfds) node events

  -- The number of events that are left, and the array.
  unfoldable pub post_epoll : ℤ → ℤ → List EpollEvent → Prog (ℤ × List EpollEvent)
  post_epoll epollfd nfds events = do
    events' ← forall_binds (handle_conn_epoll epollfd nfds) events
    w ← get
    deleted ← sys k (Call.epoll_del epollfd w.wakeup)
    done ← forall_binds (remove_internal epollfd) tt
    pure (correct_events nfds events')

  unfoldable pub go_live_epoll : Prog (Unit {0})
  go_live_epoll = do
    w ← get
    if w.live_epoll then pure tt else do
      active ← activate_process k
      w' ← get
      put (if active then record w' { live_epoll = true } else w')

  -- `fuel` bounds the restarts.
  unfoldable pub epoll_wait : ℕ → ℤ → ℤ → ℤ → Prog (ℤ × List EpollEvent)
  epoll_wait zero epfd maxevents timeout = ended out_of_fuel
  epoll_wait (suc fuel) epfd maxevents timeout = do
    go_live_epoll
    terminate_if_done k
    pre_epoll epfd
    r ← sys k (Call.epoll_wait epfd maxevents timeout)
    (nfds, events) ← post_epoll epfd r.value r.ready_events
    let again = epoll_wait fuel epfd maxevents timeout
    if nfds == pos 0 && is_negative timeout then again else pure (nfds, events)
