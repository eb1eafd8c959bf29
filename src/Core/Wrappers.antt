-- ===== src/Core/Wrappers.antt =====
-- The constructor of src/core.c and the functions that it puts in place of the system's.
pub mod Accept
pub mod Clients
pub mod Monitor
pub mod Bind
use sve.Base.{
  ℕ, ◌+◌, ◌*◌, ◌/◌, ◌%◌, ◌^◌, Bool, true, false, ◌&&◌, Option, none, some, [], ◌∷◌, eqb,
  if◌then◌else◌, ℤ, pos, minus_one, ◌==◌, ◌+ℤ◌, is_positive, is_negative,
}
use sve.State.{
  DsuSocket, non_internal_fd, socket_list_init, sockets_add, sockets_transfer_fd, sockets_search_fd,
  sockets_update_fd, socket_add_fds,
}
use sve.Kernel.{
  Kernel, Call, sin, SockaddrIn, bytes, dontwait, confirm, SockOption, so_type, so_acceptconn,
  so_domain, Errno, eaddrinuse, eagain, ebadf, other_errno, Prog, World, pure, ended, exited, ◌>>=◌,
  ◌>>◌, get, put, sys,
}
use sve.Core.Handover.{comm_addr, monitor_init, inherit_fd}

-- Constants of the system: AF_INET, SOCK_STREAM, SIGTERM.
abbrev pub af_inet : ℤ
af_inet = pos 2

abbrev pub sock_stream : ℤ
sock_stream = pos 1

abbrev pub sigterm : ℕ
sigterm = 15

-- A 16-bit number read in the other byte order.
unfoldable pub ntohs : ℕ → ℕ
ntohs n = n % 2 ^ 8 * 2 ^ 8 + n / 2 ^ 8 % 2 ^ 8

unfoldable pub is_eaddrinuse : Errno → Bool
is_eaddrinuse eaddrinuse = true
is_eaddrinuse eagain = false
is_eaddrinuse ebadf = false
is_eaddrinuse (other_errno _) = false

-- Whether a closed socket was that of a client: the condition of `close`.
unfoldable pub is_client : ℤ → ℤ → ℤ → ℤ → Bool
is_client r type listen domain =
    r == pos 0 && (type == sock_stream && (domain == af_inet && listen == pos 0))

module _ (k : Kernel) where
  -- `exit(EXIT_FAILURE)`
  unfoldable pub exit_failure : {A : Type 0} → Prog A
  exit_failure w = ended exited (record w { log = Call.exit_failure ∷ w.log })

  -- `socketpair`, with its exit on failure.
  unfoldable pub socketpair : Prog (ℤ × ℤ)
  socketpair = do
    r ← sys k Call.socketpair
    if is_negative r.value then exit_failure else pure r.pair

  unfoldable pub dsu_init : Prog (Unit {0})
  dsu_init = do
    w ← get
    put (record w { sockets = []; binds = [] })
    (close, accept) ← socketpair
    w ← get
    put (record w { close = close; accept = accept })
    (ping, wakeup) ← socketpair
    w ← get
    put (record w { ping = ping; wakeup = wakeup })
    (activate, deactivate) ← socketpair
    w ← get
    put (record w { activate = activate; deactivate = deactivate })

  unfoldable pub signal : ℕ → Prog ℤ
  signal signum = do r ← sys k (Call.signal signum); pure r.value

  unfoldable pub sigaction : ℕ → Prog ℤ
  sigaction signum =
      if eqb signum sigterm
      then pure (pos 0)
      else do r ← sys k (Call.sigaction signum); pure r.value

  -- `uninit` is what the local `struct dsu_socket_list` holds before it is initialised.
  unfoldable pub register : DsuSocket → ℤ → World → World
  register uninit sockfd w = record w {
    sockets = sockets_add w.sockets (record (socket_list_init uninit) { fd = sockfd });
  }

  unfoldable pub socket : DsuSocket → ℤ → ℤ → ℤ → Prog ℤ
  socket uninit domain type protocol = do
    r ← sys k (Call.socket domain type protocol)
    w ← get
    put (if is_positive r.value then register uninit r.value w else w)
    pure r.value

  -- `dsu_sockets_transfer_fd` from the sockets to the binds.
  unfoldable pub transfer : DsuSocket → Prog (Unit {0})
  transfer dsu_socketfd = do
    w ← get
    let (binds, sockets) = sockets_transfer_fd w.binds w.sockets dsu_socketfd
    put (record w { binds = binds; sockets = sockets })

  -- No other version runs: the socket is bound by the system.
  unfoldable pub bind_first : ℤ → SockaddrIn → DsuSocket → Prog ℤ
  bind_first sockfd addr dsu_socketfd = do
    transfer dsu_socketfd
    r ← sys k (Call.bind sockfd (sin addr))
    pure r.value

  -- Behind `dsu_monitor_init`, which has returned `monitor`.
  unfoldable pub bind_monitored : ℤ → ℤ → SockaddrIn → DsuSocket → ℤ → Prog ℤ
  bind_monitored uninit sockfd addr dsu_socketfd monitor = do
    w ← get
    if monitor == minus_one && is_eaddrinuse w.errno
        then (do
          (port, inherited) ← inherit_fd k uninit dsu_socketfd
          if is_positive port
              then transfer inherited >> pure (pos 0)
              else bind_first sockfd addr inherited)
        else bind_first sockfd addr dsu_socketfd

  -- The socket is known, and `dsu_socketfd` is its node.
  unfoldable pub bind_known : ℤ → ℤ → SockaddrIn → DsuSocket → Prog ℤ
  bind_known uninit sockfd addr dsu_socketfd = do
    let port = ntohs addr.sin_port
    comm ← sys k Call.unix_stream_socket
    (readyfd, markreadyfd) ← socketpair
    let node = record dsu_socketfd {
      port = pos port;
      comfd_addr = comm_addr port;
      comfd = comm.value;
      readyfd = readyfd;
      markreadyfd = markreadyfd;
    }
    monitor ← monitor_init k node
    bind_monitored uninit sockfd addr node monitor

  unfoldable pub bind_searched : ℤ → ℤ → SockaddrIn → Option DsuSocket → Prog ℤ
  bind_searched uninit sockfd addr none = do
    w ← get
    put (record w { errno = ebadf })
    pure minus_one
  bind_searched uninit sockfd addr (some dsu_socketfd) = bind_known uninit sockfd addr dsu_socketfd

  -- The application's address is taken for a `struct sockaddr_in`, as in the source.
  unfoldable pub bind : ℤ → ℤ → SockaddrIn → Prog ℤ
  bind uninit sockfd addr = do
    w ← get
    bind_searched uninit sockfd addr (sockets_search_fd w.sockets sockfd)

  unfoldable pub accept : ℤ → Prog ℤ
  accept sockfd = do
    session ← sys k (Call.accept sockfd)
    w ← get
    put (
        if session.value == minus_one then w else record w {
          binds =
              sockets_update_fd w.binds sockfd
                λ dsu_sockfd. socket_add_fds dsu_sockfd session.value non_internal_fd;
        })
    pure session.value

  unfoldable pub accept4 : ℤ → ℤ → Prog ℤ
  accept4 sockfd flags = do
    w ← get
    acc ← sys k (Call.accept4 sockfd flags)
    if is_positive acc.value
        then (do sent ← sys k (Call.send w.accept (bytes (b'a' ∷ [])) confirm); pure acc.value)
        else pure acc.value

  -- An option's result and value: -1 stands in the variable when the call fails.
  unfoldable pub socket_option : ℤ → SockOption → Prog (ℤ × ℤ)
  socket_option sockfd option = do
    r ← sys k (Call.getsockopt sockfd option)
    pure (r.value, if r.value == pos 0 then r.option_value else minus_one)

  unfoldable pub close : ℤ → Prog ℤ
  close sockfd = do
    w ← get
    (r, type) ← socket_option sockfd so_type
    (r', listen) ← socket_option sockfd so_acceptconn
    (r'', domain) ← socket_option sockfd so_domain
    result ← sys k (Call.close sockfd)
    if result.value == pos 0 && is_client (r +ℤ r' +ℤ r'') type listen domain
        then (do taken ← sys k (Call.recv w.close 1 dontwait); pure result.value)
        else pure result.value
