-- ===== src/Select.antt =====
-- src/event_handlers/select.c: the wrapper of `select`. A `fd_set *` is an optional set, `none` for
-- NULL. The globals `correction` and `max_fds` are fields of the world.
pub mod Sets
pub mod Watched
pub mod Count
pub mod Handlers
pub mod Hidden
pub mod Result
pub mod Shown
pub mod Lively
pub mod Kept
pub mod Forked
pub mod Application
use sve.Base.{
  ℕ, zero, suc, ◌+◌, Bool, true, false, ◌&&◌, Option, none, some, List, [], ◌∷◌, if◌then◌else◌,
  is_none, ℤ, pos, minus_one, ◌==◌, ◌+ℤ◌, ◌-ℤ◌, ltb_ℤ, is_positive,
}
use sve.State.{DsuSocket, internal_fd, socket_add_fds, socket_remove_fds}
use sve.Kernel.{
  Kernel, Call, dontwait, FdSet, FdSets, Prog, pure, ended, out_of_fuel, ◌>>=◌, ◌>>◌, get, put, sys,
}
use sve.Core.Workers.{activate_process, terminate_if_done}
use sve.Forall.{forall_binds}
use sve.Messages.{
  Answer, hang_up, ignore, mark_ready, send_fds, answer_to, send_ready, send_both, tell_ready,
}

-- FD_SET, FD_CLR and FD_ISSET. The source tests for NULL before each.
unfoldable pub fd_set : ℤ → FdSet → FdSet
fd_set fd s n = if n == fd then true else s n

unfoldable pub fd_clr : ℤ → FdSet → FdSet
fd_clr fd s n = if n == fd then false else s n

unfoldable pub clr : ℤ → Option FdSet → Option FdSet
unfolding fd_clr
clr fd none = none
clr fd (some s) = some (fd_clr fd s)

unfoldable pub isset : ℤ → Option FdSet → Bool
isset fd none = false
isset fd (some s) = s fd

-- `if (max_fds < fd + 1) max_fds = fd + 1`
unfoldable pub raise_max : ℤ → ℤ → ℤ
raise_max fd max_fds = if ltb_ℤ max_fds (fd +ℤ pos 1) then fd +ℤ pos 1 else max_fds

-- FD_SET of one file descriptor, and the maximum that goes with it.
unfoldable pub watch : ℤ → FdSet × ℤ → FdSet × ℤ
unfolding fd_set raise_max
watch fd (readfds, max_fds) = (fd_set fd readfds, raise_max fd max_fds)

unfoldable pub watch_all : List ℤ → FdSet × ℤ → FdSet × ℤ
unfolding watch
watch_all [] s = s
watch_all (fd ∷ comfds) s = watch_all comfds (watch fd s)

-- `dsu_sniff_conn`, where `readfds` is not NULL.
unfoldable pub sniff : DsuSocket → FdSet × ℤ → FdSet × ℤ
unfolding watch_all
sniff dsu_sockfd s =
    watch_all dsu_sockfd.comfds
      (if dsu_sockfd.ready then s else watch dsu_sockfd.readyfd (watch dsu_sockfd.comfd s))

unfoldable pub sniff_all : List DsuSocket → FdSet × ℤ → FdSet × ℤ
unfolding sniff
sniff_all [] s = s
sniff_all (dsu_sockfd ∷ next) s = sniff_all next (sniff dsu_sockfd s)

-- `++correction`
unfoldable pub correct : Prog (Unit {0})
correct w = put (record w { correction = w.correction + 1 }) w

-- What the caller's set holds after the system's `select`; a NULL stays one.
over : Option FdSet → Option FdSet → Option FdSet
over none replied = none
over (some passed) none = some passed
over (some passed) (some replied) = some replied

unfoldable pub replied_sets : FdSets → FdSets → FdSets
unfolding over
replied_sets passed replied = record {
  read_set = over passed.read_set replied.read_set;
  write_set = over passed.write_set replied.write_set;
  except_set = over passed.except_set replied.except_set;
}

module _ (k : Kernel) where
  -- What `dsu_handle_conn` does with a message on `fd`, with `FD_CLR` and `++correction` behind it.
  unfoldable pub serve : ℤ → Answer → DsuSocket → Option FdSet → Prog (DsuSocket × Option FdSet)
  serve fd hang_up dsu_sockfd readfds = do
    closed ← sys k (Call.close fd)
    pure (socket_remove_fds dsu_sockfd fd internal_fd, clr fd readfds)
  serve fd ignore dsu_sockfd readfds = pure (dsu_sockfd, readfds)
  serve fd mark_ready dsu_sockfd readfds = do
    send_ready k dsu_sockfd
    closed ← sys k (Call.close fd)
    pure (socket_remove_fds dsu_sockfd fd internal_fd, readfds)
  serve fd (send_fds port) dsu_sockfd readfds = do
    send_both k dsu_sockfd fd port
    pure (dsu_sockfd, readfds)

  -- One round of the loop: the connection `fd` has something to read.
  unfoldable pub respond : ℤ → DsuSocket → Option FdSet → Prog (DsuSocket × Option FdSet)
  respond fd dsu_sockfd readfds = do
    correct
    r ← sys k (Call.recv fd 4 dontwait)
    w ← get
    serve fd (answer_to r w.errno dsu_sockfd.port) dsu_sockfd (clr fd readfds)

  -- The loop over `comfds`, by the list as it was when the loop began: a removal unlinks the node at
  -- hand or one before it, and the nodes behind stay as they were.
  unfoldable pub respond_all : List ℤ → DsuSocket → Option FdSet → Prog (DsuSocket × Option FdSet)
  respond_all [] dsu_sockfd readfds = pure (dsu_sockfd, readfds)
  respond_all (fd ∷ comfds) dsu_sockfd readfds = do
    (node, readfds') ←
        if isset fd readfds then respond fd dsu_sockfd readfds else pure (dsu_sockfd, readfds)
    respond_all comfds node readfds'

  -- The head of `dsu_handle_conn`: a request to connect. The system writes the peer's address over
  -- the node's own.
  unfoldable pub accept_internal : DsuSocket → Option FdSet → Prog (DsuSocket × Option FdSet)
  accept_internal dsu_sockfd readfds = do
    correct
    acc ← sys k (Call.accept4_nonblock dsu_sockfd.comfd)
    let node =
        if acc.value == minus_one
        then dsu_sockfd
        else socket_add_fds (record dsu_sockfd { comfd_addr = acc.peer }) acc.value internal_fd
    pure (node, clr dsu_sockfd.comfd readfds)

  unfoldable pub handle_conn : DsuSocket → Option FdSet → Prog (DsuSocket × Option FdSet)
  handle_conn dsu_sockfd readfds = do
    (node, readfds') ←
        if isset dsu_sockfd.comfd readfds
        then accept_internal dsu_sockfd readfds
        else pure (dsu_sockfd, readfds)
    respond_all node.comfds node readfds'

  -- The three parts of `dsu_post_select`.
  unfoldable pub take_ready : DsuSocket → Option FdSet → Prog (DsuSocket × Option FdSet)
  take_ready dsu_sockfd readfds =
      if isset dsu_sockfd.readyfd readfds
      then correct >> pure (record dsu_sockfd { ready = true }, clr dsu_sockfd.readyfd readfds)
      else pure (dsu_sockfd, readfds)

  unfoldable pub hide_public : DsuSocket → Option FdSet → Prog (DsuSocket × Option FdSet)
  hide_public dsu_sockfd readfds =
      if isset dsu_sockfd.fd readfds && dsu_sockfd.ready
      then correct >> pure (dsu_sockfd, clr dsu_sockfd.fd readfds)
      else pure (dsu_sockfd, readfds)

  unfoldable pub signal_ready : DsuSocket → Option FdSet → Prog (DsuSocket × Option FdSet)
  signal_ready dsu_sockfd readfds =
      if isset dsu_sockfd.fd readfds && is_positive dsu_sockfd.comfd_close
      then (do node ← tell_ready k dsu_sockfd; pure (node, readfds))
      else pure (dsu_sockfd, readfds)

  unfoldable pub post_select : DsuSocket → Option FdSet → Prog (DsuSocket × Option FdSet)
  post_select dsu_sockfd readfds = do
    (node, readfds') ← take_ready dsu_sockfd readfds
    (node', readfds'') ← hide_public node readfds'
    signal_ready node' readfds''

  -- `dsu_pre_select`, whose body is commented out.
  unfoldable pub pre_select : DsuSocket → Option FdSet → Prog (DsuSocket × Option FdSet)
  pre_select dsu_sockfd readfds = pure (dsu_sockfd, readfds)

  unfoldable pub pselect : ℤ → Prog ℤ
  pselect nfds = pure (pos 0)

  -- `dsu_sniff_conn` on every bind; with NULL it does nothing.
  unfoldable pub sniff_binds : Option FdSet → Prog (Option FdSet)
  sniff_binds none = pure none
  sniff_binds (some readfds) = do
    w ← get
    let (readfds', max_fds) = sniff_all w.binds (readfds, w.max_fds)
    put (record w { max_fds = max_fds })
    pure (some readfds')

  -- The first call of `select` marks the worker active.
  unfoldable pub go_live : Prog (Unit {0})
  go_live = do
    w ← get
    if w.live then pure tt else do
      active ← activate_process k
      w' ← get
      put (if active then record w' { live = true } else w')

  -- The part of `select` before the system's.
  unfoldable pub prepare : ℤ → Option FdSet → Prog (Option FdSet)
  prepare nfds readfds = do
    w ← get
    put (record w { max_fds = nfds })
    go_live
    terminate_if_done k
    readfds' ← forall_binds pre_select readfds
    sniff_binds readfds'

  -- `int _correction = correction; correction = 0;`
  unfoldable pub take_correction : Prog ℕ
  take_correction = do w ← get; put (record w { correction = 0 }); pure w.correction

  -- The part behind it: `result` is what the system's `select` returned.
  unfoldable pub finish : ℤ → FdSets → Prog (ℤ × FdSets)
  finish result sets = do
    readfds ← forall_binds handle_conn sets.read_set
    readfds' ← forall_binds post_select readfds
    count ← take_correction
    pure (result -ℤ pos count, record sets { read_set = readfds' })

  -- The result and the caller's sets; `timeout` is `none` for NULL. `fuel` bounds the restarts, each
  -- of which begins with the sets as they came.
  unfoldable pub select : ℕ → ℤ → FdSets → Option ℕ → Prog (ℤ × FdSets)
  select zero nfds sets timeout = ended out_of_fuel
  select (suc fuel) nfds sets timeout = do
    readfds ← prepare nfds sets.read_set
    w ← get
    let passed = record sets { read_set = readfds }
    r ← sys k (Call.select w.max_fds passed timeout)
    let replied = replied_sets passed r.sets
    if r.value == minus_one then pure (minus_one, replied) else do
      (result, sets') ← finish r.value replied
      let again = select fuel nfds sets none
      if result == pos 0 && is_none timeout then again else pure (result, sets')
