-- ===== src/Core/Wrappers/Bind.antt =====
-- `bind` of src/core.c, on all of its branches.
use sve.Base.{
  arith, ◌≡◌, refl, ◌∙◌, ap, ◌&&◌, Bool, true, false, Option, none, some, [], ◌∷◌, ◌++◌,
  if◌then◌else◌, ℤ, pos, minus_one, ◌==◌, is_positive, is_negative,
}
use sve.State.{DsuSocket, sockets_transfer_fd, sockets_remove_fd, sockets_search_fd}
use sve.State.Lists.{sockets_add-append}
use sve.Kernel.{Kernel, Call, World, Log, SockaddrIn, sin, ebadf, pure, ◌>>◌, Run, ok, Errno}
use sve.Kernel.Runs
use sve.Kernel.Stuck.{Stuck, sys-Stuck, mono-Stuck, exits}
use sve.Kernel.Runs.{
  Ends, came_back, did_not, Quiet, Quiet-refl, Quiet-trans, Called, errno_behind, if_program-Ends,
}
use sve.Core.Handover.{comm_addr, inherit_fd}
use sve.Core.Wrappers.Monitor.{Monitored, monitor_log, in_use, monitor_init-Monitored, lasting}
use sve.Core.Handover.Inherit.{Adopted, Inherited, nothing, taken, inherit_fd-Inherited}
use sve.Core.Wrappers.{
  ntohs, is_eaddrinuse, exit_failure, socketpair, transfer, bind_first, bind_monitored, bind_known,
  bind_searched, bind,
}

-- The last call, behind those of `before`, was the system's `bind`, with the application's address, and
-- gave the result.
pub record SystemBound (k : Kernel) (sockfd : ℤ) (addr : SockaddrIn) (result : ℤ) (before : Log)
    (w : World) : Type 0 where
  pub logged : w.log ≡ Call.bind sockfd (sin addr) ∷ before
  pub replied : result ≡ (k before (Call.bind sockfd (sin addr))).value

-- dsu_inherit_fd has run, behind the calls of `log` and up to those of `after`, with this result.
pub record Tried (k : Kernel) (uninit : ℤ) (s : DsuSocket) (log : Log) (port : ℤ) (node : DsuSocket)
    (after : Log) : Type 0 where
  pub start : World
  pub end : World
  pub behind : start.log ≡ log
  pub ran : inherit_fd k uninit s start ≡ ok (port, node) end
  pub logged : end.log ≡ after

-- Where the socket comes from, by whether the rendezvous address was in use: another version, or the
-- system's `bind`, because the other version gave none or because there is none. `log` are the calls
-- made up to then.
pub data Origin (k : Kernel) (uninit sockfd : ℤ) (addr : SockaddrIn) (s node : DsuSocket)
    (log : Log) (w : World) : Bool → ℤ → Type 0 where
  inherited :
      {port : ℤ}
      → Tried k uninit s log port node w.log
      → is_positive port ≡ true
      → Adopted k s node w
      → Origin k uninit sockfd addr s node log w true (pos 0)
  refused :
      {port result : ℤ} {after : Log}
      → Tried k uninit s log port node after
      → is_positive port ≡ false
      → node ≡ s
      → SystemBound k sockfd addr result after w
      → Origin k uninit sockfd addr s node log w true result
  bound :
      {result : ℤ}
      → node ≡ s
      → SystemBound k sockfd addr result log w
      → Origin k uninit sockfd addr s node log w false result

-- The globals behind: the node has passed from the sockets to the end of the binds.
abbrev pub moved : World → DsuSocket → World
moved w node = record w {
  sockets = sockets_remove_fd w.sockets node.fd;
  binds = w.binds ++ node ∷ [];
}

-- `s` is the node as it is before the port is asked for, `node` the one that ends up in the binds.
pub record Bound (k : Kernel) (uninit sockfd : ℤ) (addr : SockaddrIn) (s : DsuSocket) (log : Log)
    (used : Bool) (w : World) (result : ℤ) (v : World) : Type 0 where
  pub node : DsuSocket
  pub origin : Origin k uninit sockfd addr s node log v used result
  pub passed : Quiet (moved w node) v

Quiet-moved :
    {u v w : World} (node : DsuSocket) → Quiet u v → Quiet (moved v node) w → Quiet (moved u node) w
Quiet-moved node p q = ground arith

-- A run that comes back, as an equation.
equally :
    {A : Type 0} {Q : A → World → Type 0} {P : World → Type 0} {r : Run A}
    → Ends Q P r
    → Ends (λ a v. Q a v × (r ≡ ok a v)) P r
equally (came_back q) = came_back (q, refl)
equally (did_not p) = did_not p

module _ (k : Kernel) where
  transfer-moved :
      (node : DsuSocket) (w : World)
      → Ends (λ _ v. (v ≡ moved w node) × (v.log ≡ w.log)) (Stuck k) (transfer k node w)
  unfolding transfer sockets_transfer_fd
  transfer-moved node w = came_back (rw (sockets_add-append w.binds node), refl)

  -- The transfer and the system's `bind`.
  bind_first-moved :
      (sockfd : ℤ) (addr : SockaddrIn) (s : DsuSocket) (w : World)
      → Ends
          (λ result v. SystemBound k sockfd addr result w.log v × Quiet (moved w s) v)
          (Stuck k)
          (bind_first k sockfd addr s w)
  unfolding bind_first
  bind_first-moved sockfd addr s w = Runs.bind-Ends (transfer-moved s w) λ _ v (e, same).
      Runs.bind-Ends (sys-Stuck k _ v) λ r v' c. came_back (
        record { logged = rw (c.logged, same) refl; replied = rw (c.reply, same) refl },
        rw (← e) c.quiet,
      )

  Bound-Quiet :
      {uninit sockfd : ℤ} {addr : SockaddrIn} {s : DsuSocket} {log : Log} {used : Bool}
      {u w : World} {result : ℤ} {v : World}
      → Quiet u w
      → Bound k uninit sockfd addr s log used w result v
      → Bound k uninit sockfd addr s log used u result v
  Bound-Quiet q b = record {
    node = b.node;
    origin = b.origin;
    passed = Quiet-moved b.node q b.passed;
  }

  -- Behind dsu_inherit_fd.
  inherit-Bound :
      (uninit sockfd : ℤ) (addr : SockaddrIn) (s : DsuSocket) (u w : World) {r : ℤ × DsuSocket}
      → inherit_fd k uninit s u ≡ ok r w
      → Inherited k s w r
      → Ends
          (λ result v. Bound k uninit sockfd addr s u.log true w result v)
          (Stuck k)
          ((if is_positive r.0
              then transfer k r.1 >> pure (pos 0)
              else bind_first k sockfd addr r.1)
            w)
  inherit-Bound uninit sockfd addr s u w ran (nothing none_sent) = rw none_sent (
      Runs.mono-Ends (bind_first-moved sockfd addr s w)
        (λ result v (b, q). record {
          node = s;
          origin =
              refused (record { start = u; end = w; behind = refl; ran = ran; logged = refl })
                none_sent refl b;
          passed = q;
        })
        λ v p. p)
  inherit-Bound uninit sockfd addr s u w {r} ran (taken positive adopted) = rw positive (
      Runs.bind-Ends (transfer-moved r.1 w) λ _ v (e, same). came_back (record {
        node = r.1;
        origin =
            inherited
              (record { start = u; end = w; behind = refl; ran = ran; logged = rw same refl })
              positive
              (record {
                comfd = adopted.comfd;
                changed = adopted.changed;
                replaced = record {
                  before = adopted.replaced.before;
                  other = adopted.replaced.other;
                  logged = same ∙ adopted.replaced.logged;
                  succeeded = adopted.replaced.succeeded;
                };
              });
        passed = rw e (Quiet-refl (moved w r.1));
      }))

  bind_monitored-Bound :
      (uninit sockfd : ℤ) (addr : SockaddrIn) (s : DsuSocket) (monitor : ℤ) (w : World)
      → Ends
          (λ result v.
            Bound k uninit sockfd addr s w.log
              (monitor == minus_one && is_eaddrinuse w.errno)
              w
              result
              v)
          (Stuck k)
          (bind_monitored k uninit sockfd addr s monitor w)
  unfolding bind_monitored
  bind_monitored-Bound uninit sockfd addr s monitor w =
      if_program-Ends (monitor == minus_one && is_eaddrinuse w.errno) _ _ w
        (λ occupied. rw occupied (
          Runs.bind-Ends (equally (inherit_fd-Inherited k uninit s w)) λ r v ((h, q), ran).
            mono-Stuck (inherit-Bound uninit sockfd addr s w v ran h)
              λ result v' b. Bound-Quiet q b))
        λ free. rw free (
          mono-Stuck (bind_first-moved sockfd addr s w)
            λ result v (b, q). record { node = s; origin = bound refl b; passed = q })

  -- The same, said of the calls before dsu_monitor_init.
  behind_monitor :
      {uninit sockfd : ℤ} {addr : SockaddrIn} {s s' : DsuSocket} {log : Log} {errno : Errno}
      {u v w : World} {monitor result : ℤ} {z : World}
      → s ≡ s'
      → v.log ≡ log
      → v.errno ≡ errno
      → Monitored k s v monitor w
      → Quiet u v
      → Bound k uninit sockfd addr s w.log
          (monitor == minus_one && is_eaddrinuse w.errno)
          w
          result
          z
      → Bound k uninit sockfd addr s' (monitor_log k s' log) (in_use k s' errno log) u result z
  behind_monitor same logged erred m q b =
      rw (← same, ← logged, ← erred, ← m.logged, ← m.decided)
        (Bound-Quiet (Quiet-trans q m.quiet) b)

  -- What `socketpair` gives.
  socketpair-pair :
      (w : World)
      → Ends
          (λ pair v.
            Quiet w v
            × (v.log ≡ Call.socketpair ∷ w.log)
            × (v.errno ≡ w.errno)
            × (pair ≡ (k w.log Call.socketpair).pair))
          (Stuck k)
          (socketpair k w)
  unfolding socketpair exit_failure
  socketpair-pair w = Runs.bind-Ends (sys-Stuck k _ w) λ r v c.
      if_program-Ends (is_negative r.value) _ _ v
        (λ failed.
          did_not (exits w.log (ap (◌∷◌ Call.exit_failure) c.logged) (rw (← c.reply) failed)))
        λ made. came_back (c.quiet, c.logged, lasting k c made, rw c.reply refl)

-- The node with the port, its address, the descriptor of the own socket there, and the pair on which
-- the threads are told: the first end to read, the second to mark.
abbrev pub announced : DsuSocket → SockaddrIn → ℤ → ℤ × ℤ → DsuSocket
announced n addr comm (readyfd, markreadyfd) = record n {
  port = pos (ntohs addr.sin_port);
  comfd_addr = comm_addr (ntohs addr.sin_port);
  comfd = comm;
  readyfd = readyfd;
  markreadyfd = markreadyfd;
}

-- The calls up to the socket pair, and the node as the system's replies to them make it.
abbrev pub paired_log : World → Log
paired_log w = Call.socketpair ∷ Call.unix_stream_socket ∷ w.log

abbrev pub filled : Kernel → DsuSocket → SockaddrIn → World → DsuSocket
filled k n addr w =
    announced n addr (k w.log Call.unix_stream_socket).value
      (k (Call.unix_stream_socket ∷ w.log) Call.socketpair).pair

-- `errno` behind them.
abbrev pub paired_errno : Kernel → World → Errno
paired_errno k w = errno_behind (k w.log Call.unix_stream_socket) w.errno

-- What `bind` has done, by what the search for the descriptor among the sockets found.
pub data BindOutcome (k : Kernel) (uninit sockfd : ℤ) (addr : SockaddrIn) (w : World)
    : Option DsuSocket → ℤ → World → Type 0 where
  unknown : BindOutcome k uninit sockfd addr w none minus_one (record w { errno = ebadf })
  known :
      {n : DsuSocket} {result : ℤ} {v : World}
      → Bound k uninit sockfd addr
          (filled k n addr w)
          (monitor_log k (filled k n addr w) (paired_log w))
          (in_use k (filled k n addr w) (paired_errno k w) (paired_log w))
          w
          result
          v
      → BindOutcome k uninit sockfd addr w (some n) result v

module _ (k : Kernel) where
  bind_known-BindOutcome :
      (uninit sockfd : ℤ) (addr : SockaddrIn) (n : DsuSocket) (w : World)
      → Ends
          (BindOutcome k uninit sockfd addr w (some n))
          (Stuck k)
          (bind_known k uninit sockfd addr n w)
  unfolding bind_known
  bind_known-BindOutcome uninit sockfd addr n w = Runs.bind-Ends (sys-Stuck k _ w) λ comm v c.
      Runs.bind-Ends (socketpair-pair k v) λ pair v' (q, l, e, p).
        Runs.bind-Ends (monitor_init-Monitored k _ v') λ monitor v'' m.
          mono-Stuck (bind_monitored-Bound k uninit sockfd addr _ monitor v'') λ result u b.
            let node : announced n addr comm.value pair ≡ filled k n addr w =
              rw (c.reply, p, c.logged) refl in
            let log : v'.log ≡ paired_log w = rw (l, c.logged) refl in
            let errno : v'.errno ≡ paired_errno k w = rw (e, c.errno, c.reply) refl in
            known (behind_monitor k node log errno m (Quiet-trans c.quiet q) b)

  -- `bind` of a descriptor that no socket has returns -1 with EBADF and makes no call. For a known one,
  -- if it comes back, the node has passed from the sockets to the end of the binds with the port, its
  -- address and the two ends of the system's socket pair filled in, and all other globals are as they
  -- were. Where the attempt to listen at that address failed with EADDRINUSE, dsu_inherit_fd was run: if
  -- that gave a port, `bind` returns 0 and the descriptor now stands for another version's socket; else,
  -- and where the attempt did not fail so, it returns what the system's `bind` of the same address did,
  -- which came next. If it does not come back, the system does not answer the last call, or the
  -- process has exited since no socket pair could be made.
  pub bind-BindOutcome :
      (uninit sockfd : ℤ) (addr : SockaddrIn) (w : World)
      → Ends
          (BindOutcome k uninit sockfd addr w (sockets_search_fd w.sockets sockfd))
          (Stuck k)
          (bind k uninit sockfd addr w)
  unfolding bind bind_searched
  bind-BindOutcome uninit sockfd addr w = found (sockets_search_fd w.sockets sockfd)
    where
      found :
          (o : Option DsuSocket)
          → Ends
              (BindOutcome k uninit sockfd addr w o)
              (Stuck k)
              (bind_searched k uninit sockfd addr o w)
      found none = came_back unknown
      found (some n) = bind_known-BindOutcome uninit sockfd addr n w
