-- ===== src/Core/Handover/Meeting.antt =====
-- Two versions meet: the older one treats the newer one's request behind its select, and the newer one
-- reads the answer. Each has its own system; what passes between them is the messages.
use sve.Base.{
  ◌≡◌, refl, ◌∙◌, true, false, List, [], ◌∷◌, ◌++◌, if◌then◌else◌, Option, ℤ, pos, minus_one, ◌==◌,
  ==_refl, is_positive, is_negative,
}
use sve.State.{DsuSocket}
use sve.Kernel.{Kernel, Call, Log, World, Run, ok, ended, Msghdr, Reply, Errno, FdSet, so_error}
use sve.Kernel.Runs
use sve.Kernel.Runs.{
  Returns, returns, Responsive, Called, sys-Returns, prompt-Returns, if_program-Returns, Quiet,
}
use sve.Communication.{write_fd, fd_message, read_fd, read_reply, read_control, cmsg_fd}
use sve.Communication.RoundTrip.{IsInt32, Delivers, ntohl-htonl}
use sve.Messages.{answer_to, send_fds, send_both}
use sve.Messages.Requests.{Receives, answer_to-request}
use sve.Core.Handover.{adopt, receive_fds}
use sve.Select.{serve}

-- The messages that went out on a connection, the oldest first; a close ends the connection.
unfoldable pub sent : ℤ → Log → List Msghdr
sent conn [] = []
sent conn (Call.sendmsg fd m ∷ log) = if fd == conn then sent conn log ++ m ∷ [] else sent conn log
sent conn (Call.close fd ∷ log) = if fd == conn then [] else sent conn log
sent conn (call ∷ log) = sent conn log

-- The world that a run leaves.
unfoldable pub left : {A : Type 0} → Run A → World
left (ok a w) = w
left (ended e w) = w

returns-left :
    {A : Type 0} {P : A → World → Type 0} {r : Run A} → Returns P r → (a : A) × P a (left r)
unfolding left
returns-left (returns {a} p) = (a, p)

-- The receives on `fd` deliver these messages in order, each with a descriptor of the receiver's own.
pub data Carried (k : Kernel) (fd : ℤ) : Log → List Msghdr → List ℤ → Type 0 where
  all_read : {log : Log} → Carried k fd log [] []
  next_read :
      {log : Log} {m : Msghdr} {ms : List Msghdr} {a : ℤ} {received : List ℤ}
      → Delivers (k log (Call.recvmsg fd)) m a
      → Carried k fd (Call.recvmsg fd ∷ log) ms received
      → Carried k fd log (m ∷ ms) (a ∷ received)

-- The system says that a descriptor is a socket.
abbrev pub IsSocket : Kernel → ℤ → Type 0
IsSocket k fd = (log : Log) → is_negative (k log (Call.getsockopt fd so_error)).value ≡ false

-- The system puts one descriptor in the place of another.
pub record Replaces (k : Kernel) (other fd : ℤ) : Type 0 where
  pub flags : (log : Log) → (k log (Call.getfl fd)).returns ≡ true
  pub comes : (log : Log) → (k log (Call.dup2 other fd)).returns ≡ true
  pub succeeds : (log : Log) → ((k log (Call.dup2 other fd)).value == minus_one) ≡ false

module _ (k : Kernel) (responsive : Responsive k) where
  write_fd-sent :
      (conn fd port : ℤ) (w : World)
      → IsSocket k fd
      → Returns
          (λ _ v. sent conn v.log ≡ sent conn w.log ++ fd_message fd port ∷ [])
          (write_fd k conn fd port w)
  unfolding write_fd sent
  write_fd-sent conn fd port w is_socket =
      Runs.bind (prompt-Returns k responsive (Call.getsockopt fd so_error) w refl) λ error v c.
        if_program-Returns (is_negative error.value) _ _ v (λ bad. cc (c.reply, is_socket w.log))
          λ good.
            Runs.bind (prompt-Returns k responsive (Call.sendmsg conn (fd_message fd port)) v refl)
              λ r v' c'. returns (rw (c'.logged, c.logged, ==_refl conn))

  send_both-sent :
      (s : DsuSocket) (conn port : ℤ) (w : World)
      → IsSocket k s.fd
      → IsSocket k s.comfd
      → sent conn w.log ≡ []
      → Returns
          (λ _ v. sent conn v.log ≡ fd_message s.fd port ∷ fd_message s.comfd port ∷ [])
          (send_both k s conn port w)
  unfolding send_both
  send_both-sent s conn port w listens monitors fresh =
      Runs.bind (write_fd-sent conn s.fd port w listens) λ _ v first.
        Runs.bind (write_fd-sent conn s.comfd port v monitors)
          λ _ v' second. returns (rw (second, first, fresh))

  -- The answer of the older version.
  serve-sent :
      (s : DsuSocket) (conn port : ℤ) (readfds : Option FdSet) (w : World)
      → IsSocket k s.fd
      → IsSocket k s.comfd
      → sent conn w.log ≡ []
      → Returns
          (λ x v.
            (x ≡ (s, readfds))
            × (sent conn v.log ≡ fd_message s.fd port ∷ fd_message s.comfd port ∷ []))
          (serve k conn (send_fds port) s readfds w)
  unfolding serve
  serve-sent s conn port readfds w listens monitors fresh =
      Runs.bind (send_both-sent s conn port w listens monitors fresh) λ _ v e. returns (refl, e)

module _ (k : Kernel) where
  adopt-replaced :
      (n : DsuSocket) (other comfd port : ℤ) (w : World)
      → Replaces k other n.fd
      → Returns
          (λ result v.
            (result ≡ (port, record n { comfd_close = n.comfd; comfd = comfd }))
            × (v.log ≡ Call.dup2 other n.fd ∷ Call.getfl n.fd ∷ w.log))
          (adopt k n other comfd port w)
  unfolding adopt
  adopt-replaced n other comfd port w replaces =
      Runs.bind (sys-Returns k (Call.getfl n.fd) w (replaces.flags w.log)) λ flags v c.
        Runs.bind (sys-Returns k (Call.dup2 other n.fd) v (replaces.comes v.log)) λ r v' c'.
          if_program-Returns (r.value == minus_one) _ _ v'
            (λ failed. cc (c'.reply, replaces.succeeds v.log))
            λ done. returns (refl, rw (c'.logged, c.logged))

  read_fd-reads :
      (conn sendfd received port old_fd old_port : ℤ) (w : World)
      → IsInt32 port
      → Delivers (k w.log (Call.recvmsg conn)) (fd_message sendfd port) received
      → Returns
          (λ (_, fd, port') v.
            (fd ≡ received) × (port' ≡ port) × (v.log ≡ Call.recvmsg conn ∷ w.log))
          (read_fd k conn old_fd old_port w)
  unfolding read_fd fd_message read_reply read_control cmsg_fd
  read_fd-reads conn sendfd received port old_fd old_port w range d =
      Runs.bind (sys-Returns k (Call.recvmsg conn) w d.returns) λ r v c. returns (
        rw (c.reply, d.value, d.control),
        rw (c.reply, d.value, d.control, d.iov, ntohl-htonl port range),
        c.logged,
      )

  -- The newer version reads the two messages.
  receive_fds-adopted :
      (n : DsuSocket) (fd comfd port a b uninit : ℤ) (w : World)
      → IsInt32 port
      → is_positive port ≡ true
      → Carried k n.comfd w.log (fd_message fd port ∷ fd_message comfd port ∷ []) (a ∷ b ∷ [])
      → Replaces k a n.fd
      → Returns
          (λ result v.
            (result ≡ (port, record n { comfd_close = n.comfd; comfd = b }))
            × (v.log
                ≡ Call.dup2 a n.fd
                  ∷ Call.getfl n.fd
                  ∷ Call.recvmsg n.comfd
                  ∷ Call.recvmsg n.comfd
                  ∷ w.log))
          (receive_fds k uninit n w)
  unfolding receive_fds
  receive_fds-adopted n fd comfd port a b uninit w range positive
        (next_read d (next_read d' all_read)) replaces =
      Runs.bind (read_fd-reads n.comfd fd a port uninit (pos 0) w range d)
        λ (first, fd', port') v (e, p, l).
          Runs.bind (read_fd-reads n.comfd comfd b port (pos 0) port' v range (rw l d'))
            λ (second, comfd', port'') v' (e', p', l').
              rw (p', positive, e, e')
                (Runs.mono (adopt-replaced n a b port v' replaces)
                  λ result u (done, log). (done, rw (log, l', l)))

-- A newer version that has asked for its port on a connection on which nothing was sent before, and an
-- older one that serves `s.port`: the older one comes back with its node and set as they were, and
-- sends two messages. Where these are delivered, as the descriptors `a` and `b`, and the system lets
-- `a` take the place of the newer one's socket, the newer one comes back with the port that the older
-- one serves, its own socket is now `a`, it listens on `b`, and it keeps the connection to tell that it
-- is ready. The port asked for must not be 1, and the port served must be a positive int.
pub receive_fds-serve :
    (old new : Kernel) (s n : DsuSocket) (conn a b uninit : ℤ) (r : Reply) (errno : Errno)
    (readfds : Option FdSet) (w w' : World)
    → Responsive old
    → IsSocket old s.fd
    → IsSocket old s.comfd
    → sent conn w.log ≡ []
    → IsInt32 n.port
    → (n.port == pos 1) ≡ false
    → Receives r n.port
    → IsInt32 s.port
    → is_positive s.port ≡ true
    → Carried new n.comfd w'.log
        (sent conn (left (serve old conn (answer_to r errno s.port) s readfds w)).log)
        (a ∷ b ∷ [])
    → Replaces new a n.fd
    → Returns (λ x v. x ≡ (s, readfds)) (serve old conn (answer_to r errno s.port) s readfds w)
      × Returns
          (λ result v.
            (result ≡ (s.port, record n { comfd_close = n.comfd; comfd = b }))
            × (v.log
                ≡ Call.dup2 a n.fd
                  ∷ Call.getfl n.fd
                  ∷ Call.recvmsg n.comfd
                  ∷ Call.recvmsg n.comfd
                  ∷ w'.log))
          (receive_fds new uninit n w')
receive_fds-serve old new s n conn a b uninit r errno readfds w w' responsive listens monitors fresh
      asked no_signal got range positive carried replaces =
    let answer : answer_to r errno s.port ≡ send_fds s.port =
      answer_to-request r errno n.port s.port asked got ∙ rw no_signal in
    let served = serve-sent old responsive s conn s.port readfds w listens monitors fresh in
    let messages : sent conn (left (serve old conn (answer_to r errno s.port) s readfds w)).log
        ≡ fd_message s.fd s.port ∷ fd_message s.comfd s.port ∷ [] =
      rw answer (returns-left served).1.1 in
    (
      rw answer (Runs.mono served λ x v (same, _). same),
      receive_fds-adopted new n s.fd s.comfd s.port a b uninit w' range positive
          (rw (← messages) carried) replaces,
    )
