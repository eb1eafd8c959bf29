-- ===== src/Core/Handover/Inherit.antt =====
-- dsu_inherit_fd: what it returns and how it leaves the node.
use sve.Base.{◌≡◌, refl, true, false, ◌∷◌, ℤ, pos, minus_one, ◌==◌, is_positive}
use sve.State.{DsuSocket}
use sve.Kernel.{Kernel, Call, World, Log}
use sve.Kernel.Runs
use sve.Kernel.Stuck.{Stuck, sys-Stuck, mono-Stuck}
use sve.Kernel.Runs.{Ends, came_back, Quiet, Quiet-refl, Quiet-trans, Called, if_program-Ends}
use sve.Communication.{read_fd}
use sve.Core.Handover.{adopt, receive_fds, inherit_fd, set_nonblock, monitor_init}

-- The last call put another version's socket in place of `fd`, and succeeded.
pub record Replaced (k : Kernel) (fd : ℤ) (w : World) : Type 0 where
  pub before : Log
  pub other : ℤ
  pub logged : w.log ≡ Call.dup2 other fd ∷ before
  pub succeeded : ((k before (Call.dup2 other fd)).value == minus_one) ≡ false

-- The own connection is kept to signal that the port is served.
pub record Adopted (k : Kernel) (s node : DsuSocket) (w : World) : Type 0 where
  pub comfd : ℤ
  pub changed : node ≡ record s { comfd_close = s.comfd; comfd = comfd }
  pub replaced : Replaced k s.fd w

-- A result that is not positive means that the node is as it was.
pub data Inherited (k : Kernel) (s : DsuSocket) (w : World) : ℤ × DsuSocket → Type 0 where
  nothing : {port : ℤ} → is_positive port ≡ false → Inherited k s w (port, s)
  taken :
      {port : ℤ} {node : DsuSocket}
      → is_positive port ≡ true
      → Adopted k s node w
      → Inherited k s w (port, node)

module _ (k : Kernel) where
  adopt-Inherited :
      (s : DsuSocket) (sockfd comfd port : ℤ) (w : World)
      → is_positive port ≡ true
      → Ends (λ r v. Inherited k s v r × Quiet w v) (Stuck k) (adopt k s sockfd comfd port w)
  unfolding adopt
  adopt-Inherited s sockfd comfd port w positive =
      Runs.bind-Ends (sys-Stuck k (Call.getfl s.fd) w) λ flags v c.
        Runs.bind-Ends (sys-Stuck k (Call.dup2 sockfd s.fd) v) λ duplicated v' c'.
          if_program-Ends (duplicated.value == minus_one) _ _ v'
            (λ failed.
              Runs.bind-Ends (sys-Stuck k (Call.setfl s.fd flags.value) v') λ restored v'' c''.
                came_back (nothing refl, Quiet-trans c.quiet (Quiet-trans c'.quiet c''.quiet)))
            λ done. came_back (
              taken positive (record {
                comfd = comfd;
                changed = refl;
                replaced = record {
                  before = v.log;
                  other = sockfd;
                  logged = c'.logged;
                  succeeded = rw (← c'.reply) done;
                };
              }),
              Quiet-trans c.quiet c'.quiet,
            )

  read_fd-Quiet :
      (fd recvfd port : ℤ) (w : World)
      → Ends (λ _ v. Quiet w v) (Stuck k) (read_fd k fd recvfd port w)
  unfolding read_fd
  read_fd-Quiet fd recvfd port w =
      Runs.bind-Ends (sys-Stuck k (Call.recvmsg fd) w) λ r v c. came_back c.quiet

  receive_fds-Inherited :
      (uninit : ℤ) (s : DsuSocket) (w : World)
      → Ends (λ r v. Inherited k s v r × Quiet w v) (Stuck k) (receive_fds k uninit s w)
  unfolding receive_fds
  receive_fds-Inherited uninit s w =
      Runs.bind-Ends (read_fd-Quiet s.comfd uninit (pos 0) w) λ (first, sockfd, port) v q.
        Runs.bind-Ends (read_fd-Quiet s.comfd (pos 0) port v) λ (second, comfd, port') v' q'.
          if_program-Ends (is_positive port') _ _ v'
            (λ positive.
              mono-Stuck (adopt-Inherited s sockfd comfd port' v' positive)
                λ r v'' (h, q''). (h, Quiet-trans q (Quiet-trans q' q'')))
            λ none_sent. came_back (nothing none_sent, Quiet-trans q q')

  -- If dsu_inherit_fd comes back, its result is positive exactly if the own descriptor now stands for
  -- another version's socket, where the own connection is kept; otherwise the node is as it was. The
  -- globals are as they were.
  pub inherit_fd-Inherited :
      (uninit : ℤ) (s : DsuSocket) (w : World)
      → Ends (λ r v. Inherited k s v r × Quiet w v) (Stuck k) (inherit_fd k uninit s w)
  unfolding inherit_fd
  inherit_fd-Inherited uninit s w = Runs.bind-Ends (sys-Stuck k _ w) λ connected v c.
      if_program-Ends (connected.value == minus_one) _ _ v
        (λ failed. came_back (nothing refl, c.quiet))
        λ done. Runs.bind-Ends (sys-Stuck k _ v) λ sent v' c'.
          if_program-Ends (is_positive sent.value) _ _ v'
            (λ answered.
              mono-Stuck (receive_fds-Inherited uninit s v')
                λ r v'' (h, q). (h, Quiet-trans c.quiet (Quiet-trans c'.quiet q)))
            λ lost. came_back (nothing refl, Quiet-trans c.quiet c'.quiet)

  set_nonblock-Quiet :
      (fd : ℤ) (w : World) → Ends (λ _ v. Quiet w v) (Stuck k) (set_nonblock k fd w)
  unfolding set_nonblock
  set_nonblock-Quiet fd w = Runs.bind-Ends (sys-Stuck k _ w) λ flags v c.
      Runs.bind-Ends (sys-Stuck k _ v) λ r v' c'. came_back (Quiet-trans c.quiet c'.quiet)

  pub monitor_init-Quiet :
      (s : DsuSocket) (w : World) → Ends (λ _ v. Quiet w v) (Stuck k) (monitor_init k s w)
  unfolding monitor_init
  monitor_init-Quiet s w = Runs.bind-Ends (sys-Stuck k _ w) λ bound v c.
      if_program-Ends (bound.value == pos 0) _ _ v
        (λ ours. Runs.bind-Ends (sys-Stuck k _ v) λ listening v' c'.
          if_program-Ends (listening.value == pos 0) _ _ v'
            (λ listens.
              Runs.bind-Ends (set_nonblock-Quiet s.comfd v')
                λ _ v'' q. came_back (Quiet-trans c.quiet (Quiet-trans c'.quiet q)))
            λ deaf. came_back (Quiet-trans c.quiet c'.quiet))
        λ taken_address. came_back c.quiet
