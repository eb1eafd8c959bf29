-- ===== src/Epoll/Kept.antt =====
-- What a call of `epoll_wait` leaves alone: src/event_handlers/epoll.c.
use sve.Base.{
  ◌≡◌, ℕ, zero, suc, refl, Bool, true, false, arith, if◌then◌else◌, List, [], ◌∷◌, ℤ, pos,
  minus_one, ◌==◌, ◌&&◌, is_positive, is_negative, pos_part,
}
use sve.State.{DsuSocket, internal_fd}
use sve.State.Evolves.{
  Evolved, Evolved-refl, Evolved-trans, remove_fds-Evolved, told-Evolved, accepted-Evolved,
  ready-Evolved,
}
use sve.Kernel.{epollin, epollin_exclusive, World, Kernel, Call, EpollEvent}
use sve.Kernel.Runs.{did_not}
use sve.Kernel.Frame.{
  Frame, is_wait, loose, loosen, Gives, Any, gives, chain, calls, branch, weaken, writes,
  with_correction,
}
use sve.Core.Workers.Kept.{activate-Kept, terminate_if_done-Kept}
use sve.Forall.Kept.{
  LeavesNodes, forall_binds-same, settling-waits, KeepsNodes, settling, keeps-settling,
  forall_binds-settling,
}
use sve.Messages.{Answer, hang_up, ignore, mark_ready, send_fds, answer_to}
use sve.Messages.Kept.{send_both-Kept, send_ready-Kept, tell_ready-Kept}
use sve.Epoll.{
  add_comfds, del_all, Kind, skipped, request, woken, ready_signal, message, foreign, kind_of,
  sys_all, internal_calls, remove_calls, epoll_internal_conn, pre_epoll, remove_internal,
  serve_epoll, handle_kind, handle_event, handle_events, handle_conn_epoll, post_epoll,
  go_live_epoll, epoll_wait,
}

module _ {A : Type 0} where
  -- The node that comes back is the one that was given.
  abbrev Evolves : DsuSocket → DsuSocket × A → Type 0
  Evolves s (node, x) = Evolved s node

-- None of the calls is one of select or epoll_wait.
NoWaits : List Call → Type 0
NoWaits [] = Unit
NoWaits (call ∷ made) = (is_wait call ≡ false) × NoWaits made

add_comfds-NoWaits : (epollfd : ℤ) (fds : List ℤ) → NoWaits (add_comfds epollfd fds)
unfolding NoWaits add_comfds
add_comfds-NoWaits epollfd [] = tt
add_comfds-NoWaits epollfd (fd ∷ fds) = (refl, add_comfds-NoWaits epollfd fds)

del_all-NoWaits : (epollfd : ℤ) (fds : List ℤ) → NoWaits (del_all epollfd fds)
unfolding NoWaits del_all
del_all-NoWaits epollfd [] = tt
del_all-NoWaits epollfd (fd ∷ fds) = (refl, del_all-NoWaits epollfd fds)

internal_calls-NoWaits :
    (epollfd wakeup : ℤ) (s : DsuSocket) → NoWaits (internal_calls epollfd wakeup s)
unfolding NoWaits internal_calls
internal_calls-NoWaits epollfd wakeup s = (refl, registered s.ready)
  where
    registered :
        (b : Bool)
        → NoWaits (
            if b
            then Call.epoll_del epollfd s.comfd
              ∷ Call.epoll_del epollfd s.readyfd
              ∷ Call.epoll_del epollfd s.fd
              ∷ add_comfds epollfd s.comfds
            else Call.epoll_add epollfd s.comfd epollin_exclusive s.comfd
              ∷ Call.epoll_add epollfd s.readyfd epollin s.readyfd
              ∷ add_comfds epollfd s.comfds)
    registered true = (refl, (refl, (refl, add_comfds-NoWaits epollfd s.comfds)))
    registered false = (refl, (refl, add_comfds-NoWaits epollfd s.comfds))

module _ {k : Kernel} (F : Frame k) where
  sys_all-Kept : (made : List Call) → NoWaits made → Gives F Any (sys_all k made)
  unfolding sys_all NoWaits
  sys_all-Kept [] none_waits = gives F tt
  sys_all-Kept (call ∷ made) (e, es) = chain F (calls F call e) λ _ _. sys_all-Kept made es

  pub internal_conn-LeavesNodes : (epollfd : ℤ) → LeavesNodes F (epoll_internal_conn k epollfd)
  unfolding epoll_internal_conn
  internal_conn-LeavesNodes epollfd s x w =
      chain F (sys_all-Kept _ (internal_calls-NoWaits epollfd w.wakeup s)) (λ _ _. gives F refl) w

  pub remove_internal-LeavesNodes : (epollfd : ℤ) → LeavesNodes F (remove_internal k epollfd)
  unfolding remove_internal remove_calls NoWaits
  remove_internal-LeavesNodes epollfd s x =
      chain F (sys_all-Kept _ (refl, del_all-NoWaits epollfd s.comfds)) λ _ _. gives F refl

  serve-Evolved :
      (epollfd fd : ℤ) (answer : Answer) (s : DsuSocket)
      → Gives F (Evolved s) (serve_epoll k epollfd fd answer s)
  unfolding serve_epoll
  serve-Evolved epollfd fd hang_up s = chain F (calls F _ refl) λ closed _.
      chain F (calls F _ refl) λ deleted _. gives F (remove_fds-Evolved s fd internal_fd)
  serve-Evolved epollfd fd ignore s = gives F (Evolved-refl s)
  serve-Evolved epollfd fd mark_ready s = chain F (send_ready-Kept F s) λ _ _.
      chain F (calls F _ refl) λ closed _.
        chain F (calls F _ refl) λ deleted _. gives F (remove_fds-Evolved s fd internal_fd)
  serve-Evolved epollfd fd (send_fds port) s =
      chain F (send_both-Kept F s fd port) λ _ _. gives F (Evolved-refl s)

  handle_kind-Evolved :
      (epollfd : ℤ) (kind : Kind) (s : DsuSocket) (e : EpollEvent)
      → Gives F (Evolves s) (handle_kind k epollfd kind s e)
  unfolding handle_kind
  handle_kind-Evolved epollfd skipped s e = gives F (Evolved-refl s)
  handle_kind-Evolved epollfd request s e =
      chain F (calls F _ refl) λ acc _. gives F (accepted-Evolved (acc.value == minus_one) s _ _ _)
  handle_kind-Evolved epollfd woken s e =
      λ w. chain F (calls F _ refl) (λ r _. gives F (Evolved-refl s)) w
  handle_kind-Evolved epollfd ready_signal s e =
      chain F (calls F _ refl) λ deleted _. gives F (ready-Evolved s)
  handle_kind-Evolved epollfd message s e = chain F (calls F _ refl) λ r _ w.
      chain F (serve-Evolved epollfd _ (answer_to r w.errno s.port) s)
        (λ node evolved. gives F evolved) w
  handle_kind-Evolved epollfd foreign s e = gives F (Evolved-refl s)

  handle_event-Evolved :
      (epollfd : ℤ) (s : DsuSocket) (e : EpollEvent)
      → Gives F (Evolves s) (handle_event k epollfd s e)
  unfolding handle_event
  handle_event-Evolved epollfd s e w = handle_kind-Evolved epollfd (kind_of s w.wakeup e) s e w

  handle_events-Evolved :
      (epollfd : ℤ) (n : ℕ) (s : DsuSocket) (events : List EpollEvent)
      → Gives F (Evolves s) (handle_events k epollfd n s events)
  unfolding handle_events
  handle_events-Evolved epollfd zero s events = gives F (Evolved-refl s)
  handle_events-Evolved epollfd (suc n) s [] = gives F (Evolved-refl s)
  handle_events-Evolved epollfd (suc n) s (e ∷ events) =
      chain F (handle_event-Evolved epollfd s e) λ (node, e') evolved.
        chain F (handle_events-Evolved epollfd n node events)
          λ (node', events') evolved'. gives F (Evolved-trans evolved evolved')

  pub handle_conn-KeepsNodes : (epollfd nfds : ℤ) → KeepsNodes F (handle_conn_epoll k epollfd nfds)
  unfolding handle_conn_epoll
  handle_conn-KeepsNodes epollfd nfds s events =
      chain F {P = Evolved s}
        (branch F (is_positive s.comfd_close)
          (weaken F (tell_ready-Kept F s) λ node e. rw e (told-Evolved s))
          (gives F (Evolved-refl s)))
        λ node evolved.
          weaken F (handle_events-Evolved epollfd (pos_part nfds) node events)
            λ r evolved'. Evolved-trans evolved evolved'

module _ (k : Kernel) where
  if_live :
      (active : Bool) (w : World)
      → (with_correction k).Rel w (if active then record w { live_epoll = true } else w)
  if_live true w = (ground arith, refl)
  if_live false w = (ground arith, refl)

  post_epoll-Kept :
      (epollfd nfds : ℤ) (events : List EpollEvent)
      → Gives (settling k) Any (post_epoll k epollfd nfds events)
  unfolding post_epoll
  post_epoll-Kept epollfd nfds events =
      chain (settling k)
        (forall_binds-settling k (handle_conn_epoll k epollfd nfds)
          (handle_conn-KeepsNodes (with_correction k) epollfd nfds) events)
        λ events' _ w.
          chain (settling k) (calls (settling k) _ refl)
            (λ deleted _.
              chain (settling k)
                (keeps-settling k (
                  forall_binds-same k (remove_internal k epollfd)
                    (remove_internal-LeavesNodes (with_correction k) epollfd) tt))
                λ done _. gives (settling k) tt)
            w

  pub go_live-Kept : Gives (with_correction k) Any (go_live_epoll k)
  unfolding go_live_epoll
  go_live-Kept w =
      branch (with_correction k) w.live_epoll (gives (with_correction k) tt)
        (chain (with_correction k) (activate-Kept (with_correction k)) λ active _.
          writes (with_correction k) (λ v. if active then record v { live_epoll = true } else v)
            λ v. if_live active v)
        w

  pub pre_epoll-Kept : (epollfd : ℤ) → Gives (with_correction k) Any (pre_epoll k epollfd)
  unfolding pre_epoll
  pre_epoll-Kept epollfd =
      forall_binds-same k (epoll_internal_conn k epollfd)
        (internal_conn-LeavesNodes (with_correction k) epollfd) tt

  -- Whatever the system answers, a call of epoll_wait that comes back has changed the binds only as
  -- the event handlers may, and no other list or pair.
  pub epoll_wait-Kept :
      (fuel : ℕ) (epfd maxevents timeout : ℤ)
      → Gives (loose (settling k)) Any (epoll_wait k fuel epfd maxevents timeout)
  unfolding epoll_wait
  epoll_wait-Kept zero epfd maxevents timeout w = did_not tt
  epoll_wait-Kept (suc fuel) epfd maxevents timeout w =
      chain (loose (settling k)) (loosen (settling k) (keeps-settling k go_live-Kept))
        (λ _ _. chain (loose (settling k)) (terminate_if_done-Kept (loose (settling k))) λ _ _.
          chain (loose (settling k)) (loosen (settling k) (keeps-settling k (pre_epoll-Kept epfd)))
            λ _ _. chain (loose (settling k)) (loosen (settling k) (settling-waits k _)) λ r _.
              chain (loose (settling k))
                (loosen (settling k) (post_epoll-Kept epfd r.value r.ready_events))
                λ (nfds, events) _.
                  branch (loose (settling k)) (nfds == pos 0 && is_negative timeout)
                    (epoll_wait-Kept fuel epfd maxevents timeout) (gives (loose (settling k)) tt))
        w
