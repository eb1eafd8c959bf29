-- ===== src/Epoll/Application.antt =====
-- What the wrapper of epoll_wait leaves to the application: the handlers only mark events, and only
-- their own.
use sve.Base.{
  ℕ, zero, suc, ◌≡◌, refl, ap, Bool, true, false, List, [], ◌∷◌, arith, inl, inr, Bool-cases, ℤ,
  ◌==◌, ==_iff, is_positive, pos_part,
}
use sve.State.{DsuSocket}
use sve.Kernel.{Kernel, World, EpollEvent}
use sve.Kernel.Runs
use sve.Kernel.Runs.{
  Returns, returns, Responsive, Quiet, Quiet-refl, Quiet-trans, Called, prompt-Returns,
  if_program-Returns,
}
use sve.Messages.{Answer, hang_up, ignore, mark_ready, send_fds}
use sve.Messages.Quiet.{send_both-Quiet, send_ready-Quiet, tell_ready-Quiet}
use sve.Messages.Foreign.{Foreign, NeverAccepts, accept-Foreign, remove-Foreign}
use sve.Epoll.{
  Kind, skipped, request, woken, ready_signal, message, foreign, kind_of, serve_epoll, handle_kind,
  handle_event, handle_events, handle_conn_epoll,
}
use sve.Epoll.Compact.{data_fd, clear_fd}

-- One event behind the handlers, and an array of them.
pub data Marked (x : ℤ) (e : EpollEvent) : EpollEvent → Type 0 where
  same : Marked x e e
  cleared : (data_fd e == x) ≡ false → Marked x e (clear_fd e)

pub data Marks (x : ℤ) : List EpollEvent → List EpollEvent → Type 0 where
  none_left : Marks x [] []
  next :
      {e e' : EpollEvent} {es es' : List EpollEvent}
      → Marked x e e'
      → Marks x es es'
      → Marks x (e ∷ es) (e' ∷ es')

pub Marks-refl : (x : ℤ) (es : List EpollEvent) → Marks x es es
Marks-refl x [] = none_left
Marks-refl x (e ∷ es) = next same (Marks-refl x es)

clear-clear : (e : EpollEvent) → clear_fd (clear_fd e) ≡ clear_fd e
unfolding clear_fd
clear-clear e = ap (λ d. record e { data_bits = d }) (omega arith)

pub Marked-trans :
    {x : ℤ} {e e' e'' : EpollEvent} → Marked x e e' → Marked x e' e'' → Marked x e e''
Marked-trans same q = q
Marked-trans p same = p
Marked-trans {e} (cleared h) (cleared _) = rw (clear-clear e) (cleared h)

pub Marks-trans :
    {x : ℤ} {es es' es'' : List EpollEvent} → Marks x es es' → Marks x es' es'' → Marks x es es''
Marks-trans none_left none_left = none_left
Marks-trans (next p ps) (next q qs) = next (Marked-trans p q) (Marks-trans ps qs)

-- The event is the library's own.
abbrev own : Kind → Bool
own skipped = false
own foreign = false
own _ = true

kind_of-Foreign :
    (x : ℤ) (s : DsuSocket) (wakeup : ℤ) (e : EpollEvent)
    → Foreign x s
    → (x == wakeup) ≡ false
    → data_fd e ≡ x
    → own (kind_of s wakeup e) ≡ false
unfolding kind_of
kind_of-Foreign x s wakeup e f awake it =
    rw (it, f.comfd, awake, f.readyfd, f.comfds) (ground arith)

own-kind_of :
    (x : ℤ) (s : DsuSocket) (wakeup : ℤ) (e : EpollEvent)
    → Foreign x s
    → (x == wakeup) ≡ false
    → own (kind_of s wakeup e) ≡ true
    → (data_fd e == x) ≡ false
own-kind_of x s wakeup e f awake mine = elim (Bool-cases (data_fd e == x)) [
  | inr other ↦ other
  | inl it ↦ cc (mine, kind_of-Foreign x s wakeup e f awake ((==_iff (data_fd e) x).0 it))
]

module _ (k : Kernel) (responsive : Responsive k) where
  serve_epoll-Foreign :
      (x epfd fd : ℤ) (a : Answer) (s : DsuSocket) (w : World)
      → Foreign x s
      → Returns (λ node v. Foreign x node × Quiet w v) (serve_epoll k epfd fd a s w)
  unfolding serve_epoll
  serve_epoll-Foreign x epfd fd hang_up s w f =
      Runs.bind (prompt-Returns k responsive _ w refl) λ _ v c.
        Runs.bind (prompt-Returns k responsive _ v refl)
          λ _ v' c'. returns (remove-Foreign fd f, Quiet-trans c.quiet c'.quiet)
  serve_epoll-Foreign x epfd fd ignore s w f = returns (f, Quiet-refl w)
  serve_epoll-Foreign x epfd fd mark_ready s w f =
      Runs.bind (send_ready-Quiet k responsive s w) λ _ v q.
        Runs.bind (prompt-Returns k responsive _ v refl) λ _ v' c.
          Runs.bind (prompt-Returns k responsive _ v' refl)
            λ _ v'' c'. returns (remove-Foreign fd f, Quiet-trans q (Quiet-trans c.quiet c'.quiet))
  serve_epoll-Foreign x epfd fd (send_fds port) s w f =
      Runs.bind (send_both-Quiet k responsive s fd port w) λ _ v q. returns (f, q)

  module _ (x : ℤ) (never : NeverAccepts k x) where
    -- The node stays foreign to the descriptor, and the event is marked only if it is another's.
    abbrev Handled : EpollEvent → World → DsuSocket × EpollEvent → World → Type 0
    Handled e w (node, e') v = Foreign x node × Marked x e e' × Quiet w v

    handle_kind-Handled :
        (epfd : ℤ) (kind : Kind) (s : DsuSocket) (e : EpollEvent) (w : World)
        → Foreign x s
        → (own kind ≡ true → (data_fd e == x) ≡ false)
        → Returns (Handled e w) (handle_kind k epfd kind s e w)
    unfolding handle_kind
    handle_kind-Handled epfd skipped s e w f mine = returns (f, same, Quiet-refl w)
    handle_kind-Handled epfd foreign s e w f mine = returns (f, same, Quiet-refl w)
    handle_kind-Handled epfd request s e w f mine =
        Runs.bind (prompt-Returns k responsive _ w refl) λ acc v c. returns (
          accept-Foreign _ s _ acc.peer (rw c.reply (never w.log s.comfd)) f,
          cleared (mine refl),
          c.quiet,
        )
    handle_kind-Handled epfd woken s e w f mine =
        Runs.bind (prompt-Returns k responsive _ w refl)
          λ r v c. returns (f, cleared (mine refl), c.quiet)
    handle_kind-Handled epfd ready_signal s e w f mine =
        Runs.bind (prompt-Returns k responsive _ w refl) λ r v c. returns (
          record { comfd = f.comfd; readyfd = f.readyfd; comfds = f.comfds },
          cleared (mine refl),
          c.quiet,
        )
    handle_kind-Handled epfd message s e w f mine =
        Runs.bind (prompt-Returns k responsive _ w refl) λ r v c.
          Runs.bind (serve_epoll-Foreign x epfd _ _ s v f)
            λ node v' (f', q). returns (f', cleared (mine refl), Quiet-trans c.quiet q)

    handle_event-Handled :
        (epfd : ℤ) (s : DsuSocket) (e : EpollEvent) (w : World)
        → Foreign x s
        → (x == w.wakeup) ≡ false
        → Returns (Handled e w) (handle_event k epfd s e w)
    unfolding handle_event
    handle_event-Handled epfd s e w f awake =
        handle_kind-Handled epfd _ s e w f (own-kind_of x s w.wakeup e f awake)

    abbrev pub HandledAll : List EpollEvent → World → DsuSocket × List EpollEvent → World → Type 0
    HandledAll es w (node, es') v = Foreign x node × Marks x es es' × Quiet w v

    handle_events-HandledAll :
        (epfd : ℤ) (n : ℕ) (s : DsuSocket) (es : List EpollEvent) (w : World)
        → Foreign x s
        → (x == w.wakeup) ≡ false
        → Returns (HandledAll es w) (handle_events k epfd n s es w)
    unfolding handle_events
    handle_events-HandledAll epfd zero s es w f awake = returns (f, Marks-refl x es, Quiet-refl w)
    handle_events-HandledAll epfd (suc n) s [] w f awake = returns (f, none_left, Quiet-refl w)
    handle_events-HandledAll epfd (suc n) s (e ∷ es) w f awake =
        Runs.bind (handle_event-Handled epfd s e w f awake) λ (node, e') v (f', m, q).
          Runs.bind (handle_events-HandledAll epfd n node es v f' (rw q.wakeup awake))
            λ (node', es') v' (f'', ms, q'). returns (f'', next m ms, Quiet-trans q q')

    pub handle_conn_epoll-HandledAll :
        (epfd nfds : ℤ) (s : DsuSocket) (es : List EpollEvent) (w : World)
        → Foreign x s
        → (x == w.wakeup) ≡ false
        → Returns (HandledAll es w) (handle_conn_epoll k epfd nfds s es w)
    unfolding handle_conn_epoll
    handle_conn_epoll-HandledAll epfd nfds s es w f awake =
        Runs.bind {P = λ node v. Foreign x node × Quiet w v}
          (if_program-Returns (is_positive s.comfd_close) _ _ w
            (λ _. Runs.mono (tell_ready-Quiet k responsive s w) λ node v (e, q).
              (rw e (record { comfd = f.comfd; readyfd = f.readyfd; comfds = f.comfds }), q))
            (λ _. returns (f, Quiet-refl w)))
          λ node v (f', q).
            Runs.mono
              (handle_events-HandledAll epfd (pos_part nfds) node es v f' (rw q.wakeup awake))
              λ (node', es') v' (f'', ms, q'). (f'', ms, Quiet-trans q q')
