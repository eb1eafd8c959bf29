-- ===== src/Epoll/Returned.antt =====
-- What dsu_post_epoll returns to the application.
use mathlib.Core.List.{Sublistᴰ}
use sve.Base.{
  ℕ, zero, suc, ◌≤◌, ◌≡◌, refl, ap, Bool, true, false, List, [], ◌∷◌, arith, if◌then◌else◌, ℤ, pos,
  minus_one, ◌==◌, ==_iff, length, take, keep,
}
use sve.State.{DsuSocket}
use sve.Kernel.{Kernel, Call, World, EpollEvent}
use sve.Kernel.Runs
use sve.Kernel.Runs.{
  Returns, returns, Responsive, Quiet, Quiet-refl, Quiet-trans, is_prompt, prompt-Returns,
}
use sve.Kernel.Frame.{SameState, Quiet-SameState, with_correction}
use sve.Forall.Kept.{forall_binds-same}
use sve.Messages.Foreign.{Foreigns, NeverAccepts}
use sve.Epoll.Kept.{remove_internal-LeavesNodes}
use sve.Forall.{forall_sockets, forall_binds}
use sve.Epoll.{sys_all, del_all, remove_calls, remove_internal, handle_conn_epoll, post_epoll}
use sve.Epoll.Compact.{data_fd, clear_fd, correct_events}
use sve.Epoll.Compact.Filter.{unmarked, correct_events-keep}
use sve.Epoll.Application.{
  same, cleared, Marks, none_left, next, Marks-refl, Marks-trans, handle_conn_epoll-HandledAll,
}

-- The events on one descriptor.
abbrev pub on : ℤ → EpollEvent → Bool
on x e = data_fd e == x

clear-data_fd : (e : EpollEvent) → data_fd (clear_fd e) ≡ minus_one
unfolding clear_fd data_fd
clear-data_fd e = ground arith

picked-Sublist :
    (b : Bool) (e : EpollEvent) {xs ys : List EpollEvent}
    → Sublistᴰ xs ys
    → Sublistᴰ (if b then e ∷ xs else xs) (e ∷ ys)
picked-Sublist true e p = Sublistᴰ.cons-cons refl p
picked-Sublist false e p = Sublistᴰ.cons p

module _ {x : ℤ} where
  Marks-take :
      (n : ℕ) {es es' : List EpollEvent} → Marks x es es' → Marks x (take n es) (take n es')
  Marks-take zero m = none_left
  Marks-take (suc n) none_left = none_left
  Marks-take (suc n) (next m ms) = next m (Marks-take n ms)

  Marks-length : {es es' : List EpollEvent} → Marks x es es' → length es' ≡ length es
  Marks-length none_left = refl
  Marks-length (next m ms) = ap suc (Marks-length ms)

  Marks-on :
      {es es' : List EpollEvent}
      → (x == minus_one) ≡ false
      → Marks x es es'
      → keep (on x) (keep unmarked es') ≡ keep (on x) es
  unfolding ◌==◌
  Marks-on valid none_left = refl
  Marks-on valid (next {e} same ms) = ground (arith, Marks-on valid ms, ==_iff (data_fd e) x, valid)
  Marks-on valid (next {e} (cleared other) ms) = rw (clear-data_fd e, other) (Marks-on valid ms)

  Marks-Sublist : {es es' : List EpollEvent} → Marks x es es' → Sublistᴰ (keep unmarked es') es
  unfolding ◌==◌
  Marks-Sublist none_left = Sublistᴰ.slnil
  Marks-Sublist (next {e} same ms) = picked-Sublist (unmarked e) e (Marks-Sublist ms)
  Marks-Sublist (next {e} (cleared other) ms) =
      rw (clear-data_fd e) (Sublistᴰ.cons (Marks-Sublist ms))

-- The library has no use for the descriptor.
pub record Spared (x : ℤ) (w : World) : Type 0 where
  pub binds : Foreigns x w.binds
  pub awake : (x == w.wakeup) ≡ false

pub SameState-Spared : {x : ℤ} {w v : World} → SameState w v → Spared x w → Spared x v
SameState-Spared (lists, queues) spared = record {
  binds = rw lists.binds spared.binds;
  awake = rw queues.wakeup spared.awake;
}

AllPrompt : List Call → Type 0
AllPrompt [] = Unit
AllPrompt (call ∷ calls) = (is_prompt call ≡ true) × AllPrompt calls

del_all-AllPrompt : (epfd : ℤ) (fds : List ℤ) → AllPrompt (del_all epfd fds)
unfolding del_all AllPrompt
del_all-AllPrompt epfd [] = tt
del_all-AllPrompt epfd (fd ∷ fds) = (refl, del_all-AllPrompt epfd fds)

module _ (k : Kernel) (responsive : Responsive k) where
  sys_all-Returns :
      (calls : List Call) (w : World) → AllPrompt calls → Returns (λ _ _. Unit) (sys_all k calls w)
  unfolding sys_all AllPrompt
  sys_all-Returns [] w p = returns tt
  sys_all-Returns (call ∷ calls) w (p, ps) =
      Runs.bind (prompt-Returns k responsive call w p) λ _ v _. sys_all-Returns calls v ps

  remove_internal-Returns :
      (epfd : ℤ) (s : DsuSocket) (w : World) → Returns (λ _ _. Unit) (remove_internal k epfd s tt w)
  unfolding remove_internal remove_calls AllPrompt
  remove_internal-Returns epfd s w =
      Runs.bind (sys_all-Returns (remove_calls epfd s) w (refl, del_all-AllPrompt epfd s.comfds))
        λ _ v _. returns tt

  remove_all-Returns :
      (epfd : ℤ) (xs : List DsuSocket) (w : World)
      → Returns (λ _ _. Unit) (forall_sockets (remove_internal k epfd) xs tt w)
  unfolding forall_sockets
  remove_all-Returns epfd [] w = returns tt
  remove_all-Returns epfd (s ∷ xs) w =
      Runs.bind (remove_internal-Returns epfd s w)
        λ _ v _. Runs.bind (remove_all-Returns epfd xs v) λ _ v' _. returns tt

  module _ (x : ℤ) (never : NeverAccepts k x) (epfd nfds : ℤ) where
    forall_sockets-Marks :
        (xs : List DsuSocket) (es : List EpollEvent) (w : World)
        → Foreigns x xs
        → (x == w.wakeup) ≡ false
        → Returns
            (λ (nodes, es') v. Foreigns x nodes × Marks x es es' × Quiet w v)
            (forall_sockets (handle_conn_epoll k epfd nfds) xs es w)
    unfolding forall_sockets
    forall_sockets-Marks [] es w fs awake = returns (tt, Marks-refl x es, Quiet-refl w)
    forall_sockets-Marks (s ∷ xs) es w (f, fs) awake =
        Runs.bind (handle_conn_epoll-HandledAll k responsive x never epfd nfds s es w f awake)
          λ (node, es') v (f', m, q).
            Runs.bind (forall_sockets-Marks xs es' v fs (rw q.wakeup awake))
              λ (nodes, es'') v' (fs', m', q').
                returns ((f', fs'), Marks-trans m m', Quiet-trans q q')

  forall_binds-Marks :
      (x : ℤ) (epfd nfds : ℤ) (es : List EpollEvent) (w : World)
      → NeverAccepts k x
      → Spared x w
      → Returns
          (λ es' v. Marks x es es' × Spared x v)
          (forall_binds (handle_conn_epoll k epfd nfds) es w)
  unfolding forall_binds
  forall_binds-Marks x epfd nfds es w never spared =
      Runs.bind (forall_sockets-Marks x never epfd nfds w.binds es w spared.binds spared.awake)
        λ (nodes, es') v (fs, m, q).
          returns (m, record { binds = fs; awake = rw q.wakeup spared.awake })

  remove_binds-Spared :
      (x epfd : ℤ) (w : World)
      → Spared x w
      → Returns (λ _ v. Spared x v) (forall_binds (remove_internal k epfd) tt w)
  unfolding forall_binds
  remove_binds-Spared x epfd w spared =
      Runs.mono
        (Runs.returns_with
          (Runs.bind {Q = λ _ _. Unit} (remove_all-Returns epfd w.binds w)
            λ (nodes, _) v _. returns tt)
          (forall_binds-same k (remove_internal k epfd)
            (remove_internal-LeavesNodes (with_correction k) epfd) tt w))
        λ _ v (_, (_, kept)). SameState-Spared kept.0 spared

keep-keep : (es : List EpollEvent) → keep unmarked (keep unmarked es) ≡ keep unmarked es
keep-keep [] = refl
keep-keep (e ∷ es) = ground (arith, keep-keep es)

-- What the application finds of `n` reported events: `m` of them, unchanged and in order, none of them
-- marked as the library's own, and all of those on the descriptor `x`.
pub record Delivered (x : ℤ) (n : ℕ) (events : List EpollEvent) (nfds : ℤ)
    (events' : List EpollEvent) : Type 0 where
  pub m : ℕ
  pub number : nfds ≡ pos m
  pub reported : Sublistᴰ (take m events') (take n events)
  pub clean : keep unmarked (take m events') ≡ take m events'
  pub complete : keep (on x) (take m events') ≡ keep (on x) (take n events)

pub corrected-Delivered :
    {x : ℤ} (n : ℕ) (es es' : List EpollEvent)
    → n ≤ length es
    → (x == minus_one) ≡ false
    → Marks x es es'
    → Delivered x n es (correct_events (pos n) es').0 (correct_events (pos n) es').1
corrected-Delivered {x} n es es' fits valid marks =
    let c = correct_events-keep n es' (omega (arith, Marks-length marks)) in
    record {
      m = c.0;
      number = c.1;
      reported = rw c.2.1 (Marks-Sublist (Marks-take n marks));
      clean = rw c.2.1 (keep-keep (take n es'));
      complete = rw c.2.1 (Marks-on valid (Marks-take n marks));
    }

-- The handlers behind the system's epoll_wait, whatever it has returned.
pub post_epoll-Marks :
    (k : Kernel) (epfd x nfds : ℤ) (events : List EpollEvent) (w : World)
    → Responsive k
    → NeverAccepts k x
    → Spared x w
    → Returns
        (λ r v.
          ((es' : List EpollEvent) × Marks x events es' × (r ≡ correct_events nfds es'))
          × Spared x v)
        (post_epoll k epfd nfds events w)
unfolding post_epoll
post_epoll-Marks k epfd x nfds events w responsive never spared =
    Runs.bind (forall_binds-Marks k responsive x epfd nfds events w never spared)
      λ es' v (marks, spared'). Runs.bind (prompt-Returns k responsive _ v refl) λ _ v' c.
        Runs.bind
          (remove_binds-Spared k responsive x epfd v'
            (SameState-Spared (Quiet-SameState c.quiet) spared'))
          λ _ v'' spared''. returns ((es', marks, refl), spared'')

-- Where the system answers the calls that do not wait, the handlers behind the system's epoll_wait come
-- back. Of the `n` events that were reported, the application finds some, unchanged and in their order,
-- and none that is marked as the library's own. It finds all the events on a valid descriptor that is
-- not the wake-up descriptor nor any bind's own, and that the system does not give out as a new
-- connection meanwhile.
pub post_epoll-Delivered :
    (k : Kernel) (epfd x : ℤ) (n : ℕ) (events : List EpollEvent) (w : World)
    → Responsive k
    → NeverAccepts k x
    → n ≤ length events
    → (x == minus_one) ≡ false
    → Foreigns x w.binds
    → (x == w.wakeup) ≡ false
    → Returns
        (λ (nfds, events') v. Delivered x n events nfds events')
        (post_epoll k epfd (pos n) events w)
post_epoll-Delivered k epfd x n events w responsive never fits valid fs awake =
    Runs.mono
      (post_epoll-Marks k epfd x (pos n) events w responsive never
        (record { binds = fs; awake = awake }))
      λ r v ((es', marks, e), _). rw e (corrected-Delivered n events es' fits valid marks)
