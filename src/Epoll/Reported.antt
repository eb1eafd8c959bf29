-- ===== src/Epoll/Reported.antt =====
-- The calls of the system's epoll_wait, and what they report: what src/event_handlers/epoll.c does to them
-- before and behind each.
use mathlib.Core.List.{append_assoc}
use sve.Base.{
  sym, ◌+◌, ℕ, suc, ◌≡◌, refl, ◌∙◌, Bool, true, false, List, [], ◌∷◌, ◌++◌, arith, if◌then◌else◌, ℤ,
  pos_part, take, keep,
}
use sve.Kernel.{Kernel, Call, Log, World, EpollEvent, Reply, Prog}
use sve.Kernel.Runs
use sve.Kernel.Runs.{
  Returns, returns, Ends, came_back, did_not, Responsive, Called, returns_with, along_with,
  if_program-Ends,
}
use sve.Kernel.Stuck.{Stuck}
use sve.Kernel.Frame.{
  Frame, is_wait, Gives, Any, gives, chain, calls, branch, writes, with_correction,
}
use sve.Core.Workers.Kept.{activate-Kept, terminate_if_done-Kept}
use sve.Core.Workers.{terminate_if_done}
use sve.Forall.Kept.{forall_binds-Kept, LeavesNodes-KeepsNodes}
use sve.Epoll.{
  epoll_internal_conn, remove_internal, handle_conn_epoll, pre_epoll, post_epoll, go_live_epoll,
}
use sve.Epoll.Kept
use sve.Epoll.Returned.{on, Spared, SameState-Spared}

-- The events on the descriptor `x` that the system's epoll_wait has reported so far, oldest first.
abbrev pub reported : Kernel → ℤ → Log → List EpollEvent
reported k x [] = []
reported k x (Call.epoll_wait epfd maxevents timeout ∷ log) =
    let r = k log (Call.epoll_wait epfd maxevents timeout) in
    reported k x log ++ keep (on x) (take (pos_part r.value) r.ready_events)
reported k x (call ∷ log) = reported k x log

reported-other :
    (k : Kernel) (x : ℤ) (call : Call) (log : Log)
    → is_wait call ≡ false
    → reported k x (call ∷ log) ≡ reported k x log
reported-other k x (Call.epoll_wait epfd maxevents timeout) log e = cc
reported-other k x call log e = refl

-- How often the system's epoll_wait has been called.
abbrev pub waits : Log → ℕ
waits [] = 0
waits (Call.epoll_wait epfd maxevents timeout ∷ log) = suc (waits log)
waits (call ∷ log) = waits log

waits-other : (call : Call) → is_wait call ≡ false → waits (call ∷ []) ≡ 0
waits-other (Call.epoll_wait epfd maxevents timeout) e = cc
waits-other call e = refl

waits-append : (log more : Log) → waits (log ++ more) ≡ waits log + waits more
waits-append [] more = omega arith
waits-append (Call.epoll_wait epfd maxevents timeout ∷ log) more =
    omega (arith, waits-append log more)
waits-append (call ∷ log) more = waits-append log more

-- The calls made from one world to the other, `n` of them calls of epoll_wait.
pub record Since (n : ℕ) (w v : World) : Type 0 where
  pub more : Log
  pub logged : v.log ≡ more ++ w.log
  pub rounds : waits more ≡ n

pub Since-refl : (w : World) → Since 0 w w
Since-refl w = record { more = []; logged = refl; rounds = refl }

-- A write to another global.
unlogged : (w : World) {v : World} → v.log ≡ w.log → Since 0 w v
unlogged w e = record { more = []; logged = e; rounds = refl }

pub Since-trans : {m n : ℕ} {u v w : World} → Since m u v → Since n v w → Since (n + m) u w
Since-trans {u} p q = record {
  more = q.more ++ p.more;
  logged = rw (q.logged, p.logged) (sym (append_assoc q.more p.more u.log));
  rounds = rw (waits-append q.more p.more, q.rounds, p.rounds) refl;
}

pub Called-Since :
    {k : Kernel} {call : Call} {w : World} {r : Reply} {v : World}
    → Called k call w r v
    → Since (waits (call ∷ [])) w v
Called-Since {call} c = record { more = call ∷ []; logged = c.logged; rounds = refl }

-- No event on the descriptor is reported meanwhile.
abbrev pub Silent : Kernel → ℤ → ℕ → World → World → Type 0
Silent k x n w v = (reported k x v.log ≡ reported k x w.log) × Since n w v

pub Silent-trans :
    (k : Kernel) (x : ℤ) {m n : ℕ} {u v w : World}
    → Silent k x m u v
    → Silent k x n v w
    → Silent k x (n + m) u w
Silent-trans k x (e, p) (e', q) = (e' ∙ e, Since-trans p q)

pub Called-Silent :
    {k : Kernel} {call : Call} {w : World} {r : Reply} {v : World} (x : ℤ)
    → is_wait call ≡ false
    → Called k call w r v
    → Silent k x 0 w v
Called-Silent {k} {call} {w} x e c =
    (rw c.logged (reported-other k x call w.log e), rw (← waits-other call e) (Called-Since c))

module _ (k : Kernel) (x : ℤ) where
  -- No event is reported.
  abbrev pub unreporting : Frame k
  unreporting = record {
    Rel = Silent k x 0;
    same = λ w. (refl, Since-refl w);
    then_after = Silent-trans k x;
    called = Called-Silent x;
    Stays = Stuck k;
    stays = λ stuck. stuck;
  }

  -- Nor does the library take the descriptor for itself.
  abbrev pub SparesIt : Prog (Unit {0}) → Type 0
  SparesIt m =
      (w : World) → Spared x w → Ends (λ _ v. Spared x v × Silent k x 0 w v) (Stuck k) (m w)

  spares :
      {m : Prog (Unit {0})} → Gives (with_correction k) Any m → Gives unreporting Any m → SparesIt m
  spares kept quiet w spared =
      Runs.mono-Ends (along_with (kept w) (quiet w))
        (λ _ v ((_, r), (_, e)). (SameState-Spared r.0 spared, e)) λ v stuck. stuck

  if_live :
      (active : Bool) (w : World)
      → unreporting.Rel w (if active then record w { live_epoll = true } else w)
  if_live true w = (refl, unlogged w refl)
  if_live false w = (refl, unlogged w refl)

  pub go_live-unreporting : Gives unreporting Any (go_live_epoll k)
  unfolding go_live_epoll
  go_live-unreporting w =
      branch unreporting w.live_epoll (gives unreporting tt)
        (chain unreporting (activate-Kept unreporting) λ active _.
          writes unreporting (λ v. if active then record v { live_epoll = true } else v)
            λ v. if_live active v)
        w

  pub go_live-SparesIt : SparesIt (go_live_epoll k)
  go_live-SparesIt = spares (Kept.go_live-Kept k) go_live-unreporting

  pub terminate-SparesIt : SparesIt (terminate_if_done k)
  terminate-SparesIt =
      spares (terminate_if_done-Kept (with_correction k)) (terminate_if_done-Kept unreporting)

  pub pre_epoll-unreporting : (epfd : ℤ) → Gives unreporting Any (pre_epoll k epfd)
  unfolding pre_epoll
  pre_epoll-unreporting epfd =
      forall_binds-Kept unreporting (epoll_internal_conn k epfd)
        (λ nodes w. (refl, unlogged w refl))
        (LeavesNodes-KeepsNodes unreporting (epoll_internal_conn k epfd)
          (Kept.internal_conn-LeavesNodes unreporting epfd))
        tt

  pub pre_epoll-SparesIt : (epfd : ℤ) → SparesIt (pre_epoll k epfd)
  pre_epoll-SparesIt epfd = spares (Kept.pre_epoll-Kept k epfd) (pre_epoll-unreporting epfd)

  -- The handlers report no event.
  pub post_epoll-unreporting :
      (epfd nfds : ℤ) (events : List EpollEvent)
      → Gives unreporting Any (post_epoll k epfd nfds events)
  unfolding post_epoll
  post_epoll-unreporting epfd nfds events =
      chain unreporting
        (forall_binds-Kept unreporting (handle_conn_epoll k epfd nfds)
          (λ nodes w. (refl, unlogged w refl)) (Kept.handle_conn-KeepsNodes unreporting epfd nfds)
          events)
        λ events' _ w.
          chain unreporting (calls unreporting _ refl)
            (λ deleted _.
              chain unreporting
                (forall_binds-Kept unreporting (remove_internal k epfd)
                  (λ nodes w. (refl, unlogged w refl))
                  (LeavesNodes-KeepsNodes unreporting (remove_internal k epfd)
                    (Kept.remove_internal-LeavesNodes unreporting epfd))
                  tt)
                λ done _. gives unreporting tt)
            w
