-- ===== src/Epoll/Result.antt =====
-- The wrapper of epoll_wait as a whole: src/event_handlers/epoll.c.
use mathlib.Core.List.{append-nil}
use sve.Base.{
  ◌+◌, ℕ, zero, suc, ◌≤◌, ◌≡◌, refl, ◌⊎◌, inl, inr, Bool, true, false, ◌&&◌, List, ◌++◌, arith, ℤ,
  pos, minus_one, ◌==◌, ==_iff, is_negative, pos_part, length, take, keep,
}
use sve.Kernel.{Kernel, Call, Log, World, EpollEvent, Reply, Run}
use sve.Kernel.Runs
use sve.Kernel.Runs.{
  Returns, returns, Ends, came_back, did_not, Responsive, Called, returns_with, along_with,
  if_program-Ends,
}
use sve.Kernel.Stuck.{Stuck, sys-Stuck}
use sve.Kernel.Frame.{Quiet-SameState}
use sve.Messages.Foreign.{NeverAccepts}
use sve.Epoll.{post_epoll, epoll_wait}
use sve.Epoll.Compact.{correct_events}
use sve.Epoll.Compact.Filter.{unmarked}
use sve.Epoll.Reported.{
  reported, Since, Since-refl, Since-trans, Called-Since, Silent, Silent-trans, go_live-SparesIt,
  terminate-SparesIt, pre_epoll-SparesIt, post_epoll-unreporting,
}
use sve.Epoll.Application.{Marks}
use sve.Epoll.Returned.{on, Spared, SameState-Spared, post_epoll-Marks, corrected-Delivered}

-- What the system's epoll_wait promises: -1, or the number of events in the array.
abbrev pub Fills : Kernel → Type 0
Fills k =
    (log : Log) (epfd maxevents timeout : ℤ)
    → ((k log (Call.epoll_wait epfd maxevents timeout)).value ≡ minus_one)
      ⊎ ((n : ℕ) × ((k log (Call.epoll_wait epfd maxevents timeout)).value ≡ pos n)
          × (n ≤ length (k log (Call.epoll_wait epfd maxevents timeout)).ready_events))

-- What epoll_wait has done, where it comes back: the events on `x` that it leaves to the application are
-- all those that the system has reported meanwhile.
pub record Waited (k : Kernel) (x timeout : ℤ) (w : World) (nfds : ℤ) (events : List EpollEvent)
    (v : World) : Type 0 where
  pub spared : Spared x v
  pub complete :
      reported k x v.log ≡ reported k x w.log ++ keep (on x) (take (pos_part nfds) events)
  pub clean : keep unmarked (take (pos_part nfds) events) ≡ take (pos_part nfds) events
  pub not_empty : (nfds == pos 0 && is_negative timeout) ≡ false

-- One round: what is left of the array that the system has filled.
record Round (k : Kernel) (x : ℤ) (w : World) (nfds : ℤ) (events : List EpollEvent) (v : World)
    : Type 0 where
  spared : Spared x v
  complete : reported k x v.log ≡ reported k x w.log ++ keep (on x) (take (pos_part nfds) events)
  once : Since 1 w v
  clean : keep unmarked (take (pos_part nfds) events) ≡ take (pos_part nfds) events

module _ (k : Kernel) (x : ℤ) (responsive : Responsive k) (never : NeverAccepts k x)
    (valid : (x == minus_one) ≡ false) (fills : Fills k) where
  abbrev Corrected : ℤ → List EpollEvent → ℤ × List EpollEvent → Type 0
  Corrected value es (nfds, events) =
      (keep (on x) (take (pos_part nfds) events) ≡ keep (on x) (take (pos_part value) es))
      × (keep unmarked (take (pos_part nfds) events) ≡ take (pos_part nfds) events)

  correct_events-Corrected :
      (value : ℤ) (es es' : List EpollEvent)
      → Marks x es es'
      → (value ≡ minus_one) ⊎ ((n : ℕ) × (value ≡ pos n) × (n ≤ length es))
      → Corrected value es (correct_events value es')
  unfolding correct_events
  correct_events-Corrected value es es' marks (inl e) = rw e (refl, refl)
  correct_events-Corrected value es es' marks (inr (n, e, fits)) =
      let d = corrected-Delivered n es es' fits valid marks in
      rw (e, d.number) (d.complete, d.clean)

  -- The system's epoll_wait and the handlers behind it.
  call-Round :
      (epfd maxevents timeout : ℤ) (w v : World) (r : Reply)
      → Spared x w
      → Called k (Call.epoll_wait epfd maxevents timeout) w r v
      → Returns
          (λ (nfds, events) u. Round k x w nfds events u)
          (post_epoll k epfd r.value r.ready_events v)
  call-Round epfd maxevents timeout w v r spared c =
      Runs.mono
        (returns_with
          (post_epoll-Marks k epfd x r.value r.ready_events v responsive never
            (SameState-Spared (Quiet-SameState c.quiet) spared))
          (post_epoll-unreporting k x epfd r.value r.ready_events v))
        λ (nfds, events) u (((es', marks, e), spared'), (_, (quiet, since))).
          let corrected : Corrected r.value r.ready_events (nfds, events) = rw e (
            correct_events-Corrected r.value r.ready_events es' marks
              (rw c.reply (fills w.log epfd maxevents timeout))) in
          let reports : reported k x v.log
              ≡ reported k x w.log ++ keep (on x) (take (pos_part r.value) r.ready_events) =
            rw (c.logged, c.reply) refl in
          record {
            spared = spared';
            complete = rw (quiet, reports, corrected.0) refl;
            once = Since-trans (Called-Since c) since;
            clean = corrected.1;
          }

  negative : (b : Bool) {c : Bool} → (b && c) ≡ true → c ≡ true
  negative b {c} e = ground arith

  -- Why epoll_wait stays away: the system does not answer, or, with a negative timeout, the rounds run
  -- out and none of them had an event.
  abbrev Away : ℤ → ℕ → World → World → Type 0
  Away timeout rounds w v = ((is_negative timeout ≡ true) × Silent k x rounds w v) ⊎ Stuck k v

  away :
      {A : Type 0} {Q : A → World → Type 0} {run : Run A} (timeout : ℤ) (rounds : ℕ) (w : World)
      → Ends Q (Stuck k) run
      → Ends Q (Away timeout rounds w) run
  away timeout rounds w ends = Runs.mono-Ends ends (λ a v q. q) λ v stuck. inr stuck

  -- A round without an event for the application.
  empty-Silent :
      (b : Bool) (nfds : ℤ) {events : List EpollEvent} {w z : World}
      → (nfds == pos 0 && b) ≡ true
      → Round k x w nfds events z
      → Silent k x 1 w z
  empty-Silent b nfds {w} empty round =
      let zero : nfds ≡ pos 0 = (==_iff nfds (pos 0)).0 (ground arith) in
      (rw (round.complete, zero) (append-nil (reported k x w.log)), round.once)

  Waited-behind :
      {timeout nfds : ℤ} {events : List EpollEvent} {w z v : World} {n : ℕ}
      → Silent k x n w z
      → Waited k x timeout z nfds events v
      → Waited k x timeout w nfds events v
  Waited-behind (e, since) waited = record {
    spared = waited.spared;
    complete = rw (waited.complete, e) refl;
    clean = waited.clean;
    not_empty = waited.not_empty;
  }

  Away-behind :
      (timeout : ℤ) {rounds : ℕ} {w z v : World}
      → Silent k x 1 w z
      → Away timeout rounds z v
      → Away timeout (suc rounds) w v
  Away-behind timeout {rounds} before (inl (e, behind)) =
      let next : rounds + 1 ≡ suc rounds = omega arith in
      inl (e, rw next at (Silent-trans k x before behind))
  Away-behind timeout before (inr stuck) = inr stuck

  -- An epoll_wait of which one more round is known.
  round-Waited :
      (fuel : ℕ) (epfd maxevents timeout : ℤ) (w : World)
      → Spared x w
      → (is_negative timeout ≡ true
          → (v : World) → Spared x v
          → Ends
              (λ (nfds, events) u. Waited k x timeout v nfds events u)
              (Away timeout fuel v)
              (epoll_wait k fuel epfd maxevents timeout v))
      → Ends
          (λ (nfds, events) v. Waited k x timeout w nfds events v)
          (Away timeout (suc fuel) w)
          (epoll_wait k (suc fuel) epfd maxevents timeout w)
  unfolding epoll_wait
  round-Waited fuel epfd maxevents timeout w spared again =
      Runs.bind-Ends (away timeout (suc fuel) w (go_live-SparesIt k x w spared)) λ _ v (s, e).
        Runs.bind-Ends (away timeout (suc fuel) w (terminate-SparesIt k x v s)) λ _ v' (s', e').
          Runs.bind-Ends (away timeout (suc fuel) w (pre_epoll-SparesIt k x epfd v' s'))
            λ _ u (s'', e''). Runs.bind-Ends (away timeout (suc fuel) w (sys-Stuck k _ u)) λ r u' c.
              Runs.bind_returns-Ends (call-Round epfd maxevents timeout u u' r s'' c)
                λ (nfds, events) z round.
                  if_program-Ends (nfds == pos 0 && is_negative timeout) _ _ z
                    (λ empty.
                      let before =
                        Silent-trans k x (Silent-trans k x e (Silent-trans k x e' e''))
                          (empty-Silent _ nfds empty round) in
                      Runs.mono-Ends (again (negative (nfds == pos 0) empty) z round.spared)
                        (λ _ _ waited. Waited-behind before waited)
                        λ _ stays. Away-behind timeout before stays)
                    λ some_left. came_back (record {
                      spared = round.spared;
                      complete = rw (round.complete, e''.0, e'.0, e.0) refl;
                      clean = round.clean;
                      not_empty = some_left;
                    })

  -- Where the system answers the calls that do not wait, fills the array as it promises, and never gives
  -- out the descriptor as a new connection: if epoll_wait comes back, then the events on a descriptor for
  -- which the library has no use are all there, in order. Those that the application finds are those
  -- that the system has reported in any round meanwhile; no event it finds is marked as the library's own;
  -- and with a negative timeout the number of events is not 0. It stays away only if the last call is one
  -- that the system does not answer or an exit behind a socket pair that could not be made, or, with a
  -- negative timeout, if the rounds run out, each with one call of the system's epoll_wait, and none of
  -- them has reported an event on the descriptor.
  pub epoll_wait-Waited :
      (fuel : ℕ) (epfd maxevents timeout : ℤ) (w : World)
      → Spared x w
      → Ends
          (λ (nfds, events) v. Waited k x timeout w nfds events v)
          (λ v. ((is_negative timeout ≡ true) × Silent k x (suc fuel) w v) ⊎ Stuck k v)
          (epoll_wait k (suc fuel) epfd maxevents timeout w)
  unfolding epoll_wait
  epoll_wait-Waited zero epfd maxevents timeout w spared =
      round-Waited zero epfd maxevents timeout w spared
        λ e v _. did_not (inl (e, (refl, Since-refl v)))
  epoll_wait-Waited (suc fuel) epfd maxevents timeout w spared =
      round-Waited (suc fuel) epfd maxevents timeout w spared
        λ _ v. epoll_wait-Waited fuel epfd maxevents timeout v
