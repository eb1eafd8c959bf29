-- ===== src/Examples/Epolls.antt =====
-- The theorems on the array of events, at concrete arrays.
use sve.Base.{
  Bool, true, false, some_of, if◌then◌else◌, minus_one, is_negative, ◌⊎◌, inr, ◌≤◌, length, ℕ, ◌^◌,
  ◌-◌, ◌≡◌, refl, [], ◌∷◌, List, pos, arith, ◌==◌,
}
use sve.Kernel.{EpollEvent, Kernel, Call}
use sve.Kernel.Stuck.{Stuck}
use sve.Epoll.Result.{Waited, epoll_wait-Waited}
use sve.Epoll.Reported.{Silent}
use sve.Kernel.Runs.{Returns, Ends, Responsive}
use sve.Epoll.{post_epoll, epoll_wait}
use sve.Epoll.Compact.{correct_events}
use sve.Epoll.Returned.{Delivered, post_epoll-Delivered}
use sve.Epoll.Unlisted.{Unlisted}
use sve.Examples.Kernels.{reply, calm, calm-Responsive, running}
use sve.Epoll.Compact.Filter.{Kept, correct_events-keep}

abbrev event : ℕ → EpollEvent
event fd = record { events = 1; data_bits = fd }

abbrev marked : EpollEvent
marked = record { events = 1; data_bits = 2 ^ 32 - 1 }

abbrev array : List EpollEvent
array = event 3 ∷ marked ∷ marked ∷ event 7 ∷ event 9 ∷ []

correct_events-keep_example :
    (m : ℕ) × ((correct_events (pos 4) array).0 ≡ pos m)
    × Kept 4 array (m, (correct_events (pos 4) array).1)
correct_events-keep_example = correct_events-keep 4 array (omega arith)

correct_events_test :
    correct_events (pos 4) array ≡ (pos 2, event 3 ∷ event 7 ∷ event 7 ∷ event 7 ∷ event 9 ∷ [])
unfolding correct_events ◌==◌
correct_events_test = refl

-- A request on 4, an event of the application on 7, and a message on 6.
abbrev answered : List EpollEvent
answered = event 4 ∷ event 7 ∷ event 6 ∷ []

post_epoll-Delivered_example :
    Returns
      (λ (nfds, events') v. Delivered (pos 7) 3 answered nfds events')
      (post_epoll calm (pos 20) (pos 3) answered running)
unfolding ◌==◌ sve.State.fd_list_has
post_epoll-Delivered_example =
    post_epoll-Delivered calm (pos 20) (pos 7) 3 answered running calm-Responsive (λ log fd. refl)
      (omega arith) refl (record { comfd = refl; readyfd = refl; comfds = refl }, tt) refl

abbrev is_epoll_wait : Call → Bool
is_epoll_wait (Call.epoll_wait epfd maxevents timeout) = true
is_epoll_wait call = false

-- The first wait reports a request on 4 alone, and the ones behind it an event of the application on 7.
abbrev patient : Kernel
patient log (Call.epoll_wait epfd maxevents timeout) = record (reply (pos 1)) {
  ready_events = if some_of is_epoll_wait log then event 7 ∷ [] else event 4 ∷ [];
}
patient log call = calm log call

patient-Responsive : Responsive patient
patient-Responsive log (Call.epoll_wait epfd maxevents timeout) e = cc
patient-Responsive log call e = calm-Responsive log call e

one_event : (b : Bool) → 1 ≤ length (if b then event 7 ∷ [] else event 4 ∷ [])
one_event true = omega arith
one_event false = omega arith

epoll_wait-Waited_example :
    Ends
      (λ (nfds, events') v. Waited patient (pos 7) minus_one running nfds events' v)
      (λ v. ((is_negative minus_one ≡ true) × Silent patient (pos 7) 3 running v) ⊎ Stuck patient v)
      (epoll_wait patient 3 (pos 20) (pos 4) minus_one running)
unfolding ◌==◌ sve.State.fd_list_has
epoll_wait-Waited_example =
    epoll_wait-Waited patient (pos 7) patient-Responsive (λ log fd. refl) refl
      (λ log epfd maxevents timeout. inr (1, refl, one_event (some_of is_epoll_wait log))) 2
      (pos 20) (pos 4) minus_one running
      (record {
        binds = (record { comfd = refl; readyfd = refl; comfds = refl }, tt);
        awake = refl;
      })
