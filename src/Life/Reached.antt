-- ===== src/Life/Reached.antt =====
-- What holds whenever the application has control: after the constructor of src/core.c, and any calls of
-- the functions that src/core.c and src/event_handlers put in place of the system's.
use sve.Base.{refl, ◌≡◌, ◌∙◌, some, ℤ, is_negative}
use sve.State.{DsuSocket, sockets_search_fd}
use sve.State.Evolves.{Evolved}
use sve.Kernel.{World, Kernel, Run, ok}
use sve.Kernel.Runs
use sve.Kernel.Runs.{Ends, came_back, did_not}
use sve.Kernel.Frame.{Gives, Any, gives, chain, calls, loose, branch, with_correction}
use sve.Core.Wrappers.{exit_failure, socketpair, dsu_init}
use sve.Select.{pselect}
use sve.Select.Kept.{select-Kept}
use sve.Epoll.{epoll_create, epoll_create1}
use sve.Epoll.Kept.{epoll_wait-Kept}
use sve.Life.{
  Request, to_socket, to_bind, to_accept, to_accept4, to_close, to_signal, to_sigaction, to_select,
  to_pselect, to_epoll_create, to_epoll_create1, to_epoll_wait, perform, Step, performs, outside,
  Reaches, start, then_step, IsSound, Progress,
}
use sve.Life.Calls.{
  Lives, Lives-refl, Lives-trans, Quiet-living, living, waits-living, socket-living, bind-living,
  accept-living, accept4-living, close-living, signal-living, sigaction-living,
}
use sve.Life.Growth.{search-Grown}

module _ (k : Kernel) where
  create-living : (size : ℤ) → Gives (living k) Any (epoll_create k size)
  unfolding epoll_create
  create-living size = chain (living k) (calls (living k) _ refl) λ r _. gives (living k) tt

  create1-living : (flags : ℤ) → Gives (living k) Any (epoll_create1 k flags)
  unfolding epoll_create1
  create1-living flags = chain (living k) (calls (living k) _ refl) λ r _. gives (living k) tt

  perform-living : (request : Request) → Gives (living k) Any (perform k request)
  unfolding perform pselect
  perform-living (to_socket uninit domain type protocol) =
      chain (living k) (socket-living k uninit domain type protocol) λ _ _. gives (living k) tt
  perform-living (to_bind uninit sockfd addr) =
      chain (living k) (bind-living k uninit sockfd addr) λ _ _. gives (living k) tt
  perform-living (to_accept sockfd) =
      chain (living k) (accept-living k sockfd) λ _ _. gives (living k) tt
  perform-living (to_accept4 sockfd flags) =
      chain (living k) (accept4-living k sockfd flags) λ _ _. gives (living k) tt
  perform-living (to_close sockfd) =
      chain (living k) (close-living k sockfd) λ _ _. gives (living k) tt
  perform-living (to_signal signum) =
      chain (living k) (signal-living k signum) λ _ _. gives (living k) tt
  perform-living (to_sigaction signum) =
      chain (living k) (sigaction-living k signum) λ _ _. gives (living k) tt
  perform-living (to_select fuel nfds sets timeout) =
      chain (living k) (waits-living k (select-Kept k fuel nfds sets timeout))
        λ _ _. gives (living k) tt
  perform-living (to_pselect nfds) = gives (living k) tt
  perform-living (to_epoll_create size) =
      chain (living k) (create-living size) λ _ _. gives (living k) tt
  perform-living (to_epoll_create1 flags) =
      chain (living k) (create1-living flags) λ _ _. gives (living k) tt
  perform-living (to_epoll_wait fuel epfd maxevents timeout) =
      chain (living k) (waits-living k (epoll_wait-Kept k fuel epfd maxevents timeout))
        λ _ _. gives (living k) tt

-- The result of a run that came back.
at_end :
    {A : Type 0} {P : A → World → Type 0} {S : World → Type 0} {r : Run A} {a : A} {v : World}
    → Ends P S r
    → r ≡ ok a v
    → P a v
at_end {a} {v} (came_back {a = a'} {w} p) e =
    let value : a' ≡ a = cc in let world : w ≡ v = cc in rw (← value, ← world) p
at_end (did_not p) e = cc

Step-living : (k : Kernel) {w v : World} → Step k w v → Lives w v
Step-living k (performs request e) = (at_end (perform-living k request _) e).1
Step-living k (outside q) = Quiet-living q

Reaches-living : (k : Kernel) {w v : World} → Reaches k w v → Lives w v
Reaches-living k {w} start = Lives-refl w
Reaches-living k (then_step reaches step) =
    Lives-trans (Reaches-living k reaches) (Step-living k step)

module _ (k : Kernel) where
  socketpair-Kept : Gives (loose (with_correction k)) Any (socketpair k)
  unfolding socketpair exit_failure
  socketpair-Kept =
      chain (loose (with_correction k)) (calls (loose (with_correction k)) _ refl) λ r _.
        branch (loose (with_correction k)) (is_negative r.value) (λ w. did_not tt)
          (gives (loose (with_correction k)) tt)

  dsu_init-IsSound :
      (w : World) → w.correction ≡ 0 → Ends (λ _ v. IsSound v) (λ _. Unit) (dsu_init k w)
  unfolding dsu_init
  dsu_init-IsSound w settled = Runs.bind-Ends (socketpair-Kept _) λ pair v (_, (p, e)).
      Runs.bind-Ends (socketpair-Kept _) λ pair' v' (_, (p', e')).
        Runs.bind-Ends (socketpair-Kept _) λ pair'' v'' (_, (p'', e'')). came_back (record {
          sockets = rw (p''.0.sockets, p'.0.sockets, p.0.sockets) tt;
          binds = rw (p''.0.binds, p'.0.binds, p.0.binds) tt;
          settled = e'' ∙ e' ∙ e ∙ settled;
        })

-- In a process that begins with no correction pending, whatever the system and the other processes do,
-- and whatever the application calls after the constructor: whenever a call has come back, each unbound
-- socket has a positive descriptor and no port, no connection and no mark; each bound one has a positive
-- descriptor and a port of 16 bits; and no correction is pending.
pub reached-IsSound :
    (k : Kernel) (w v u : World)
    → w.correction ≡ 0
    → dsu_init k w ≡ ok tt v
    → Reaches k v u
    → IsSound u
reached-IsSound k w v u settled started reaches =
    (Reaches-living k reaches).1 (at_end (dsu_init-IsSound k w settled) started)

-- Whatever the system and the other processes do, and whatever the application calls: no bound socket is
-- lost. Those that were bound are still there, in their order and before any that came later, with the
-- same descriptors and port, and marked as served by the new version if they were; and the three pairs
-- of descriptors are as they were.
pub reached-Progress : (k : Kernel) (w v : World) → Reaches k w v → Progress w v
reached-Progress k w v reaches = (Reaches-living k reaches).0

-- A bound socket that the search finds by its descriptor is found at any later time, as it was up to its
-- connections, its mark, which may come but not go, and the announcement to the old version, which may
-- have been made.
pub search-reached :
    (k : Kernel) (w v : World) (fd : ℤ) (s : DsuSocket)
    → Reaches k w v
    → sockets_search_fd w.binds fd ≡ some s
    → (t : DsuSocket) × (sockets_search_fd v.binds fd ≡ some t) × Evolved s t
search-reached k w v fd s reaches found =
    search-Grown fd s (reached-Progress k w v reaches).binds found
