-- ===== src/Select/Application.antt =====
-- What the wrapper of select leaves to the application: the handlers take only their own descriptors
-- out of the set. src/event_handlers/select.c.
use sve.Base.{
  ◌≡◌, refl, Bool, true, false, arith, ◌&&◌, Option, List, [], ◌∷◌, ℤ, minus_one, ◌==◌, ==_iff,
  is_positive, if◌then◌else◌,
}
use sve.State.{SockaddrUn, DsuSocket, internal_fd, fd_list_has, socket_add_fds, socket_remove_fds}
use sve.State.Lists.{All}
use sve.State.Evolves.{accepted-Evolved}
use sve.Kernel.{Kernel, World, FdSet, FdSets, Prog}
use sve.Kernel.Runs
use sve.Kernel.Runs.{Ends, came_back, Returns, returns_with, Responsive}
use sve.Kernel.Frame.{Gives, gives, chain, calls, replies, branch, lists_and_queues}
use sve.Kernel.Stuck.{Stuck}
use sve.Forall.{forall_sockets, forall_binds}
use sve.Messages.{Answer, hang_up, ignore, mark_ready, send_fds, answer_to}
use sve.Messages.Foreign.{Foreign, NeverAccepts, accept-Foreign, remove-Foreign}
use sve.Messages.Kept.{send_both-Kept, send_ready-Kept, tell_ready-Kept}
use sve.Select.Sets.{isset-clr}
use sve.Select.Hidden.{finish-Hidden}
use sve.Select.Kept.{correct-Kept, corrected}
use sve.Select.{
  clr, isset, serve, respond, respond_all, accept_internal, handle_conn, take_ready, hide_public,
  signal_ready, post_select, take_correction, finish,
}

-- The node has no use for the descriptor, not even as its public socket.
pub record Apart (x : ℤ) (s : DsuSocket) : Type 0 where
  pub foreign : Foreign x s
  pub public : (x == s.fd) ≡ false

abbrev pub AllApart : ℤ → List DsuSocket → Type 0
AllApart x = All (Apart x)

-- Still apart, and the descriptor is in the set or not, as before.
abbrev Left : ℤ → Bool → DsuSocket × Option FdSet → Type 0
Left x b (s, readfds) = Apart x s × (isset x readfds ≡ b)

clr-isset :
    {b : Bool} (x fd : ℤ) (readfds : Option FdSet)
    → (x == fd) ≡ false
    → isset x readfds ≡ b
    → isset x (clr fd readfds) ≡ b
clr-isset x fd readfds other here = rw (isset-clr fd x readfds, other) here

remove-Apart :
    {x : ℤ} {s : DsuSocket} (fd : ℤ) → Apart x s → Apart x (socket_remove_fds s fd internal_fd)
unfolding socket_remove_fds
remove-Apart fd a = record { foreign = remove-Foreign fd a.foreign; public = a.public }

accept-Apart :
    {x : ℤ} (b : Bool) (s : DsuSocket) (fd : ℤ) (peer : SockaddrUn)
    → (fd == x) ≡ false
    → Apart x s
    → Apart x (if b then s else socket_add_fds (record s { comfd_addr = peer }) fd internal_fd)
accept-Apart b s fd peer ne a = record {
  foreign = accept-Foreign b s fd peer ne a.foreign;
  public = rw (accepted-Evolved b s fd internal_fd peer).fd a.public;
}

module _ (k : Kernel) (x : ℤ) (b : Bool) where
  abbrev Leaves : (DsuSocket → Option FdSet → Prog (DsuSocket × Option FdSet)) → Type 0
  Leaves y =
      (s : DsuSocket) (readfds : Option FdSet)
      → Left x b (s, readfds)
      → Gives (lists_and_queues k) (Left x b) (y s readfds)

  serve-Leaves : (fd : ℤ) (answer : Answer) → (x == fd) ≡ false → Leaves (serve k fd answer)
  unfolding serve
  serve-Leaves fd hang_up other s readfds (a, here) =
      chain (lists_and_queues k) (calls (lists_and_queues k) _ refl) λ closed _.
        gives (lists_and_queues k) (remove-Apart fd a, clr-isset x fd readfds other here)
  serve-Leaves fd ignore other s readfds l = gives (lists_and_queues k) l
  serve-Leaves fd mark_ready other s readfds (a, here) =
      chain (lists_and_queues k) (send_ready-Kept (lists_and_queues k) s) λ _ _.
        chain (lists_and_queues k) (calls (lists_and_queues k) _ refl)
          λ closed _. gives (lists_and_queues k) (remove-Apart fd a, here)
  serve-Leaves fd (send_fds port) other s readfds l =
      chain (lists_and_queues k) (send_both-Kept (lists_and_queues k) s fd port)
        λ _ _. gives (lists_and_queues k) l

  respond-Leaves : (fd : ℤ) → (x == fd) ≡ false → Leaves (respond k fd)
  unfolding respond
  respond-Leaves fd other s readfds (a, here) =
      chain (lists_and_queues k) (correct-Kept (lists_and_queues k) (corrected k)) λ _ _.
        chain (lists_and_queues k) (calls (lists_and_queues k) _ refl) λ r _ w.
          serve-Leaves fd (answer_to r w.errno s.port) other s (clr fd readfds)
            (a, clr-isset x fd readfds other here) w

  respond_all-Leaves : (fds : List ℤ) → fd_list_has fds x ≡ false → Leaves (respond_all k fds)
  unfolding respond_all fd_list_has
  respond_all-Leaves [] none_has s readfds l = gives (lists_and_queues k) l
  respond_all-Leaves (fd ∷ fds) none_has s readfds l =
      chain (lists_and_queues k)
        (branch (lists_and_queues k) (isset fd readfds)
          (respond-Leaves fd (ground (arith, ==_iff x fd, ==_iff fd x)) s readfds l)
          (gives (lists_and_queues k) l))
        λ (node, readfds') l'. respond_all-Leaves fds (ground arith) node readfds' l'

  module _ (never : NeverAccepts k x) where
    accept_internal-Leaves : Leaves (accept_internal k)
    unfolding accept_internal
    accept_internal-Leaves s readfds (a, here) =
        chain (lists_and_queues k) (correct-Kept (lists_and_queues k) (corrected k)) λ _ _.
          chain (lists_and_queues k) (replies (lists_and_queues k) _ refl) λ acc (log, e).
            gives (lists_and_queues k) (
              accept-Apart (acc.value == minus_one) s acc.value acc.peer (rw e (never log s.comfd))
                  a,
              clr-isset x s.comfd readfds a.foreign.comfd here,
            )

    handle_conn-Leaves : Leaves (handle_conn k)
    unfolding handle_conn
    handle_conn-Leaves s readfds l =
        chain (lists_and_queues k)
          (branch (lists_and_queues k) (isset s.comfd readfds) (accept_internal-Leaves s readfds l)
            (gives (lists_and_queues k) l))
          λ (node, readfds') l'. respond_all-Leaves node.comfds l'.0.foreign.comfds node readfds' l'

  take_ready-Leaves : Leaves (take_ready k)
  unfolding take_ready
  take_ready-Leaves s readfds (a, here) =
      branch (lists_and_queues k) (isset s.readyfd readfds)
        (chain (lists_and_queues k) (correct-Kept (lists_and_queues k) (corrected k)) λ _ _.
          gives (lists_and_queues k) (
            record { foreign = moved a.foreign; public = a.public },
            clr-isset x s.readyfd readfds a.foreign.readyfd here,
          ))
        (gives (lists_and_queues k) (a, here))
    where
      moved : Foreign x s → Foreign x (record s { ready = true })
      moved f = record { comfd = f.comfd; readyfd = f.readyfd; comfds = f.comfds }

  hide_public-Leaves : Leaves (hide_public k)
  unfolding hide_public
  hide_public-Leaves s readfds (a, here) =
      branch (lists_and_queues k) (isset s.fd readfds && s.ready)
        (chain (lists_and_queues k) (correct-Kept (lists_and_queues k) (corrected k))
          λ _ _. gives (lists_and_queues k) (a, clr-isset x s.fd readfds a.public here))
        (gives (lists_and_queues k) (a, here))

  signal_ready-Leaves : Leaves (signal_ready k)
  unfolding signal_ready
  signal_ready-Leaves s readfds (a, here) =
      branch (lists_and_queues k) (isset s.fd readfds && is_positive s.comfd_close)
        (chain (lists_and_queues k) (tell_ready-Kept (lists_and_queues k) s)
          λ node e. gives (lists_and_queues k) (rw e (moved a), here))
        (gives (lists_and_queues k) (a, here))
    where
      moved : Apart x s → Apart x (record s { comfd_close = minus_one })
      moved b = record {
        foreign = record {
          comfd = b.foreign.comfd;
          readyfd = b.foreign.readyfd;
          comfds = b.foreign.comfds;
        };
        public = b.public;
      }

  post_select-Leaves : Leaves (post_select k)
  unfolding post_select
  post_select-Leaves s readfds l =
      chain (lists_and_queues k) (take_ready-Leaves s readfds l) λ (node, readfds') l'.
        chain (lists_and_queues k) (hide_public-Leaves node readfds' l')
          λ (node', readfds'') l''. signal_ready-Leaves node' readfds'' l''

  module _ (y : DsuSocket → Option FdSet → Prog (DsuSocket × Option FdSet))
      (leaves : Leaves y) where
    forall_sockets-Leaves :
        (xs : List DsuSocket) (readfds : Option FdSet)
        → AllApart x xs
        → isset x readfds ≡ b
        → Gives
            (lists_and_queues k)
            (λ (nodes, readfds'). AllApart x nodes × (isset x readfds' ≡ b))
            (forall_sockets y xs readfds)
    unfolding forall_sockets
    forall_sockets-Leaves [] readfds apart here = gives (lists_and_queues k) (tt, here)
    forall_sockets-Leaves (s ∷ xs) readfds (a, apart) here =
        chain (lists_and_queues k) (leaves s readfds (a, here)) λ (node, readfds') (a', here').
          chain (lists_and_queues k) (forall_sockets-Leaves xs readfds' apart here')
            λ (nodes, readfds'') (apart', here''). gives (lists_and_queues k) ((a', apart'), here'')

    forall_binds-Leaves :
        (readfds : Option FdSet) (w : World)
        → AllApart x w.binds
        → isset x readfds ≡ b
        → Ends
            (λ readfds' v. AllApart x v.binds × (isset x readfds' ≡ b))
            (Stuck k)
            (forall_binds y readfds w)
    unfolding forall_binds
    forall_binds-Leaves readfds w apart here =
        Runs.bind-Ends (forall_sockets-Leaves w.binds readfds apart here w)
          λ r v (l, _). came_back l

  pub finish-Leaves :
      (result : ℤ) (sets : FdSets) (w : World)
      → NeverAccepts k x
      → AllApart x w.binds
      → isset x sets.read_set ≡ b
      → Ends
          (λ (_, sets') v. AllApart x v.binds × (isset x sets'.read_set ≡ b))
          (Stuck k)
          (finish k result sets w)
  unfolding finish take_correction
  finish-Leaves result sets w never apart here =
      Runs.bind-Ends
        (forall_binds-Leaves (handle_conn k) (handle_conn-Leaves never) sets.read_set w apart here)
        λ readfds v (apart', here').
          Runs.bind-Ends
            (forall_binds-Leaves (post_select k) post_select-Leaves readfds v apart' here')
            λ readfds' v' (apart'', here''). came_back (apart'', here'')

-- Where the system answers the calls that do not wait, and never gives out the descriptor as a new
-- connection: behind the handlers, a descriptor of the application that no bind has a use for is in the
-- caller's read set exactly if the system's select has left it there.
pub finish-isset :
    (k : Kernel) (x result : ℤ) (sets : FdSets) (w : World)
    → Responsive k
    → NeverAccepts k x
    → AllApart x w.binds
    → Returns
        (λ (_, sets') v. isset x sets'.read_set ≡ isset x sets.read_set)
        (finish k result sets w)
finish-isset k x result sets w responsive never apart =
    Runs.mono
      (returns_with (finish-Hidden k result sets w responsive)
        (finish-Leaves k x (isset x sets.read_set) result sets w never apart refl))
      λ r v (_, (_, here)). here
