-- ===== src/Epoll/Registered.antt =====
-- What the library asks of the epoll instance: src/event_handlers/epoll.c, dsu_epoll_internal_conn.
use sve.Base.{
  ◌≡◌, refl, sym, Bool, false, not, ◌&&◌, ◌||◌, List, [], ◌∷◌, ◌++◌, if◌then◌else◌, arith, ℤ, ◌==◌,
}
use sve.State.{DsuSocket, fd_list_has}
use sve.Kernel.{Kernel, Call, Log, World, Prog}
use sve.Kernel.Runs
use sve.Kernel.Runs.{Ends, came_back, Quiet, Quiet-refl, Quiet-trans}
use sve.Kernel.Stuck.{Stuck, sys-Stuck, mono-Stuck}
use sve.Epoll.{remove_calls, remove_internal, sys_all}
use sve.Forall.{forall_sockets, forall_binds}

-- Whether the last that was asked of the instance `ep` about the descriptor `x`, behind one call, is to
-- report it under its own number: the calls alone, as the source ignores their results.
abbrev pub asked_by : (ep x : ℤ) → Call → Bool → Bool
asked_by ep x (Call.epoll_add epollfd fd mask data_fd) b =
    if epollfd == ep && fd == x then data_fd == x else b
asked_by ep x (Call.epoll_del epollfd fd) b = if epollfd == ep && fd == x then false else b
asked_by ep x call b = b

unfoldable pub asked : (ep x : ℤ) → Log → Bool
asked ep x [] = false
asked ep x (call ∷ log) = asked_by ep x call (asked ep x log)

-- The record behind some more calls, and the descriptor behind them.
abbrev pub made : List Call → Log → Log
made [] log = log
made (call ∷ calls) log = made calls (call ∷ log)

abbrev pub asked_by_all : (ep x : ℤ) → List Call → Bool → Bool
asked_by_all ep x [] b = b
asked_by_all ep x (call ∷ calls) b = asked_by_all ep x calls (asked_by ep x call b)

pub asked-made :
    (ep x : ℤ) (calls : List Call) (log : Log)
    → asked ep x (made calls log) ≡ asked_by_all ep x calls (asked ep x log)
unfolding asked
asked-made ep x [] log = refl
asked-made ep x (call ∷ calls) log = asked-made ep x calls (call ∷ log)

-- The bind waits for messages or connections on `x`, or has left it to the newer version.
unfoldable pub wanted : ℤ → DsuSocket → Bool
wanted x s = fd_list_has s.comfds x || (not s.ready && (s.comfd == x || s.readyfd == x))

unfoldable pub dropped : ℤ → DsuSocket → Bool
dropped x s = s.ready && (s.comfd == x || (s.readyfd == x || s.fd == x))

-- The calls for each bind in order.
unfoldable pub for_all : (DsuSocket → List Call) → List DsuSocket → List Call
for_all calls [] = []
for_all calls (s ∷ xs) = calls s ++ for_all calls xs

made-append : (cs ds : List Call) (log : Log) → made (cs ++ ds) log ≡ made ds (made cs log)
made-append [] ds log = refl
made-append (c ∷ cs) ds log = made-append cs ds (c ∷ log)

pub asked_by_all-append :
    (ep x : ℤ) (cs ds : List Call) (b : Bool)
    → asked_by_all ep x (cs ++ ds) b ≡ asked_by_all ep x ds (asked_by_all ep x cs b)
asked_by_all-append ep x [] ds b = refl
asked_by_all-append ep x (c ∷ cs) ds b = asked_by_all-append ep x cs ds (asked_by ep x c b)

-- The calls were made in order, and else all is as it was.
abbrev pub Made : List Call → World → World → Type 0
Made calls w v = (v.log ≡ made calls w.log) × Quiet w v

module _ (k : Kernel) where
  sys_all-Made :
      (calls : List Call) (w : World) → Ends (λ _ v. Made calls w v) (Stuck k) (sys_all k calls w)
  unfolding sys_all
  sys_all-Made [] w = came_back (refl, Quiet-refl w)
  sys_all-Made (call ∷ calls) w = Runs.bind-Ends (sys-Stuck k call w) λ _ v c.
      mono-Stuck (sys_all-Made calls v) λ _ u (e, q). (rw c.logged at e, Quiet-trans c.quiet q)

  -- A pass over nodes that makes the calls of each and leaves the node.
  module _ (y : DsuSocket → Unit {0} → Prog (DsuSocket × Unit {0}))
      (calls : ℤ → DsuSocket → List Call)
      (makes : (s : DsuSocket) (w : World)
        → Ends (λ (node, _) v. (node ≡ s) × Made (calls w.wakeup s) w v) (Stuck k) (y s tt w)) where
    forall_sockets-Made :
        (xs : List DsuSocket) (w : World)
        → Ends
            (λ (nodes, _) v. (nodes ≡ xs) × Made (for_all (calls w.wakeup) xs) w v)
            (Stuck k)
            (forall_sockets y xs tt w)
    unfolding forall_sockets for_all
    forall_sockets-Made [] w = came_back (refl, (refl, Quiet-refl w))
    forall_sockets-Made (s ∷ xs) w = Runs.bind-Ends (makes s w) λ (node, _) v (e, (l, q)).
        Runs.bind-Ends (forall_sockets-Made xs v) λ (nodes, _) u (es, (ls, qs)). came_back (
          rw (e, es) refl,
          (rw (ls, l, q.wakeup) (sym (made-append (calls w.wakeup s) _ w.log)), Quiet-trans q qs),
        )

    pub forall_binds-Made :
        (w : World)
        → Ends (λ _ v. Made (for_all (calls w.wakeup) w.binds) w v) (Stuck k) (forall_binds y tt w)
    unfolding forall_binds
    forall_binds-Made w =
        Runs.bind-Ends (forall_sockets-Made w.binds w)
          λ (nodes, _) v (e, (l, q)). came_back (l, ground arith)

  pub remove_internal-Made :
      (epfd : ℤ) (s : DsuSocket) (w : World)
      → Ends
          (λ (node, _) v. (node ≡ s) × Made (remove_calls epfd s) w v)
          (Stuck k)
          (remove_internal k epfd s tt w)
  unfolding remove_internal
  remove_internal-Made epfd s w =
      Runs.bind-Ends (sys_all-Made (remove_calls epfd s) w) λ _ v m. came_back (refl, m)
