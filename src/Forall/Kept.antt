-- ===== src/Forall/Kept.antt =====
-- What a traversal of the binds does to them.
use sve.Base.{refl, ◌≡◌, ◌∙◌, List, [], ◌∷◌}
use sve.State.{DsuSocket}
use sve.State.Evolves.{Evolved, Evolved-refl, Evolved-trans}
use sve.Kernel.{Call, sys, Kernel, World, Prog}
use sve.Kernel.Runs
use sve.Kernel.Runs.{Ends, came_back}
use sve.Kernel.Stuck.{Stuck, sys-Stuck}
use sve.Kernel.Frame.{
  weaken, embed, Frame, Gives, Any, gives, chain, SameQueues, SameQueues-trans, SameState,
  SameState-refl, Quiet-SameState, lists_and_queues, with_correction,
}
use sve.Forall.{forall_sockets, forall_binds}

-- Node by node.
pub data AllEvolved : List DsuSocket → List DsuSocket → Type 0 where
  none_left : AllEvolved [] []
  next :
      {s t : DsuSocket} {xs ys : List DsuSocket}
      → Evolved s t
      → AllEvolved xs ys
      → AllEvolved (s ∷ xs) (t ∷ ys)

pub AllEvolved-refl : (xs : List DsuSocket) → AllEvolved xs xs
AllEvolved-refl [] = none_left
AllEvolved-refl (s ∷ xs) = next (Evolved-refl s) (AllEvolved-refl xs)

pub AllEvolved-trans :
    {xs ys zs : List DsuSocket} → AllEvolved xs ys → AllEvolved ys zs → AllEvolved xs zs
AllEvolved-trans none_left none_left = none_left
AllEvolved-trans (next p ps) (next q qs) = next (Evolved-trans p q) (AllEvolved-trans ps qs)

module _ {k : Kernel} (F : Frame k) {S : Type 0} (y : DsuSocket → S → Prog (DsuSocket × S)) where
  -- The function keeps to the frame, and its node is the one that it was given.
  abbrev pub KeepsNodes : Type 0
  KeepsNodes = (s : DsuSocket) (x : S) → Gives F (λ (node, x'). Evolved s node) (y s x)

  forall_sockets-AllEvolved :
      KeepsNodes
      → (xs : List DsuSocket) (x : S)
      → Gives F (λ (nodes, x'). AllEvolved xs nodes) (forall_sockets y xs x)
  unfolding forall_sockets
  forall_sockets-AllEvolved keeps [] x = gives F none_left
  forall_sockets-AllEvolved keeps (s ∷ xs) x = chain F (keeps s x) λ (node, x') e.
      chain F (forall_sockets-AllEvolved keeps xs x') λ (nodes, x'') es. gives F (next e es)

  -- The function keeps to the frame and leaves its node alone.
  abbrev pub LeavesNodes : Type 0
  LeavesNodes = (s : DsuSocket) (x : S) → Gives F (λ (node, x'). node ≡ s) (y s x)

  forall_sockets-same :
      LeavesNodes
      → (xs : List DsuSocket) (x : S) → Gives F (λ (nodes, x'). nodes ≡ xs) (forall_sockets y xs x)
  unfolding forall_sockets
  forall_sockets-same leaves [] x = gives F refl
  forall_sockets-same leaves (s ∷ xs) x = chain F (leaves s x) λ (node, x') e.
      chain F (forall_sockets-same leaves xs x') λ (nodes, x'') es. gives F (rw (e, es) refl)

  pub LeavesNodes-KeepsNodes : LeavesNodes → KeepsNodes
  LeavesNodes-KeepsNodes leaves s x = weaken F (leaves s x) λ r e. rw e (Evolved-refl s)

  -- The frame allows any write to the binds.
  pub forall_binds-Kept :
      ((nodes : List DsuSocket) (w : World) → F.Rel w (record w { binds = nodes }))
      → KeepsNodes
      → (x : S) → Gives F Any (forall_binds y x)
  unfolding forall_binds
  forall_binds-Kept allows keeps x w =
      Runs.bind-Ends (forall_sockets-AllEvolved keeps w.binds x w)
        λ (nodes, x') v (es, r). came_back (tt, F.then_after r (allows nodes v))

-- The binds have evolved; the unbound sockets and the pairs are as they were.
pub record Served (w v : World) : Type 0 where
  pub binds : AllEvolved w.binds v.binds
  pub sockets : v.sockets ≡ w.sockets
  pub queues : SameQueues w v

pub Served-trans : {u v w : World} → Served u v → Served v w → Served u w
Served-trans p q = record {
  binds = AllEvolved-trans p.binds q.binds;
  sockets = q.sockets ∙ p.sockets;
  queues = SameQueues-trans p.queues q.queues;
}

pub SameState-Served : {w v : World} → SameState w v → Served w v
SameState-Served {w} {v} (lists, queues) = record {
  binds = rw lists.binds (AllEvolved-refl w.binds);
  sockets = lists.sockets;
  queues = queues;
}

-- The correction is not part of it.
abbrev pub serving : (k : Kernel) → Frame k
serving k = record {
  Rel = Served;
  same = λ w. SameState-Served (SameState-refl w);
  then_after = Served-trans;
  called = λ e c. SameState-Served (Quiet-SameState c.quiet);
  Stays = Stuck k;
  stays = λ stuck. stuck;
}

-- Nor is it pending behind, where it is not before.
abbrev pub settling : (k : Kernel) → Frame k
settling k = record {
  Rel = λ w v. Served w v × (w.correction ≡ 0 → v.correction ≡ 0);
  same = λ w. (SameState-Served (SameState-refl w), λ settled. settled);
  then_after = λ (p, f) (q, g). (Served-trans p q, λ settled. g (f settled));
  called =
      λ e c. (SameState-Served (Quiet-SameState c.quiet), λ settled. c.quiet.correction ∙ settled);
  Stays = Stuck k;
  stays = λ stuck. stuck;
}

pub keeps-settling :
    (k : Kernel) {A : Type 0} {P : A → Type 0} {m : Prog A}
    → Gives (with_correction k) P m
    → Gives (settling k) P m
keeps-settling k =
    embed (with_correction k) (settling k)
      (λ w v r. (SameState-Served r.0, λ settled. r.1 ∙ settled)) λ v q. q

pub settling-waits : (k : Kernel) (call : Call) → Gives (settling k) Any (sys k call)
settling-waits k call w =
    Runs.mono-Ends (sys-Stuck k call w)
      (λ r v c.
        (tt, (SameState-Served (Quiet-SameState c.quiet), λ settled. c.quiet.correction ∙ settled)))
      λ v q. q

rewritten :
    {w v : World} {nodes : List DsuSocket}
    → SameState w v × (v.correction ≡ w.correction)
    → nodes ≡ w.binds
    → SameState w (record v { binds = nodes }) × (v.correction ≡ w.correction)
rewritten ((lists, queues), correction) e = (
  (
    record { sockets = lists.sockets; binds = e },
    record {
      close = queues.close;
      accept = queues.accept;
      ping = queues.ping;
      wakeup = queues.wakeup;
      activate = queues.activate;
      deactivate = queues.deactivate;
    },
  ),
  correction,
)

rebound :
    {w v : World} {nodes : List DsuSocket}
    → SameState w v
    → AllEvolved w.binds nodes
    → Served w (record v { binds = nodes })
rebound (lists, queues) es = record {
  binds = es;
  sockets = lists.sockets;
  queues = record {
    close = queues.close;
    accept = queues.accept;
    ping = queues.ping;
    wakeup = queues.wakeup;
    activate = queues.activate;
    deactivate = queues.deactivate;
  };
}

module _ (k : Kernel) {S : Type 0} (y : DsuSocket → S → Prog (DsuSocket × S)) where
  pub forall_binds-Served :
      KeepsNodes (lists_and_queues k) y → (x : S) → Gives (serving k) Any (forall_binds y x)
  unfolding forall_binds
  forall_binds-Served keeps x w =
      Runs.bind-Ends (forall_sockets-AllEvolved (lists_and_queues k) y keeps w.binds x w)
        λ r v (es, same). came_back (tt, rebound same es)

  pub forall_binds-settling :
      KeepsNodes (with_correction k) y → (x : S) → Gives (settling k) Any (forall_binds y x)
  unfolding forall_binds
  forall_binds-settling keeps x w =
      Runs.bind-Ends (forall_sockets-AllEvolved (with_correction k) y keeps w.binds x w)
        λ r v (es, same). came_back (tt, (rebound same.0 es, λ settled. same.1 ∙ settled))

  pub forall_binds-same :
      LeavesNodes (with_correction k) y → (x : S) → Gives (with_correction k) Any (forall_binds y x)
  unfolding forall_binds
  forall_binds-same leaves x w =
      Runs.bind-Ends (forall_sockets-same (with_correction k) y leaves w.binds x w)
        λ r v (es, same). came_back (tt, rewritten same es)
