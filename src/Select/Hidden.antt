-- ===== src/Select/Hidden.antt =====
-- What the caller of `select` gets to see: the handlers take every descriptor of the library's own out
-- of the caller's set, and the public socket of a port that has been handed over.
use sve.Base.{Option, List, [], ◌∷◌, ℤ}
use sve.State.{DsuSocket}
use sve.Kernel.{Kernel, World, FdSet, FdSets, Prog}
use sve.Kernel.Runs
use sve.Kernel.Runs.{
  Returns, returns, Responsive, Quiet, Quiet-trans, Called, prompt-Returns, if_program-Returns,
}
use sve.Forall.{forall_sockets, forall_binds}
use sve.Select.{handle_conn, post_select, take_correction, finish}
use sve.State.Lists.{All}
use sve.Select.Handlers.{Fewer, Handled, Hidden, handle_conn-Handled, post_select-Hidden}

-- A property of nodes that a smaller set keeps, and a traversal that establishes it on every node.
abbrev pub Stable : (Option FdSet → DsuSocket → Type 0) → Type 0
Stable P =
    (before after : Option FdSet) (s : DsuSocket) → Fewer before after → P before s → P after s

All-map :
    (P Q : DsuSocket → Type 0) (xs : List DsuSocket)
    → ((s : DsuSocket) → P s → Q s)
    → All P xs
    → All Q xs
All-map P Q [] f h = tt
All-map P Q (s ∷ xs) f h = (f s h.0, All-map P Q xs f h.1)

module _ (P Q : Option FdSet → DsuSocket → Type 0) (P-Stable : Stable P) (Q-Stable : Stable Q)
    (y : DsuSocket → Option FdSet → Prog (DsuSocket × Option FdSet))
    (round : (s : DsuSocket) (readfds : Option FdSet) (w : World)
      → P readfds s
      → Returns
          (λ (node, readfds') w'. Q readfds' node × Fewer readfds readfds')
          (y s readfds w)) where
  forall_sockets-All :
      (xs : List DsuSocket) (readfds : Option FdSet) (w : World)
      → All (P readfds) xs
      → Returns
          (λ (nodes, readfds') w'. All (Q readfds') nodes × Fewer readfds readfds')
          (forall_sockets y xs readfds w)
  unfolding forall_sockets
  forall_sockets-All [] readfds w all = returns (tt, λ x h. h)
  forall_sockets-All (s ∷ xs) readfds w all =
      Runs.bind (round s readfds w all.0) λ (node, readfds') v (q, fewer).
        Runs.bind
          (forall_sockets-All xs readfds' v
            (All-map (P readfds) (P readfds') xs (λ t. P-Stable readfds readfds' t fewer) all.1))
          λ (nodes, readfds'') v' (qs, fewer').
            returns ((Q-Stable readfds' readfds'' node fewer' q, qs), λ x h. fewer' x (fewer x h))

  forall_binds-All :
      (readfds : Option FdSet) (w : World)
      → All (P readfds) w.binds
      → Returns
          (λ readfds' w'. All (Q readfds') w'.binds × Fewer readfds readfds')
          (forall_binds y readfds w)
  unfolding forall_binds
  forall_binds-All readfds w all =
      Runs.bind (forall_sockets-All w.binds readfds w all)
        λ (nodes, readfds') v (qs, fewer). returns (qs, fewer)

Handled-Stable : Stable Handled
Handled-Stable before after s fewer h = record {
  comfd = fewer s.comfd h.comfd;
  comfds = λ x e. fewer x (h.comfds x e);
}

Hidden-Stable : Stable Hidden
Hidden-Stable before after s fewer h = record {
  comfd = fewer s.comfd h.comfd;
  comfds = λ x e. fewer x (h.comfds x e);
  readyfd = fewer s.readyfd h.readyfd;
  public = λ e. fewer s.fd (h.public e);
}

All-unit : (xs : List DsuSocket) → All (λ _. Unit {0}) xs
All-unit [] = tt
All-unit (s ∷ xs) = (tt, All-unit xs)

-- Where the system answers the calls that do not wait, the handlers behind the system's `select` come
-- back, and in the caller's read set there is then no descriptor for requests, for the ready signal or
-- for a connection of another version, of any bind as it then is; nor the public socket of a bind that
-- is marked ready in the new version. They add nothing to the set.
pub finish-Hidden :
    (k : Kernel) (result : ℤ) (sets : FdSets) (w : World)
    → Responsive k
    → Returns
        (λ (_, sets') w'. All (Hidden sets'.read_set) w'.binds × Fewer sets.read_set sets'.read_set)
        (finish k result sets w)
unfolding finish take_correction
finish-Hidden k result sets w responsive =
    Runs.bind
      (forall_binds-All (λ _ _. Unit {0}) Handled (λ _ _ _ _ u. u) Handled-Stable (handle_conn k)
        (λ s r v _. handle_conn-Handled k responsive s r v) sets.read_set w (All-unit w.binds))
      λ readfds v (handled, fewer).
        Runs.bind
          (forall_binds-All Handled Hidden Handled-Stable Hidden-Stable (post_select k)
            (post_select-Hidden k responsive) readfds v handled)
          λ readfds' v' (hidden, fewer'). returns (hidden, λ x h. fewer' x (fewer x h))
