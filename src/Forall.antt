-- ===== src/Forall.antt =====
-- `dsu_forall_sockets` of src/state.h: a function on each node in order, that may write to the node
-- and to what the event handler passes on (a set or an array).
pub mod Kept
use sve.Base.{List, [], ◌∷◌}
use sve.State.{DsuSocket}
use sve.Kernel.{Prog, pure, ◌>>=◌, ◌>>◌, get, put}

module _ {S : Type 0} where
  unfoldable pub forall_sockets :
      (DsuSocket → S → Prog (DsuSocket × S)) → List DsuSocket → S → Prog (List DsuSocket × S)
  forall_sockets y [] s = pure ([], s)
  forall_sockets y (dsu_socket_loop ∷ next) s = do
    (node, s') ← y dsu_socket_loop s
    (nodes, s'') ← forall_sockets y next s'
    pure (node ∷ nodes, s'')

  -- The traversal of `dsu_program_state.binds`: the nodes are written in place.
  unfoldable pub forall_binds : (DsuSocket → S → Prog (DsuSocket × S)) → S → Prog S
  forall_binds y s = do
    w ← get
    (nodes, s') ← forall_sockets y w.binds s
    w' ← get
    put (record w' { binds = nodes })
    pure s'
