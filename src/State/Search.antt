-- ===== src/State/Search.antt =====
-- The searches of src/state.c against one description: the first node on which a test holds.
use sve.Base.{
  ℕ, ◌≡◌, refl, ◌⊎◌, inl, inr, Bool, true, false, ◌&&◌, Option, none, some, List, [], ◌∷◌, arith,
  eqb, if◌then◌else◌, ℤ, ◌==◌, ==_refl,
}
use sve.State.{
  DsuSocket, non_internal_fd, internal_fd, monitor_fd, sockets_search_fds, fd_list_has,
  socket_add_fds, socket_remove_fds,
}
use sve.State.Lists.{has-add, remove-add}

abbrev pub first_with : (DsuSocket → Bool) → List DsuSocket → Option DsuSocket
first_with p [] = none
first_with p (s ∷ xs) = if p s then some s else first_with p xs

-- The list of connections that a flag stands for.
abbrev pub connections : DsuSocket → ℕ → List ℤ
connections s flag = if eqb flag internal_fd then s.comfds else s.fds

-- Whether a node owns a descriptor in the role of the flag.
unfoldable pub owns : ℤ → ℕ → DsuSocket → Bool
owns fd flag s =
    if eqb flag monitor_fd
    then s.comfd == fd
    else if eqb flag internal_fd
    then fd_list_has s.comfds fd
    else eqb flag non_internal_fd && fd_list_has s.fds fd

-- For every flag, a flag that is none of the three included, `dsu_sockets_search_fds` finds the first
-- node that owns the descriptor in that role, and nothing where no node does.
pub search_fds-first_with :
    (xs : List DsuSocket) (fd : ℤ) (flag : ℕ)
    → sockets_search_fds xs fd flag ≡ first_with (owns fd flag) xs
unfolding sockets_search_fds owns
search_fds-first_with [] fd flag = refl
search_fds-first_with (s ∷ xs) fd flag = ground (arith, search_fds-first_with xs fd flag)

-- A connection that a node does not have yet, added and removed under the same flag, leaves the node
-- as it was; in between the node owns it under that flag, where the flag is one of the two for
-- connections.
pub add_remove_fds :
    (s : DsuSocket) (fd : ℤ) (flag : ℕ)
    → (flag ≡ internal_fd) ⊎ (flag ≡ non_internal_fd)
    → fd_list_has (connections s flag) fd ≡ false
    → (owns fd flag (socket_add_fds s fd flag) ≡ true)
      × (socket_remove_fds (socket_add_fds s fd flag) fd flag ≡ s)
unfolding owns socket_add_fds socket_remove_fds
add_remove_fds s fd flag (inl e) new =
    rw e (ground (arith, has-add s.comfds fd fd, remove-add s.comfds fd, ==_refl fd, new, e))
add_remove_fds s fd flag (inr e) new =
    rw e (ground (arith, has-add s.fds fd fd, remove-add s.fds fd, ==_refl fd, new, e))
