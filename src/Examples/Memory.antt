-- ===== src/Examples/Memory.antt =====
-- The functions on memory, at concrete lists.
use sve.Base.{
  ℕ, ◌≡◌, refl, Bool, Option, none, some, [], ◌∷◌, arith, eqb, if◌then◌else◌, ℤ, pos, ◌==◌,
}
use sve.State.{DsuSocket, sockets_remove_fd, sockets_search_fd, fd_list_add, fd_list_remove}
use sve.State.Heap.{
  Ptr, null, Node, node, Store, link_last, unlink_first, find_first, transfer_node, sweep,
}
use sve.State.Heap.Chain.{Returns, Cells, contents, nil, cons, IsList, Only}
use sve.State.Heap.Links.{Freed}
use sve.State.Heap.Refines.{
  has_fd, Holds, Transferred, unlink_first-sockets_remove_fd, find_first-sockets_search_fd,
  transfer_node-sockets_transfer_fd,
}
use sve.State.Heap.Sweep.{is_fd, swept, sweep-swept, connections_refine}
use sve.Examples.Kernels.{comm_socket}

abbrev socket_at : ℤ → DsuSocket
socket_at fd = record comm_socket { fd = fd }

-- Two sockets at 10 and 11, and one bind at 20.
abbrev node_at : Ptr → Option (Node DsuSocket)
node_at p =
    if eqb p 10
    then some (node (socket_at (pos 5)) 11)
    else if eqb p 11
    then some (node (socket_at (pos 6)) null)
    else if eqb p 20
    then some (node (socket_at (pos 3)) null)
    else none

abbrev memory : Store DsuSocket
memory = record { heads = λ v. if eqb v 0 then 10 else 20; cells = node_at }

abbrev unbound : Cells DsuSocket
unbound = (10, socket_at (pos 5)) ∷ (11, socket_at (pos 6)) ∷ []

abbrev bound : Cells DsuSocket
bound = (20, socket_at (pos 3)) ∷ []

unbound-IsList : IsList memory 0 unbound
unbound-IsList = record { chain = cons refl refl refl (cons refl refl refl (nil refl)) }

bound-IsList : IsList memory 1 bound
bound-IsList = record { chain = cons refl refl refl (nil refl) }

unlink_first-sockets_remove_fd_example :
    Returns
      (λ _ s'.
        (ys : Cells DsuSocket) × IsList s' 0 ys
        × (contents ys ≡ sockets_remove_fd (contents unbound) (pos 6))
        × Only 0 unbound memory s'
        × Freed unbound ys s')
      (unlink_first (has_fd (pos 6)) 3 0 memory)
unlink_first-sockets_remove_fd_example =
    unlink_first-sockets_remove_fd 3 0 (pos 6) memory unbound unbound-IsList (omega arith)

find_first-sockets_search_fd_example :
    Returns
      (λ p s'. (s' ≡ memory) × Holds memory p (sockets_search_fd (contents unbound) (pos 6)))
      (find_first (has_fd (pos 6)) 3 (memory.heads 0) memory)
find_first-sockets_search_fd_example =
    find_first-sockets_search_fd 3 0 (pos 6) memory unbound unbound-IsList (omega arith)

transfer_node-sockets_transfer_fd_example :
    Returns
      (Transferred 1 0 bound unbound (socket_at (pos 6)) 30)
      (transfer_node 3 1 0 30 11 memory)
transfer_node-sockets_transfer_fd_example =
    transfer_node-sockets_transfer_fd 3 1 0 30 11 null (socket_at (pos 6)) memory bound unbound
      bound-IsList unbound-IsList refl (λ a i. ground arith) refl refl refl refl refl (omega arith)
      (omega arith)

-- Connections 7, 8 and 7 again.
abbrev connected : Store ℤ
connected = record {
  heads = λ v. 40;
  cells = λ p.
      if eqb p 40
      then some (node (pos 7) 41)
      else if eqb p 41
      then some (node (pos 8) 42)
      else if eqb p 42
      then some (node (pos 7) null)
      else none;
}

abbrev connections : Cells ℤ
connections = (40, pos 7) ∷ (41, pos 8) ∷ (42, pos 7) ∷ []

connections-IsList : IsList connected 0 connections
connections-IsList = record {
  chain = cons refl refl refl (cons refl refl refl (cons refl refl refl (nil refl)));
}

abbrev closes_seven : ℕ → ℤ → Bool
closes_seven rounds fd = fd == pos 7

sweep-swept_example :
    Returns
      (λ _ s'.
        (ys : Cells ℤ) × IsList s' 0 ys
        × (contents ys ≡ swept closes_seven 4 (contents connections) (contents connections)))
      (sweep closes_seven 4 4 0 (connected.heads 0) connected)
sweep-swept_example =
    sweep-swept closes_seven 4 0 connected connections connections-IsList (omega arith)

swept_test : swept closes_seven 4 (contents connections) (contents connections) ≡ pos 8 ∷ []
unfolding swept fd_list_remove ◌==◌
swept_test = refl

connections_refine_example :
    Returns
      (λ _ s'.
        (ys : Cells ℤ) × IsList s' 0 ys
        × (contents ys ≡ fd_list_add (contents connections) (pos 9)))
      (link_last 4 0 50 (pos 9) connected)
    × Returns
        (λ _ s'.
          (ys : Cells ℤ) × IsList s' 0 ys
          × (contents ys ≡ fd_list_remove (contents connections) (pos 9))
          × Freed connections ys s')
        (unlink_first (is_fd (pos 9)) 4 0 connected)
connections_refine_example =
    connections_refine 4 0 50 (pos 9) connected connections connections-IsList refl refl
      (omega arith)
