-- ===== src/Examples/Lists.antt =====
-- The theorems on the lists of sockets, at concrete lists.
use mathlib.Core.List.{Perm}
use sve.Base.{◌≡◌, refl, some, [], ◌∷◌, pos, ◌==◌}
use sve.State.{DsuSocket, internal_fd, sockets_transfer_fd, sockets_search_fd, sockets_search_fds}
use sve.State.Transfer.{both, transfer-perm, transfer-search}
use sve.Examples.Kernels.{comm_socket}

abbrev other_socket : DsuSocket
other_socket = record comm_socket { fd = pos 5; port = pos 443; comfds = [] }

search_fds_test :
    sockets_search_fds (other_socket ∷ comm_socket ∷ []) (pos 6) internal_fd ≡ some comm_socket
unfolding sockets_search_fds ◌==◌
search_fds_test = refl

transfer-perm_example :
    Perm
      (both (sockets_transfer_fd (other_socket ∷ []) (comm_socket ∷ []) comm_socket))
      (both (other_socket ∷ [], comm_socket ∷ []))
unfolding sockets_search_fd ◌==◌
transfer-perm_example =
    transfer-perm (other_socket ∷ []) (comm_socket ∷ []) comm_socket comm_socket refl

transfer-search_example :
    (sockets_search_fd
        (sockets_transfer_fd (other_socket ∷ []) (comm_socket ∷ []) comm_socket).0
        (pos 3)
      ≡ some comm_socket)
    × (sockets_search_fd
          (sockets_transfer_fd (other_socket ∷ []) (comm_socket ∷ []) comm_socket).0
          (pos 5)
        ≡ sockets_search_fd (other_socket ∷ []) (pos 5))
    × (sockets_search_fd
          (sockets_transfer_fd (other_socket ∷ []) (comm_socket ∷ []) comm_socket).1
          (pos 5)
        ≡ sockets_search_fd (comm_socket ∷ []) (pos 5))
unfolding sockets_search_fd ◌==◌
transfer-search_example =
    transfer-search (other_socket ∷ []) (comm_socket ∷ []) comm_socket (pos 5) refl refl
