-- ===== src/State.antt =====
-- src/state.h and src/state.c: the shadow data structure of a socket, and the lists of them.
-- A chain of nodes is the list of its nodes' contents, first node first. A pointer to a node that a
-- search returns is that node's content, and a write through it is `sockets_update_fd`. `malloc`
-- succeeds.
pub mod Lists
pub mod Search
pub mod Transfer
pub mod Evolves
pub mod Heap
use sve.Base.{
  ℕ, Bool, false, ◌&&◌, ◌||◌, Option, none, some, List, [], ◌∷◌, eqb, ◌==◌, if◌then◌else◌, ℤ, pos,
  minus_one,
}

-- struct sockaddr_un
pub record SockaddrUn : Type 0 where
  pub sun_family : ℕ
  pub sun_path : List ℕ

-- struct dsu_socket_list, less its `next`. `ready` is only ever 0 or 1.
pub record DsuSocket : Type 0 where
  pub fd : ℤ
  pub port : ℤ
  pub fds : List ℤ
  pub comfd_addr : SockaddrUn
  pub comfds : List ℤ
  pub comfd : ℤ
  pub comfd_close : ℤ
  pub readyfd : ℤ
  pub markreadyfd : ℤ
  pub ready : Bool

-- DSU_NON_INTERNAL_FD, DSU_INTERNAL_FD and DSU_MONITOR_FD of core.h
abbrev pub non_internal_fd : ℕ
non_internal_fd = 0

abbrev pub internal_fd : ℕ
internal_fd = 1

abbrev pub monitor_fd : ℕ
monitor_fd = 2

-- The argument is the memory as it was: `markreadyfd` and `comfd_addr` keep what they held.
unfoldable pub socket_list_init : DsuSocket → DsuSocket
socket_list_init dsu_socket = record dsu_socket {
  port = pos 0;
  fd = minus_one;
  fds = [];
  comfd = minus_one;
  comfd_close = minus_one;
  comfds = [];
  readyfd = minus_one;
  ready = false;
}

-- The new list. The node that was added is its last.
unfoldable pub sockets_add : List DsuSocket → DsuSocket → List DsuSocket
sockets_add [] new_node = new_node ∷ []
sockets_add (node ∷ next) new_node = node ∷ sockets_add next new_node

unfoldable pub sockets_remove_fd : List DsuSocket → ℤ → List DsuSocket
sockets_remove_fd [] sockfd = []
sockets_remove_fd (node ∷ next) sockfd =
    if node.fd == sockfd then next else node ∷ sockets_remove_fd next sockfd

-- The new `dest` and the new `src`.
unfoldable pub sockets_transfer_fd :
    List DsuSocket → List DsuSocket → DsuSocket → List DsuSocket × List DsuSocket
unfolding sockets_add sockets_remove_fd
sockets_transfer_fd dest src dsu_socketfd =
    (sockets_add dest dsu_socketfd, sockets_remove_fd src dsu_socketfd.fd)

unfoldable pub sockets_search_fd : List DsuSocket → ℤ → Option DsuSocket
sockets_search_fd [] sockfd = none
sockets_search_fd (head ∷ next) sockfd =
    if head.fd == sockfd then some head else sockets_search_fd next sockfd

unfoldable pub sockets_search_port : List DsuSocket → ℤ → Option DsuSocket
sockets_search_port [] port = none
sockets_search_port (head ∷ next) port =
    if head.port == port then some head else sockets_search_port next port

-- A write through the pointer that `sockets_search_fd` returns.
unfoldable pub sockets_update_fd : List DsuSocket → ℤ → (DsuSocket → DsuSocket) → List DsuSocket
sockets_update_fd [] sockfd write = []
sockets_update_fd (head ∷ next) sockfd write =
    if head.fd == sockfd then write head ∷ next else head ∷ sockets_update_fd next sockfd write

-- The walk to the end of a list of file descriptors, and the link there.
unfoldable pub fd_list_add : List ℤ → ℤ → List ℤ
fd_list_add [] comfd = comfd ∷ []
fd_list_add (fd ∷ next) comfd = fd ∷ fd_list_add next comfd

-- The walk to the first node with the file descriptor, and its removal.
unfoldable pub fd_list_remove : List ℤ → ℤ → List ℤ
fd_list_remove [] comfd = []
fd_list_remove (fd ∷ next) comfd = if fd == comfd then next else fd ∷ fd_list_remove next comfd

unfoldable pub socket_add_fds : DsuSocket → ℤ → ℕ → DsuSocket
unfolding fd_list_add
socket_add_fds node comfd flag =
    if eqb flag internal_fd
    then record node { comfds = fd_list_add node.comfds comfd }
    else record node { fds = fd_list_add node.fds comfd }

unfoldable pub socket_remove_fds : DsuSocket → ℤ → ℕ → DsuSocket
unfolding fd_list_remove
socket_remove_fds node comfd flag =
    if eqb flag internal_fd
    then record node { comfds = fd_list_remove node.comfds comfd }
    else record node { fds = fd_list_remove node.fds comfd }

-- The walk of `dsu_sockets_search_fds` over one list of file descriptors.
unfoldable pub fd_list_has : List ℤ → ℤ → Bool
fd_list_has [] sockfd = false
fd_list_has (fd ∷ next) sockfd = fd == sockfd || fd_list_has next sockfd

unfoldable pub sockets_search_fds : List DsuSocket → ℤ → ℕ → Option DsuSocket
unfolding fd_list_has
sockets_search_fds [] sockfd flag = none
sockets_search_fds (node ∷ next) sockfd flag =
    if eqb flag non_internal_fd && fd_list_has node.fds sockfd
    then some node
    else if eqb flag monitor_fd && (node.comfd == sockfd)
    then some node
    else if eqb flag internal_fd && fd_list_has node.comfds sockfd
    then some node
    else sockets_search_fds next sockfd flag
