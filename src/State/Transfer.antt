-- ===== src/State/Transfer.antt =====
-- `dsu_sockets_transfer_fd`: a node passes from one list to another.
use mathlib.Core.List.{Perm, map-append, perm_middle, append_assoc}
use mathlib.Core.List.Perm
use sve.Base.{
  ◌≡◌, refl, false, Option, none, some, List, [], ◌∷◌, ◌++◌, map, ℤ, ◌==◌, ==_refl, ==_iff,
}
use sve.State.{DsuSocket, sockets_transfer_fd, sockets_search_fd}
use sve.State.Lists.{
  Found, or_else, sockets_add-append, search-append, search-Found, search-remove_other,
}

or_else-none : (o : Option DsuSocket) → or_else o none ≡ o
or_else-none none = refl
or_else-none (some s) = refl

abbrev pub fds_of : List DsuSocket → List ℤ
fds_of = map (λ s. s.fd)

-- The descriptors of both lists, of `dest` and of `src`.
abbrev pub both : List DsuSocket × List DsuSocket → List ℤ
both (dest, src) = fds_of dest ++ fds_of src

-- If `src` holds a node with the descriptor of the node handed over, then no descriptor is lost or
-- made up: the two lists hold the same descriptors as before, as often.
pub transfer-perm :
    (dest src : List DsuSocket) (n old : DsuSocket)
    → sockets_search_fd src n.fd ≡ some old
    → Perm (both (sockets_transfer_fd dest src n)) (both (dest, src))
unfolding sockets_transfer_fd
transfer-perm dest src n old e =
    rw
      (
        sockets_add-append dest n,
        map-append (λ (s : DsuSocket). s.fd) dest (n ∷ []),
        f.removed,
        f.split,
        map-append (λ (s : DsuSocket). s.fd) f.before f.after,
        map-append (λ (s : DsuSocket). s.fd) f.before (old ∷ f.after),
        (==_iff old.fd n.fd).0 f.matches,
        append_assoc,
      )
      (Perm.append_left (fds_of dest) (Perm.symm (perm_middle (fds_of f.before) (fds_of f.after))))
  where
    f : Found src n.fd old
    f = search-Found src n.fd old e

-- Afterwards `dest` finds the node under its descriptor, if it had none of that descriptor before,
-- and for every other descriptor both lists find what they found.
pub transfer-search :
    (dest src : List DsuSocket) (n : DsuSocket) (other : ℤ)
    → sockets_search_fd dest n.fd ≡ none
    → (n.fd == other) ≡ false
    → (sockets_search_fd (sockets_transfer_fd dest src n).0 n.fd ≡ some n)
      × (sockets_search_fd (sockets_transfer_fd dest src n).0 other ≡ sockets_search_fd dest other)
      × (sockets_search_fd (sockets_transfer_fd dest src n).1 other ≡ sockets_search_fd src other)
unfolding sockets_transfer_fd sockets_search_fd
transfer-search dest src n other new ne = (
  rw (sockets_add-append dest n, search-append dest (n ∷ []) n.fd, new, ==_refl n.fd),
  rw (sockets_add-append dest n, search-append dest (n ∷ []) other, ne)
      (or_else-none (sockets_search_fd dest other)),
  search-remove_other src n.fd other ne,
)
