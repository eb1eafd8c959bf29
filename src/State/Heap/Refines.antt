-- ===== src/State/Heap/Refines.antt =====
-- The functions on memory do what the functions on lists of src/state.c's model do.
use sve.Base.{
  ℕ, ◌<◌, ◌≡◌, refl, ◌∙◌, Bool, true, false, Option, none, some, [], ◌∷◌, ◌++◌, arith, eqb, inl,
  inr, Bool-cases, length, ℤ, ◌==◌,
}
use sve.State.{DsuSocket, sockets_remove_fd, sockets_transfer_fd, sockets_search_fd}
use sve.State.Lists.{sockets_add-append}
use sve.State.Heap.{Ptr, null, node, Store, unlink_first, find_first, transfer_node}
use sve.State.Heap.Chain.{
  Returns, returns, bind, mono, Cells, contents, contents-append, has, has-append, Disjoint, Chain,
  nil, cons, IsList, Only,
}
use sve.State.Heap.Walk.{load-done, drop_hit, where_hit, find_first-where_hit}
use sve.State.Heap.Links.{keep-IsList, link_last-IsList, unlink_first-IsList, Freed}

-- The test of the walk over sockets.
abbrev pub has_fd : ℤ → DsuSocket → Bool
has_fd sockfd s = s.fd == sockfd

contents-drop_hit :
    (sockfd : ℤ) (xs : Cells DsuSocket)
    → contents (drop_hit (has_fd sockfd) xs) ≡ sockets_remove_fd (contents xs) sockfd
unfolding sockets_remove_fd
contents-drop_hit sockfd [] = refl
contents-drop_hit sockfd (x ∷ xs) = ground (arith, contents-drop_hit sockfd xs)

-- `dsu_sockets_remove_fd` on memory ends without a fault on fuel for one round more than there are
-- nodes. The nodes that are left hold what the removal from a list leaves; the node that is gone is
-- freed; other lists and the memory outside this one are as they were.
pub unlink_first-sockets_remove_fd :
    (fuel head : ℕ) (sockfd : ℤ) (s : Store DsuSocket) (xs : Cells DsuSocket)
    → IsList s head xs
    → length xs < fuel
    → Returns
        (λ _ s'.
          (ys : Cells DsuSocket) × IsList s' head ys
          × (contents ys ≡ sockets_remove_fd (contents xs) sockfd)
          × Only head xs s s'
          × Freed xs ys s')
        (unlink_first (has_fd sockfd) fuel head s)
unlink_first-sockets_remove_fd fuel head sockfd s xs is enough =
    mono (unlink_first-IsList (has_fd sockfd) fuel head is enough) λ _ s' (is', only, freed).
      (drop_hit (has_fd sockfd) xs, is', contents-drop_hit sockfd xs, only, freed)

-- What a pointer stands for.
pub data Holds (s : Store DsuSocket) : Ptr → Option DsuSocket → Type 0 where
  nothing : Holds s null none
  holds :
      {p q : Ptr} {x : DsuSocket}
      → eqb p null ≡ false
      → s.cells p ≡ some (node x q)
      → Holds s p (some x)

where_hit-Holds :
    (sockfd : ℤ) {s : Store DsuSocket} {p : Ptr} {xs : Cells DsuSocket}
    → Chain s.cells p xs
    → Holds s (where_hit (has_fd sockfd) xs) (sockets_search_fd (contents xs) sockfd)
unfolding sockets_search_fd
where_hit-Holds sockfd (nil e) = nothing
where_hit-Holds sockfd (cons {x} some_node e out c) = elim (Bool-cases (x.fd == sockfd)) [
  | inl hit ↦ rw hit (holds some_node e)
  | inr miss ↦ rw miss (where_hit-Holds sockfd c)
]

-- `dsu_sockets_search_fd` on memory ends without a fault, changes nothing, and returns a pointer to the
-- node that the search in the list finds, or NULL where it finds none.
pub find_first-sockets_search_fd :
    (fuel head : ℕ) (sockfd : ℤ) (s : Store DsuSocket) (xs : Cells DsuSocket)
    → IsList s head xs
    → length xs < fuel
    → Returns
        (λ p s'. (s' ≡ s) × Holds s p (sockets_search_fd (contents xs) sockfd))
        (find_first (has_fd sockfd) fuel (s.heads head) s)
find_first-sockets_search_fd fuel head sockfd s xs is enough =
    mono (find_first-where_hit (has_fd sockfd) fuel is.chain enough)
      λ p s' (same, at). (same, rw at (where_hit-Holds sockfd is.chain))

-- What a transfer leaves: both lists, as the transfer between lists leaves them.
pub record Transferred (dest src : ℕ) (xs ys : Cells DsuSocket) (n : DsuSocket) (fresh r : Ptr)
    (s' : Store DsuSocket) : Type 0 where
  pub result : r ≡ fresh
  pub xs' : Cells DsuSocket
  pub ys' : Cells DsuSocket
  pub new_dest : IsList s' dest xs'
  pub new_src : IsList s' src ys'
  pub moved : (contents xs', contents ys') ≡ sockets_transfer_fd (contents xs) (contents ys) n
  pub freed : Freed ys ys' s'

-- `dsu_sockets_transfer_fd` on memory, for two lists that share no node, a pointer to a node of the
-- second one, and memory from `malloc` that is in neither: it ends without a fault, and returns the new
-- node; both lists are then what the transfer between lists makes of them, and the node that has left
-- the second one is freed.
pub transfer_node-sockets_transfer_fd :
    (fuel dest src : ℕ) (fresh p q : Ptr) (n : DsuSocket) (s : Store DsuSocket)
    (xs ys : Cells DsuSocket)
    → IsList s dest xs
    → IsList s src ys
    → eqb src dest ≡ false
    → Disjoint ys xs
    → s.cells p ≡ some (node n q)
    → has p ys ≡ true
    → eqb fresh null ≡ false
    → has fresh xs ≡ false
    → has fresh ys ≡ false
    → length xs < fuel
    → length ys < fuel
    → Returns (Transferred dest src xs ys n fresh) (transfer_node fuel dest src fresh p s)
unfolding transfer_node sockets_transfer_fd
transfer_node-sockets_transfer_fd fuel dest src fresh p q n s xs ys is_dest is_src two apart at
      member valid new_dest new_src enough enough' =
    rw (load-done s p at) (
      bind (link_last-IsList fuel dest fresh n is_dest valid new_dest enough) λ r t (e, is, only).
        let still : t.cells p ≡ some (node n q) = only.cells p (no_new p member) ∙ at in
        rw (load-done t p still) (
          bind
            (unlink_first-sockets_remove_fd fuel src n.fd t ys (keep-IsList is_src two no_new only)
              enough')
            λ _ s' (ys', is', left, only', freed). returns (record {
              result = e;
              xs' = xs ++ (fresh, n) ∷ [];
              ys' = ys';
              new_dest =
                  keep-IsList is (ground (arith, two)) (λ a i. ground (arith, no_new a)) only';
              new_src = is';
              moved =
                  rw (
                    contents-append xs ((fresh, n) ∷ []),
                    sockets_add-append (contents xs) n,
                    left,
                  );
              freed = freed;
            })))
  where
    -- The memory that the append touches is none of the second list's.
    no_new : (a : Ptr) → has a ys ≡ true → has a (xs ++ (fresh, n) ∷ []) ≡ false
    no_new a i = ground (arith, apart a, has-append a xs ((fresh, n) ∷ []))
