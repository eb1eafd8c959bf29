-- ===== src/State/Heap/Sweep.antt =====
-- The lists of connections on memory, and the loop that removes from the list which it walks.
use mathlib.Core.List.{append_assoc}
use sve.Base.{
  ℕ, zero, suc, ◌<◌, ◌≤◌, ◌≡◌, refl, ap, sym, ◌∙◌, inl, inr, Bool, true, false, Bool-cases, Option,
  List, [], ◌∷◌, ◌++◌, arith, eqb, if◌then◌else◌, length, ℤ, ◌==◌, ==_refl,
}
use sve.State.{fd_list_add, fd_list_remove}
use sve.State.Heap.{Ptr, null, Node, Store, link_last, unlink_first, sweep}
use sve.State.Heap.Chain.{
  Returns, returns, bind, mono, Cells, contents, contents-append, has, Chain, nil, cons, IsList,
}
use sve.State.Heap.Walk.{load-done, drop_hit}
use sve.State.Heap.Links.{link_last-IsList, unlink_first-IsList, Freed}

abbrev pub is_fd : ℤ → ℤ → Bool
is_fd comfd fd = fd == comfd

contents-drop_fd :
    (comfd : ℤ) (xs : Cells ℤ)
    → contents (drop_hit (is_fd comfd) xs) ≡ fd_list_remove (contents xs) comfd
unfolding fd_list_remove
contents-drop_fd comfd [] = refl
contents-drop_fd comfd (x ∷ xs) = ground (arith, contents-drop_fd comfd xs)

fd_list_add-append : (xs : List ℤ) (comfd : ℤ) → fd_list_add xs comfd ≡ xs ++ comfd ∷ []
unfolding fd_list_add
fd_list_add-append [] comfd = refl
fd_list_add-append (x ∷ xs) comfd = ap (◌∷◌ x) (fd_list_add-append xs comfd)

length-drop_hit : (hit : ℤ → Bool) (xs : Cells ℤ) → length (drop_hit hit xs) ≤ length xs
length-drop_hit hit [] = omega arith
length-drop_hit hit (x ∷ xs) = ground (arith, length-drop_hit hit xs)

-- A removal at or before a node leaves what is behind it.
drop-append :
    (hit : ℤ → Bool) (front ys : Cells ℤ) (p : Ptr) (x : ℤ)
    → hit x ≡ true
    → (front' : Cells ℤ) × (drop_hit hit (front ++ (p, x) ∷ ys) ≡ front' ++ ys)
drop-append hit [] ys p x here = ([], rw here)
drop-append hit ((q, y) ∷ front) ys p x here = elim (Bool-cases (hit y)) [
  | inl sooner ↦ (front ++ (p, x) ∷ [], rw (sooner, append_assoc front ((p, x) ∷ []) ys))
  | inr later ↦
      let rest = drop-append hit front ys p x here in
      ((q, y) ∷ rest.0, rw later (ap (◌∷◌ (q, y)) rest.1))
]

Chain-suffix :
    {h : Ptr → Option (Node ℤ)} {p : Ptr} (front ys : Cells ℤ)
    → Chain h p (front ++ ys)
    → (q : Ptr) × Chain h q ys
Chain-suffix {p} [] ys c = (p, c)
Chain-suffix (x ∷ front) ys (cons _ _ _ c) = Chain-suffix front ys c

-- A chain begins at its first node.
Chain-start :
    {h g : Ptr → Option (Node ℤ)} {p q : Ptr} {xs : Cells ℤ} → Chain h p xs → Chain g q xs → p ≡ q
Chain-start (nil e) (nil e') = e ∙ sym e'
Chain-start (cons _ _ _ _) (cons _ _ _ _) = refl

-- The connections as the loop leaves them: it goes by the list as it was, and removes from the one
-- that there is.
unfoldable pub swept : (ℕ → ℤ → Bool) → ℕ → List ℤ → List ℤ → List ℤ
swept closes zero xs fds = fds
swept closes (suc rounds) [] fds = fds
swept closes (suc rounds) (x ∷ xs) fds =
    swept closes rounds xs (if closes rounds x then fd_list_remove fds x else fds)

-- What a walk leaves.
abbrev pub Swept : (ℕ → ℤ → Bool) → ℕ → ℕ → Cells ℤ → Cells ℤ → Unit {0} → Store ℤ → Type 0
Swept closes rounds head all rest _ s' =
    (ys : Cells ℤ) × IsList s' head ys
    × (contents ys ≡ swept closes rounds (contents rest) (contents all))

sweep-Swept :
    (closes : ℕ → ℤ → Bool) (rounds fuel head : ℕ) {p : Ptr} {s : Store ℤ} (front : Cells ℤ)
    {rest : Cells ℤ}
    → IsList s head (front ++ rest)
    → Chain s.cells p rest
    → length rest < rounds
    → length (front ++ rest) < fuel
    → Returns (Swept closes rounds head (front ++ rest) rest) (sweep closes rounds fuel head p s)
unfolding sweep swept
sweep-Swept closes zero fuel head front is c enough enough' = absurd (omega arith)
sweep-Swept closes (suc rounds) fuel head front is (nil e) enough enough' =
    rw e (returns (front ++ [], is, refl))
sweep-Swept closes (suc rounds) fuel head {s} front is
      (cons {p} {q} {x} {xs = ys} some_node e out c) enough enough' =
    rw (some_node, load-done s p e)
      (elim (Bool-cases (closes rounds x)) [
        | inl gone ↦ rw gone (
            bind (unlink_first-IsList (is_fd x) fuel head is enough') λ _ t (is', _, _).
              let (front', drop) = drop-append (is_fd x) front ys p x (==_refl x) in
              let whole : IsList t head (front' ++ ys) = rw (← drop) is' in
              let (q', c') = Chain-suffix front' ys whole.chain in
              let behind : Chain t.cells q ys = rw (Chain-start c c') c' in
              let fits : length (front' ++ ys) < fuel =
                omega (arith, ap length drop, length-drop_hit (is_fd x) (front ++ (p, x) ∷ ys)) in
              mono (sweep-Swept closes rounds fuel head front' whole behind (omega arith) fits)
                λ _ s' (zs, is'', left).
                  (zs, is'', rw (gone, ← contents-drop_fd x (front ++ (p, x) ∷ ys), drop) left))
        | inr stays ↦
            let one = append_assoc front ((p, x) ∷ []) ys in
            rw stays (
              mono
                (sweep-Swept closes rounds fuel head (front ++ (p, x) ∷ []) (rw one is) c
                  (omega arith) (rw one enough'))
                λ _ s' (zs, is', left). (zs, is', rw (stays, ← one) left))
      ])

-- The loop ends without a fault, on fuel for one round more than the list has nodes, whichever of the
-- connections are closed in it: it never goes on from a node that has been freed, also where two nodes
-- hold one descriptor. The connections that are left are those that the list without memory would have.
pub sweep-swept :
    (closes : ℕ → ℤ → Bool) (fuel head : ℕ) (s : Store ℤ) (xs : Cells ℤ)
    → IsList s head xs
    → length xs < fuel
    → Returns
        (λ _ s'.
          (ys : Cells ℤ) × IsList s' head ys
          × (contents ys ≡ swept closes fuel (contents xs) (contents xs)))
        (sweep closes fuel fuel head (s.heads head) s)
sweep-swept closes fuel head s xs is enough =
    sweep-Swept closes fuel fuel head [] is is.chain enough enough

-- `dsu_socket_add_fds` and `dsu_socket_remove_fds` on memory end without a fault on fuel for one round
-- more than there are nodes, and leave the connections that the functions on lists leave.
pub connections_refine :
    (fuel head : ℕ) (fresh : Ptr) (comfd : ℤ) (s : Store ℤ) (xs : Cells ℤ)
    → IsList s head xs
    → eqb fresh null ≡ false
    → has fresh xs ≡ false
    → length xs < fuel
    → Returns
        (λ _ s'.
          (ys : Cells ℤ) × IsList s' head ys × (contents ys ≡ fd_list_add (contents xs) comfd))
        (link_last fuel head fresh comfd s)
      × Returns
          (λ _ s'.
            (ys : Cells ℤ) × IsList s' head ys
            × (contents ys ≡ fd_list_remove (contents xs) comfd)
            × Freed xs ys s')
          (unlink_first (is_fd comfd) fuel head s)
connections_refine fuel head fresh comfd s xs is valid new enough = (
  mono (link_last-IsList fuel head fresh comfd is valid new enough) λ _ s' (_, is', _). (
    xs ++ (fresh, comfd) ∷ [],
    is',
    contents-append xs ((fresh, comfd) ∷ []) ∙ sym (fd_list_add-append (contents xs) comfd),
  ),
  mono (unlink_first-IsList (is_fd comfd) fuel head is enough)
      λ _ s' (is', _, freed). (drop_hit (is_fd comfd) xs, is', contents-drop_fd comfd xs, freed),
)
