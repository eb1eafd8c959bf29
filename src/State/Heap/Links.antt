-- ===== src/State/Heap/Links.antt =====
-- The append and the removal on memory: what the list is afterwards, what is freed, and what stays.
use sve.Base.{
  ℕ, ◌<◌, ◌≡◌, refl, ◌∙◌, Bool, true, false, none, some, [], ◌∷◌, ◌++◌, arith, eqb, length,
}
use sve.State.Heap.{
  Ptr, null, node, Place, Store, write, allocate, free, unlink, link_last, unlink_first,
}
use sve.State.Heap.Chain.{
  Returns, returns, bind, mono, Cells, has, has-append, Disjoint, Chain, nil, cons, Chain-same,
  Leads, at_head, read-Leads, IsList, Only, Only-refl, assign-IsList,
}
use sve.State.Heap.Walk.{load-done, walk_end-Leads, drop_hit, Stopped, end, found, walk_to-Split}

module _ {A : Type 0} where
  -- The list, where its nodes are as they were and its head variable too.
  pub keep-IsList :
      {s s' : Store A} {u v : ℕ} {xs ys : Cells A}
      → IsList s u ys
      → eqb u v ≡ false
      → Disjoint ys xs
      → Only v xs s s'
      → IsList s' u ys
  keep-IsList {u} is ne apart only = record {
    chain = rw (only.heads u ne) (Chain-same is.chain λ a i. only.cells a (apart a i));
  }

  -- The append ends without a fault; the new node stands behind the others.
  pub link_last-IsList :
      (fuel v : ℕ) (fresh : Ptr) (x : A) {s : Store A} {xs : Cells A}
      → IsList s v xs
      → eqb fresh null ≡ false
      → has fresh xs ≡ false
      → length xs < fuel
      → Returns
          (λ r s'.
            (r ≡ fresh) × IsList s' v (xs ++ (fresh, x) ∷ []) × Only v (xs ++ (fresh, x) ∷ []) s s')
          (link_last fuel v fresh x s)
  unfolding link_last allocate write
  link_last-IsList fuel v fresh x {s} {xs} is valid new enough =
      bind (walk_end-Leads fuel (at_head refl) filled (λ a i. cc) enough) λ place t (same, way).
        rw same (
          bind
            (assign-IsList fresh ((fresh, x) ∷ []) way (cons valid (ground arith) refl (nil refl))
              λ a i. ground arith)
            λ _ s' (is', only). returns (
              refl,
              is',
              record {
                heads = only.heads;
                cells = λ a out. ground (arith, only.cells a, has-append a xs ((fresh, x) ∷ []));
              },
            ))
    where
      s1 : Store A
      s1 = record s { cells = write s.cells fresh (some (node x null)) }

      filled : Chain s1.cells (s.heads v) xs
      filled = Chain-same is.chain λ a i. ground arith

  abbrev pub Freed : Cells A → Cells A → Store A → Type 0
  Freed before behind s = (a : Ptr) → has a before ≡ true → has a behind ≡ false → s.cells a ≡ none

  unlink-IsList :
      (hit : A → Bool) {s : Store A} {v : ℕ} {place : Place} {q : Ptr} {front back behind : Cells A}
      → Leads s v place q front
      → Chain s.cells q back
      → Disjoint front back
      → Stopped hit back behind
      → IsList s v (front ++ back)
      → Returns
          (λ _ s'.
            IsList s' v (front ++ behind) × Only v (front ++ back) s s' × Freed back behind s')
          (unlink place s)
  unfolding unlink free write
  unlink-IsList hit {s} {v} {front} l (nil e) apart end is =
      rw (read-Leads l, e) (returns (is, Only-refl v (front ++ []) s, λ a i. cc))
  unlink-IsList hit {s} {v} {front} l (cons {p} {q = r} {x} {xs = ys} some_node e out c) apart
        (found _) is =
      rw (read-Leads l, some_node, load-done s p e)
        (bind (assign-IsList r ys l c λ a i. ground (arith, apart a))
          λ _ t (is', only). free-IsList t is' only)
    where
      outside : has p front ≡ false
      outside = ground (arith, apart p)

      free-IsList :
          (t : Store A)
          → IsList t v (front ++ ys)
          → Only v front s t
          → Returns
              (λ _ s'.
                IsList s' v (front ++ ys)
                × Only v (front ++ (p, x) ∷ ys) s s'
                × Freed ((p, x) ∷ ys) ys s')
              (free p t)
      free-IsList t is' only =
          let still : t.cells p ≡ some (node x r) = only.cells p outside ∙ e in
          rw (still, free)
            (returns (
              record {
                chain =
                    Chain-same is'.chain λ a i. ground (arith, has-append a front ys, outside, out);
              },
              record {
                heads = only.heads;
                cells = λ a o. ground (arith, only.cells a, has-append a front ((p, x) ∷ ys));
              },
              λ a i o. ground arith,
            ))

  -- The removal ends without a fault; the first node on which the test holds is gone and freed, and
  -- where there is none nothing has changed in the list.
  pub unlink_first-IsList :
      (hit : A → Bool) (fuel v : ℕ) {s : Store A} {xs : Cells A}
      → IsList s v xs
      → length xs < fuel
      → Returns
          (λ _ s'. IsList s' v (drop_hit hit xs) × Only v xs s s' × Freed xs (drop_hit hit xs) s')
          (unlink_first hit fuel v s)
  unfolding unlink_first
  unlink_first-IsList hit fuel v {s} {xs} is enough =
      bind (walk_to-Split hit fuel (at_head refl) is.chain (λ a i. cc) enough) λ place t sp.
        rw sp.unchanged (
          mono
            (unlink-IsList hit sp.around.way sp.around.rest sp.around.apart sp.stopped
              (rw sp.whole is))
            λ _ s' (is', only, freed). (
              rw (← sp.dropped) is',
              rw (← sp.whole) only,
              λ a i o.
                  let i' : has a (sp.front ++ sp.back) ≡ true = rw sp.whole i in
                  let o' : has a (sp.front ++ sp.behind) ≡ false = rw sp.dropped o in
                  freed a
                    (ground (arith, has-append a sp.front sp.back, has-append a sp.front sp.behind))
                    (ground (arith, has-append a sp.front sp.behind)),
            ))
