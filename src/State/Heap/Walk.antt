-- ===== src/State/Heap/Walk.antt =====
-- The loops of src/state.c end at the place that they look for, without a fault, on fuel for one round
-- more than the list has nodes.
use mathlib.Core.List.{append_assoc, append-nil}
use sve.Base.{
  ℕ, zero, suc, ◌<◌, ◌≡◌, refl, ◌∙◌, inl, inr, Bool, true, false, Bool-cases, some, [], ◌∷◌, ◌++◌,
  arith, eqb, if◌then◌else◌, length,
}
use sve.State.Heap.{
  Ptr, null, Node, node, Place, next_of, Store, done, load, walk_end, walk_to, find_first,
}
use sve.State.Heap.Chain.{
  Returns, returns, mono, Cells, has, has-append, Disjoint, Chain, nil, cons, Leads, after,
  read-Leads,
}

module _ {A : Type 0} where
  -- The way, and what is behind it.
  pub record Around (s : Store A) (v : ℕ) (place : Place) (q : Ptr) (xs ys : Cells A) : Type 0 where
    pub way : Leads s v place q xs
    pub rest : Chain s.cells q ys
    pub apart : Disjoint xs ys

  pub Around-next :
      {s : Store A} {v : ℕ} {place : Place} {p q : Ptr} {x : A} {xs ys : Cells A}
      → Leads s v place p xs
      → eqb p null ≡ false
      → s.cells p ≡ some (node x q)
      → has p ys ≡ false
      → Chain s.cells q ys
      → Disjoint xs ((p, x) ∷ ys)
      → Around s v (next_of p) q (xs ++ (p, x) ∷ []) ys
  Around-next {p} {x} {xs} l some_node e out c apart = record {
    way = after l some_node e (ground (arith, apart p)) refl;
    rest = c;
    apart = λ a i. ground (arith, apart a, has-append a xs ((p, x) ∷ []));
  }

  pub load-done : (s : Store A) (p : Ptr) {n : Node A} → s.cells p ≡ some n → load p s ≡ done n s
  unfolding load
  load-done s p e = rw (e, load)

  pub walk_end-Leads :
      (fuel : ℕ) {s : Store A} {v : ℕ} {place : Place} {q : Ptr} {xs ys : Cells A}
      → Leads s v place q xs
      → Chain s.cells q ys
      → Disjoint xs ys
      → length ys < fuel
      → Returns (λ place' s'. (s' ≡ s) × Leads s v place' null (xs ++ ys)) (walk_end fuel place s)
  unfolding walk_end
  walk_end-Leads zero l c apart enough = absurd (omega arith)
  walk_end-Leads (suc fuel) {xs} l (nil e) apart enough =
      rw (read-Leads l, e) (returns (refl, rw append-nil (rw e at l)))
  walk_end-Leads (suc fuel) {xs} l (cons {p} {x} {xs = ys} some_node e out c) apart enough =
      let next = Around-next l some_node e out c apart in
      rw (read-Leads l, some_node, ← append_assoc xs ((p, x) ∷ []) ys)
        (walk_end-Leads fuel next.way next.rest next.apart (omega arith))

  -- The first node on which the test holds is dropped.
  abbrev pub drop_hit : (A → Bool) → Cells A → Cells A
  drop_hit hit [] = []
  drop_hit hit ((p, x) ∷ xs) = if hit x then xs else (p, x) ∷ drop_hit hit xs

  -- Where the search stops: at the end, or at a node on which the test holds.
  pub data Stopped (hit : A → Bool) : Cells A → Cells A → Type 0 where
    end : Stopped hit [] []
    found : {p : Ptr} {x : A} {ys : Cells A} → hit x ≡ true → Stopped hit ((p, x) ∷ ys) ys

  -- The place that the search finds in the list `xs ++ ys`, on which it has come past `xs`.
  pub record Split (hit : A → Bool) (s : Store A) (v : ℕ) (xs ys : Cells A) (place : Place)
      (s' : Store A) : Type 0 where
    pub unchanged : s' ≡ s
    pub at : Ptr
    pub front : Cells A
    pub back : Cells A
    pub behind : Cells A
    pub around : Around s v place at front back
    pub stopped : Stopped hit back behind
    pub whole : front ++ back ≡ xs ++ ys
    pub dropped : front ++ behind ≡ xs ++ drop_hit hit ys

  pub walk_to-Split :
      (hit : A → Bool) (fuel : ℕ) {s : Store A} {v : ℕ} {place : Place} {q : Ptr} {xs ys : Cells A}
      → Leads s v place q xs
      → Chain s.cells q ys
      → Disjoint xs ys
      → length ys < fuel
      → Returns (Split hit s v xs ys) (walk_to hit fuel place s)
  unfolding walk_to
  walk_to-Split hit zero l c apart enough = absurd (omega arith)
  walk_to-Split hit (suc fuel) {q} {xs} l (nil e) apart enough =
      rw (read-Leads l, e)
        (returns (record {
          unchanged = refl;
          at = q;
          front = xs;
          back = [];
          behind = [];
          around = record { way = l; rest = nil e; apart = apart };
          stopped = end;
          whole = refl;
          dropped = refl;
        }))
  walk_to-Split hit (suc fuel) {s} {q} {xs} l (cons {p} {x} {xs = ys} some_node e out c) apart
        enough =
      rw (read-Leads l, some_node, load-done s p e)
        (elim (Bool-cases (hit x)) [
          | inl here ↦ rw here (
              returns (record {
                unchanged = refl;
                at = q;
                front = xs;
                back = (p, x) ∷ ys;
                behind = ys;
                around = record { way = l; rest = cons some_node e out c; apart = apart };
                stopped = found here;
                whole = refl;
                dropped = rw here;
              }))
          | inr miss ↦
              let next = Around-next l some_node e out c apart in
              rw miss (
                mono (walk_to-Split hit fuel next.way next.rest next.apart (omega arith))
                  λ place' s' sp. record {
                    unchanged = sp.unchanged;
                    at = sp.at;
                    front = sp.front;
                    back = sp.back;
                    behind = sp.behind;
                    around = sp.around;
                    stopped = sp.stopped;
                    whole = sp.whole ∙ append_assoc xs ((p, x) ∷ []) ys;
                    dropped =
                        rw miss (sp.dropped ∙ append_assoc xs ((p, x) ∷ []) (drop_hit hit ys));
                  })
        ])

  -- The first node on which the test holds, or NULL.
  abbrev pub where_hit : (A → Bool) → Cells A → Ptr
  where_hit hit [] = null
  where_hit hit ((p, x) ∷ xs) = if hit x then p else where_hit hit xs

  pub find_first-where_hit :
      (hit : A → Bool) (fuel : ℕ) {s : Store A} {p : Ptr} {xs : Cells A}
      → Chain s.cells p xs
      → length xs < fuel
      → Returns (λ r s'. (s' ≡ s) × (r ≡ where_hit hit xs)) (find_first hit fuel p s)
  unfolding find_first
  find_first-where_hit hit zero c enough = absurd (omega arith)
  find_first-where_hit hit (suc fuel) (nil e) enough = rw e (returns (refl, refl))
  find_first-where_hit hit (suc fuel) {s} (cons {p} {x} {xs} some_node e out c) enough =
      rw (some_node, load-done s p e)
        (elim (Bool-cases (hit x)) [
          | inl here ↦ rw here (returns (refl, refl))
          | inr miss ↦ rw miss (find_first-where_hit hit fuel c (omega arith))
        ])
