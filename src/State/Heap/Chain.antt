-- ===== src/State/Heap/Chain.antt =====
-- Chains of nodes in memory, and the way from a head variable to the place where `indirect` points.
use mathlib.Core.List.{append_assoc}
use sve.Base.{
  ℕ, ◌≡◌, refl, ap, ◌∙◌, Bool, true, false, ◌||◌, Option, some, List, [], ◌∷◌, ◌++◌, arith, eqb,
}
use sve.State.Heap.{
  Ptr, null, Node, node, Place, head_of, next_of, Store, Outcome, done, Cmd, continue, write, read,
  assign,
}

-- The run comes to its end, without a fault and within its fuel.
pub data Returns {A B : Type 0} (P : B → Store A → Type 0) : Outcome A B → Type 0 where
  returns : {b : B} {s : Store A} → P b s → Returns P (done b s)

pub bind :
    {A B C : Type 0} {P : B → Store A → Type 0} {Q : C → Store A → Type 0} {r : Outcome A B}
    {f : B → Cmd A C}
    → Returns P r
    → ((b : B) (s : Store A) → P b s → Returns Q (f b s))
    → Returns Q (continue r f)
bind (returns p) next = next _ _ p

pub mono :
    {A B : Type 0} {P Q : B → Store A → Type 0} {r : Outcome A B}
    → Returns P r
    → ((b : B) (s : Store A) → P b s → Q b s)
    → Returns Q r
mono (returns p) weaken = returns (weaken _ _ p)

-- The nodes of a list: where each stands, and what it holds.
abbrev pub Cells : Type 0 → Type 0
Cells A = List (Ptr × A)

pub write_self : {B : Type 0} (f : ℕ → B) (p : ℕ) (b : B) → write f p b p ≡ b
unfolding write
write_self f p b = ground arith

module _ {A : Type 0} where
  abbrev pub contents : Cells A → List A
  contents [] = []
  contents ((p, x) ∷ xs) = x ∷ contents xs

  abbrev pub has : Ptr → Cells A → Bool
  has a [] = false
  has a ((p, _) ∷ xs) = eqb a p || has a xs

  pub has-append : (a : Ptr) (xs ys : Cells A) → has a (xs ++ ys) ≡ (has a xs || has a ys)
  has-append a [] ys = refl
  has-append a (x ∷ xs) ys = ground (arith, has-append a xs ys)

  pub contents-append : (xs ys : Cells A) → contents (xs ++ ys) ≡ contents xs ++ contents ys
  contents-append [] ys = refl
  contents-append (x ∷ xs) ys = ap (◌∷◌ x.1) (contents-append xs ys)

  abbrev pub Disjoint : Cells A → Cells A → Type 0
  Disjoint xs ys = (a : Ptr) → has a xs ≡ true → has a ys ≡ false

  -- From `p` the nodes `xs`, all of them different, lead to NULL.
  pub data Chain (h : Ptr → Option (Node A)) : Ptr → Cells A → Type 0 where
    nil : {p : Ptr} → p ≡ null → Chain h p []
    cons :
        {p q : Ptr} {x : A} {xs : Cells A}
        → eqb p null ≡ false
        → h p ≡ some (node x q)
        → has p xs ≡ false
        → Chain h q xs
        → Chain h p ((p, x) ∷ xs)

  pub Chain-same :
      {h g : Ptr → Option (Node A)} {p : Ptr} {xs : Cells A}
      → Chain h p xs
      → ((a : Ptr) → has a xs ≡ true → g a ≡ h a)
      → Chain g p xs
  Chain-same (nil e) same = nil e
  Chain-same (cons {p} some_node e out c) same =
      cons some_node (ground (arith, same p)) out (Chain-same c λ a i. same a (ground arith))

  -- The head variable `v`, the nodes `xs`, and then the place, where `q` stands.
  pub data Leads (s : Store A) (v : ℕ) : Place → Ptr → Cells A → Type 0 where
    at_head : {q : Ptr} → s.heads v ≡ q → Leads s v (head_of v) q []
    after :
        {place : Place} {p q : Ptr} {x : A} {xs ys : Cells A}
        → Leads s v place p xs
        → eqb p null ≡ false
        → s.cells p ≡ some (node x q)
        → has p xs ≡ false
        → ys ≡ xs ++ (p, x) ∷ []
        → Leads s v (next_of p) q ys

  pub read-Leads :
      {s : Store A} {v : ℕ} {place : Place} {q : Ptr} {xs : Cells A}
      → Leads s v place q xs
      → read place s ≡ done q s
  unfolding read
  read-Leads (at_head e) = rw e
  read-Leads (after l some_node e out split) = rw (e, read)

  -- What stands behind the way makes it a chain.
  close-Chain :
      {s : Store A} {v : ℕ} {place : Place} {q : Ptr} {xs ys : Cells A} {h : Ptr → Option (Node A)}
      → Leads s v place q xs
      → Chain h q ys
      → ((a : Ptr) → has a xs ≡ true → h a ≡ s.cells a)
      → Disjoint xs ys
      → Chain h (s.heads v) (xs ++ ys)
  close-Chain (at_head e) c same apart = rw e c
  close-Chain {ys} (after {p} {x} {xs = front} l some_node e out split) c same apart =
      rw (split, append_assoc front ((p, x) ∷ []) ys)
        (close-Chain l
          (cons some_node (ground (arith, same p, e, mem p)) (ground (arith, apart p, mem p)) c)
          (λ a i. same a (ground (arith, mem a))) (λ a i. ground (arith, apart a, mem a)))
    where
      mem : (a : Ptr) → has a (front ++ (p, x) ∷ []) ≡ (has a front || eqb a p)
      mem a = ground (arith, has-append a front ((p, x) ∷ []))

  pub record IsList (s : Store A) (v : ℕ) (xs : Cells A) : Type 0 where
    pub chain : Chain s.cells (s.heads v) xs

  -- Nothing but the variable `v` and the nodes `xs` has changed.
  pub record Only (v : ℕ) (xs : Cells A) (s s' : Store A) : Type 0 where
    pub heads : (u : ℕ) → eqb u v ≡ false → s'.heads u ≡ s.heads u
    pub cells : (a : Ptr) → has a xs ≡ false → s'.cells a ≡ s.cells a

  pub Only-refl : (v : ℕ) (xs : Cells A) (s : Store A) → Only v xs s s
  Only-refl v xs s = record { heads = λ u ne. refl; cells = λ a out. refl }

  pub Only-trans :
      {v : ℕ} {xs : Cells A} {s t u : Store A} → Only v xs s t → Only v xs t u → Only v xs s u
  Only-trans p q = record {
    heads = λ w ne. q.heads w ne ∙ p.heads w ne;
    cells = λ a out. q.cells a out ∙ p.cells a out;
  }

  -- A write at the place puts another rest behind the way.
  pub assign-IsList :
      {s : Store A} {v : ℕ} {place : Place} {q : Ptr} {xs : Cells A} (r : Ptr) (ys : Cells A)
      → Leads s v place q xs
      → Chain s.cells r ys
      → Disjoint xs ys
      → Returns (λ _ s'. IsList s' v (xs ++ ys) × Only v xs s s') (assign place r s)
  unfolding assign write
  assign-IsList {s} {v} r ys (at_head e) c apart = returns (
    record { chain = rw (write_self s.heads v r) c },
    record { heads = λ u ne. rw ne; cells = λ a out. refl },
  )
  assign-IsList {s} {v} {xs} r ys (after {p} {x} {xs = front} l some_node e out split) c apart =
      rw (e, assign)
        (returns (
          record {
            chain =
                rw (split, append_assoc front ((p, x) ∷ []) ys)
                  (close-Chain l
                    (cons some_node (ground (arith, e)) (ground (arith, apart p, mem p))
                      (Chain-same c λ a i. ground (arith, apart a, mem p)))
                    (λ a i. ground arith) (λ a i. ground (arith, apart a, mem a)));
          },
          record { heads = λ u ne. refl; cells = λ a out'. ground (arith, mem a) },
        ))
    where
      mem : (a : Ptr) → has a (front ++ (p, x) ∷ []) ≡ (has a front || eqb a p)
      mem a = ground (arith, has-append a front ((p, x) ∷ []))
