-- ===== src/Life/Growth.antt =====
-- Lists of sockets that live on.
use sve.Base.{
  ◌≡◌, refl, ◌∙◌, List, [], ◌∷◌, ◌++◌, some, ℤ, ◌==◌, arith, Bool-cases, inl, inr, true, false,
}
use sve.State.{DsuSocket, sockets_add, sockets_remove_fd, sockets_search_fd, sockets_update_fd}
use sve.State.Lists.{All}
use sve.State.Evolves.{Evolved, Evolved-refl, Evolved-trans}
use sve.Forall.Kept.{AllEvolved, AllEvolved-refl, none_left}
use sve.Kernel.{World}
use sve.Kernel.Frame.{SameQueues-trans}
use sve.Life.{HasPort, Grown, added, Progress}

pub Grown-refl : (xs : List DsuSocket) → Grown xs xs
Grown-refl [] = added []
Grown-refl (s ∷ xs) = Grown.next (Evolved-refl s) (Grown-refl xs)

pub Grown-trans : {xs ys zs : List DsuSocket} → Grown xs ys → Grown ys zs → Grown xs zs
Grown-trans {zs} (added ys) q = added zs
Grown-trans (Grown.next e p) (Grown.next e' q) = Grown.next (Evolved-trans e e') (Grown-trans p q)

pub Grown-append : (xs ys : List DsuSocket) → Grown xs (xs ++ ys)
Grown-append [] ys = added ys
Grown-append (s ∷ xs) ys = Grown.next (Evolved-refl s) (Grown-append xs ys)

pub AllEvolved-Grown : {xs ys : List DsuSocket} → AllEvolved xs ys → Grown xs ys
AllEvolved-Grown none_left = added []
AllEvolved-Grown (AllEvolved.next e es) = Grown.next e (AllEvolved-Grown es)

pub update-AllEvolved :
    (xs : List DsuSocket) (fd : ℤ) (write : DsuSocket → DsuSocket)
    → ((s : DsuSocket) → Evolved s (write s))
    → AllEvolved xs (sockets_update_fd xs fd write)
unfolding sockets_update_fd
update-AllEvolved [] fd write evolves = none_left
update-AllEvolved (s ∷ xs) fd write evolves = elim (Bool-cases (s.fd == fd)) [
  | inl hit ↦ rw hit (AllEvolved.next (evolves s) (AllEvolved-refl xs))
  | inr miss ↦ rw miss (AllEvolved.next (Evolved-refl s) (update-AllEvolved xs fd write evolves))
]

HasPort-Evolved : {s t : DsuSocket} → Evolved s t → HasPort s → HasPort t
HasPort-Evolved e h = record {
  fd = rw e.fd h.fd;
  number = h.number;
  port = e.port ∙ h.port;
  small = h.small;
}

pub All-AllEvolved : {xs ys : List DsuSocket} → AllEvolved xs ys → All HasPort xs → All HasPort ys
All-AllEvolved none_left h = tt
All-AllEvolved (AllEvolved.next e es) (h, hs) = (HasPort-Evolved e h, All-AllEvolved es hs)

module _ (P : DsuSocket → Type 0) where
  pub All-add : (xs : List DsuSocket) (s : DsuSocket) → All P xs → P s → All P (sockets_add xs s)
  unfolding sockets_add
  All-add [] s all p = (p, tt)
  All-add (x ∷ xs) s (q, all) p = (q, All-add xs s all p)

  pub All-remove : (xs : List DsuSocket) (fd : ℤ) → All P xs → All P (sockets_remove_fd xs fd)
  unfolding sockets_remove_fd
  All-remove [] fd all = tt
  All-remove (x ∷ xs) fd (p, all) = elim (Bool-cases (x.fd == fd)) [
    | inl hit ↦ rw hit all
    | inr miss ↦ rw miss (p, All-remove xs fd all)
  ]

  pub search-All :
      (xs : List DsuSocket) (fd : ℤ) (s : DsuSocket)
      → All P xs
      → sockets_search_fd xs fd ≡ some s
      → P s
  unfolding sockets_search_fd
  search-All [] fd s all e = cc
  search-All (x ∷ xs) fd s (p, all) e = elim (Bool-cases (x.fd == fd)) [
    | inl hit ↦ let same : x ≡ s = ground arith in rw (← same) p
    | inr miss ↦ search-All xs fd s all (ground arith)
  ]

-- What the search found is found later too.
pub search-Grown :
    {xs ys : List DsuSocket} (fd : ℤ) (s : DsuSocket)
    → Grown xs ys
    → sockets_search_fd xs fd ≡ some s
    → (t : DsuSocket) × (sockets_search_fd ys fd ≡ some t) × Evolved s t
unfolding sockets_search_fd
search-Grown fd s (added ys) e = cc
search-Grown fd s (Grown.next {s = x} {t} e grown) found = elim (Bool-cases (x.fd == fd)) [
  | inl hit ↦
      let same : x ≡ s = ground arith in
      let hit' : (t.fd == fd) ≡ true = rw e.fd hit in rw hit' (t, refl, rw (← same) e)
  | inr miss ↦
      let miss' : (t.fd == fd) ≡ false = rw e.fd miss in
      rw miss' (search-Grown fd s grown (ground arith))
]

pub Progress-refl : (w : World) → Progress w w
Progress-refl w = record { binds = Grown-refl w.binds; queues = ground arith }

pub Progress-trans : {u v w : World} → Progress u v → Progress v w → Progress u w
Progress-trans p q = record {
  binds = Grown-trans p.binds q.binds;
  queues = SameQueues-trans p.queues q.queues;
}
