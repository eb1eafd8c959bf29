-- ===== src/State/Lists.antt =====
-- Laws of the list operations of src/state.c.
use sve.Base.{
  ◌≡◌, refl, ap, inl, inr, true, false, ◌||◌, Option, none, some, List, [], ◌∷◌, ◌++◌, arith,
  Bool-cases, ℤ, ◌==◌, ==_refl, ==_iff,
}
use sve.State.{
  DsuSocket, sockets_add, sockets_remove_fd, sockets_search_fd, fd_list_add, fd_list_remove,
  fd_list_has,
}

-- No node of the list has the file descriptor.
abbrev pub Lacks : List DsuSocket → ℤ → Type 0
Lacks [] fd = Unit {0}
Lacks (s ∷ xs) fd = ((s.fd == fd) ≡ false) × Lacks xs fd

-- Every node of a list.
abbrev pub All : (DsuSocket → Type 0) → List DsuSocket → Type 0
All P [] = Unit {0}
All P (s ∷ xs) = P s × All P xs

abbrev pub or_else : Option DsuSocket → Option DsuSocket → Option DsuSocket
or_else (some s) other = some s
or_else none other = other

pub sockets_add-append : (xs : List DsuSocket) (n : DsuSocket) → sockets_add xs n ≡ xs ++ n ∷ []
unfolding sockets_add
sockets_add-append [] n = refl
sockets_add-append (s ∷ xs) n = ap (◌∷◌ s) (sockets_add-append xs n)

pub search-append :
    (xs ys : List DsuSocket) (fd : ℤ)
    → sockets_search_fd (xs ++ ys) fd ≡ or_else (sockets_search_fd xs fd) (sockets_search_fd ys fd)
unfolding sockets_search_fd
search-append [] ys fd = refl
search-append (s ∷ xs) ys fd = ground (arith, search-append xs ys fd)

-- Where the search finds a node, and what the removal leaves.
pub record Found (xs : List DsuSocket) (fd : ℤ) (s : DsuSocket) : Type 0 where
  pub before : List DsuSocket
  pub after : List DsuSocket
  pub split : xs ≡ before ++ s ∷ after
  pub matches : (s.fd == fd) ≡ true
  pub first : Lacks before fd
  pub removed : sockets_remove_fd xs fd ≡ before ++ after

Found-cons :
    {xs : List DsuSocket} {fd : ℤ} {s : DsuSocket} (x : DsuSocket)
    → (x.fd == fd) ≡ false
    → Found xs fd s
    → Found (x ∷ xs) fd s
unfolding sockets_remove_fd
Found-cons x miss f = record {
  before = x ∷ f.before;
  after = f.after;
  split = ap (◌∷◌ x) f.split;
  matches = f.matches;
  first = (miss, f.first);
  removed = rw miss (ap (◌∷◌ x) f.removed);
}

pub search-Found :
    (xs : List DsuSocket) (fd : ℤ) (s : DsuSocket)
    → sockets_search_fd xs fd ≡ some s
    → Found xs fd s
unfolding sockets_search_fd sockets_remove_fd
search-Found [] fd s e = cc
search-Found (x ∷ xs) fd s e = elim (Bool-cases (x.fd == fd)) [
  | inl hit ↦ record {
    before = [];
    after = xs;
    split = ground arith;
    matches = ground arith;
    first = tt;
    removed = rw hit;
  }
  | inr miss ↦ Found-cons x miss (search-Found xs fd s (ground arith))
]

pub search-Lacks : (xs : List DsuSocket) (fd : ℤ) → sockets_search_fd xs fd ≡ none → Lacks xs fd
unfolding sockets_search_fd
search-Lacks [] fd e = tt
search-Lacks (x ∷ xs) fd e = ground (arith, search-Lacks xs fd)

pub remove-Lacks : (xs : List DsuSocket) (fd : ℤ) → Lacks xs fd → sockets_remove_fd xs fd ≡ xs
unfolding sockets_remove_fd
remove-Lacks [] fd h = refl
remove-Lacks (x ∷ xs) fd h = rw h.0 (ap (◌∷◌ x) (remove-Lacks xs fd h.1))

-- A removal does not change what is found for another file descriptor.
pub search-remove_other :
    (xs : List DsuSocket) (fd other : ℤ)
    → (fd == other) ≡ false
    → sockets_search_fd (sockets_remove_fd xs fd) other ≡ sockets_search_fd xs other
unfolding sockets_search_fd sockets_remove_fd
search-remove_other [] fd other h = refl
search-remove_other (x ∷ xs) fd other h =
    ground (arith, search-remove_other xs fd other, ==_iff x.fd fd, ==_iff x.fd other)

pub fd_list_add-append : (xs : List ℤ) (fd : ℤ) → fd_list_add xs fd ≡ xs ++ fd ∷ []
unfolding fd_list_add
fd_list_add-append [] fd = refl
fd_list_add-append (x ∷ xs) fd = ap (◌∷◌ x) (fd_list_add-append xs fd)

pub has-add :
    (xs : List ℤ) (fd other : ℤ)
    → fd_list_has (fd_list_add xs fd) other ≡ (fd_list_has xs other || fd == other)
unfolding fd_list_has fd_list_add
has-add [] fd other = ground arith
has-add (x ∷ xs) fd other = ground (arith, has-add xs fd other)

-- A removal adds nothing.
pub has-remove :
    (xs : List ℤ) (fd other : ℤ)
    → fd_list_has (fd_list_remove xs fd) other ≡ true
    → fd_list_has xs other ≡ true
unfolding fd_list_has fd_list_remove
has-remove [] fd other h = h
has-remove (x ∷ xs) fd other h = ground (arith, has-remove xs fd other)

-- What was last added and not there before is what a removal takes away.
pub remove-add :
    (xs : List ℤ) (fd : ℤ) → fd_list_has xs fd ≡ false → fd_list_remove (fd_list_add xs fd) fd ≡ xs
unfolding fd_list_has fd_list_add fd_list_remove
remove-add [] fd h = ground (arith, ==_refl fd)
remove-add (x ∷ xs) fd h = ground (arith, remove-add xs fd)
