-- ===== src/Core/Workers/Interleaved/Tally.antt =====
-- Families indexed by worker: one changed place, and how many of the first places pass a test.
use mathlib.Core.Logic.{ite}
use native.Mathlib.Decide.{dec_lt, ℕ_discrete}
use sve.Base.{
  Bool-cases, ℕ, zero, suc, ◌+◌, ◌≤◌, ◌<◌, ◌≡◌, refl, inl, inr, Bool, true, false, arith,
  if◌then◌else◌,
}

abbrev pub update {ℓ} : {A : Type ℓ} → (ℕ → A) → ℕ → A → ℕ → A
update f i a j = ite (ℕ_discrete i j) a (f j)

abbrev pub one_if : Bool → ℕ
one_if b = if b then 1 else 0

module _ {ℓ} {A : Type ℓ} (test : A → Bool) where
  unfoldable pub tally : ℕ → (ℕ → A) → ℕ
  tally zero f = 0
  tally (suc n) f = one_if (test (f n)) + tally n f

  tally-outside : (n : ℕ) (f : ℕ → A) (i : ℕ) (a : A) → n ≤ i → tally n (update f i a) ≡ tally n f
  unfolding tally
  tally-outside zero f i a h = refl
  tally-outside (suc n) f i a h = ground (arith, tally-outside n f i a)

  pub tally-update :
      (n : ℕ) (f : ℕ → A) (i : ℕ) (a : A)
      → i < n
      → one_if (test (f i)) + tally n (update f i a) ≡ one_if (test a) + tally n f
  unfolding tally
  tally-update zero f i a h = absurd (omega arith)
  tally-update (suc n) f i a h = elim (dec_lt i n) [
    | yes below ↦ ground (arith, tally-update n f i a below)
    | no last ↦ ground (arith, tally-outside n f i a)
  ]

  -- One that passes is counted.
  pub tally-pos : (n : ℕ) (f : ℕ → A) (i : ℕ) → i < n → test (f i) ≡ true → 0 < tally n f
  unfolding tally
  tally-pos zero f i h e = absurd (omega arith)
  tally-pos (suc n) f i h e = elim (dec_lt i n) [
    | yes below ↦ ground (arith, tally-pos n f i below e)
    | no last ↦ ground arith
  ]

  pub one_if-tally : (n : ℕ) (f : ℕ → A) (i : ℕ) → i < n → one_if (test (f i)) ≤ tally n f
  one_if-tally n f i h = ground (arith, tally-pos n f i h)

  -- Where one is counted, one passes.
  pub pos-tally : (n : ℕ) (f : ℕ → A) → 0 < tally n f → (i : ℕ) × (i < n) × (test (f i) ≡ true)
  unfolding tally
  pos-tally zero f h = absurd (omega arith)
  pos-tally (suc n) f h = elim (Bool-cases (test (f n))) [
    | inl e ↦ (n, omega arith, e)
    | inr e ↦ let (i, below, passes) = pos-tally n f (ground arith) in (i, omega arith, passes)
  ]

  pub tally-zero : (n : ℕ) (f : ℕ → A) → ((i : ℕ) → test (f i) ≡ false) → tally n f ≡ 0
  unfolding tally
  tally-zero zero f none_passes = refl
  tally-zero (suc n) f none_passes = ground (arith, none_passes n, tally-zero n f none_passes)

pub tally_mono {ℓ} :
    {A : Type ℓ} (test stronger : A → Bool)
    → ((a : A) → stronger a ≡ true → test a ≡ true)
    → (n : ℕ) (f : ℕ → A) → tally stronger n f ≤ tally test n f
unfolding tally
tally_mono test stronger implies zero f = omega arith
tally_mono test stronger implies (suc n) f =
    ground (arith, implies (f n), tally_mono test stronger implies n f)
