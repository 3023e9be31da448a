-- ===== src/Coroutine/Table.antt =====
-- A table whose keys are each there once, as an association list.
use rapidapp.Base.{
  ℕ, ◌≡◌, ◌≢◌, refl, Option, none, some, List, [], ◌∷◌, ◌==◌, if◌then◌else◌, arith, ==_refl,
}

module _ {A : Type 0} where
  unfoldable pub lookup : ℕ → List (ℕ × A) → Option A
  lookup k [] = none
  lookup k ((j, a) ∷ rest) = if j == k then some a else lookup k rest

  -- `table[k] = a`
  unfoldable pub assign : ℕ → A → List (ℕ × A) → List (ℕ × A)
  assign k a [] = (k, a) ∷ []
  assign k a ((j, b) ∷ rest) = if j == k then (j, a) ∷ rest else (j, b) ∷ assign k a rest

  unfoldable pub erase : ℕ → List (ℕ × A) → List (ℕ × A)
  erase k [] = []
  erase k ((j, a) ∷ rest) = if j == k then erase k rest else (j, a) ∷ erase k rest

  pub lookup-assign_same : (k : ℕ) (a : A) (t : List (ℕ × A)) → lookup k (assign k a t) ≡ some a
  unfolding lookup assign
  lookup-assign_same k a [] = rw (==_refl k) refl
  lookup-assign_same k a ((j, b) ∷ rest) = ground (arith, lookup-assign_same k a rest)

  pub lookup-assign_other :
      (k i : ℕ) (a : A) (t : List (ℕ × A)) → i ≢ k → lookup i (assign k a t) ≡ lookup i t
  unfolding lookup assign
  lookup-assign_other k i a [] h = ground arith
  lookup-assign_other k i a ((j, b) ∷ rest) h = ground (arith, lookup-assign_other k i a rest h)

  pub lookup-erase_same : (k : ℕ) (t : List (ℕ × A)) → lookup k (erase k t) ≡ none
  unfolding lookup erase
  lookup-erase_same k [] = refl
  lookup-erase_same k ((j, b) ∷ rest) = ground (arith, lookup-erase_same k rest)

  pub lookup-erase_other : (k i : ℕ) (t : List (ℕ × A)) → i ≢ k → lookup i (erase k t) ≡ lookup i t
  unfolding lookup erase
  lookup-erase_other k i [] h = refl
  lookup-erase_other k i ((j, b) ∷ rest) h = ground (arith, lookup-erase_other k i rest h)
