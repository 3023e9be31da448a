-- ===== src/Net/Walk/Kept.antt =====
-- Which sockets a walk leaves in the table.
use rapidapp.Base.{
  ℕ, ◌≡◌, refl, sym, ◌∙◌, ap, subst, Bool, true, false, none, some, List, [], ◌∷◌, ◌==◌,
  if◌then◌else◌, arith, inl, inr, Bool-cases, ◌↔◌, Option,
}
use rapidapp.Net.{EasyNet, find}
use rapidapp.Net.Pool.{Distinct}
use rapidapp.Net.Walk.Complete.{kept, stays}

-- What a table says of a socket after the walk.
module _ (act : EasyNet → Bool × EasyNet) (nets : ℕ → Option EasyNet) where
  after : Option ℕ → Option ℕ
  after none = none
  after (some net) = if stays act (nets net) then some net else none

  find-kept :
      (k : ℕ) (pool : List (ℕ × ℕ))
      → Distinct pool
      → find k (kept act nets pool) ≡ after (find k pool)
  unfolding find after
  find-kept k [] d = refl
  find-kept k ((j, net) ∷ rest) (absent, d) = elim (Bool-cases (j == k)) [
    | inl q ↦ elim (Bool-cases (stays act (nets net))) [
      | inl held ↦ rw (held, q, held) refl
      | inr shut ↦
          rw (shut, q, shut)
            (find-kept k rest d ∙ ap after (subst (λ i. find i rest ≡ none) (equal j k q) absent))
    ]
    | inr q ↦ elim (Bool-cases (stays act (nets net))) [
      | inl held ↦ rw (held, q) (find-kept k rest d)
      | inr shut ↦ rw (shut, q) (find-kept k rest d)
    ]
  ]
    where
      equal : (j k : ℕ) → (j == k) ≡ true → j ≡ k
      equal j k q = ground arith

  -- The walk adds nothing, and loses just what the decision closes.
  pub kept_sub :
      (k net : ℕ) (pool : List (ℕ × ℕ))
      → Distinct pool
      → find k (kept act nets pool) ≡ some net
      → find k pool ≡ some net
  unfolding after
  kept_sub k net pool d f = go (find k pool) (sym (find-kept k pool d) ∙ f)
    where
      go : (v : Option ℕ) → after v ≡ some net → v ≡ some net
      go none e = e
      go (some b) e = elim (Bool-cases (stays act (nets b))) [
        | inl held ↦ rw held at e
        | inr shut ↦ absurd (clash (rw shut at e))
      ]
        where
          clash : none ≡ some net → ⊥
          clash e = cc

  pub kept_iff :
      (k net : ℕ) (n : EasyNet) (pool : List (ℕ × ℕ))
      → Distinct pool
      → find k pool ≡ some net
      → nets net ≡ some n
      → (find k (kept act nets pool) ≡ none) ↔ ((act n).0 ≡ true)
  unfolding after
  kept_iff k net n pool d f a = elim (Bool-cases (act n).0) [
    | inl shut ↦ (λ _. shut, λ _. gone shut)
    | inr held ↦ (λ e. absurd (clash (sym e ∙ left held)), λ c. absurd (differ (sym c ∙ held)))
  ]
    where
      gone : (act n).0 ≡ true → find k (kept act nets pool) ≡ none
      gone shut = find-kept k pool d ∙ rw (f, a, shut) refl

      left : (act n).0 ≡ false → find k (kept act nets pool) ≡ some net
      left held = find-kept k pool d ∙ rw (f, a, held) refl

      clash : none ≡ some net → ⊥
      clash e = cc

      differ : true ≡ false → ⊥
      differ e = cc
