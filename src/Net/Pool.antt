-- ===== src/Net/Pool.antt =====
-- The table from sockets to connections, as a list.
use rapidapp.Base.{
  ℕ, ◌≡◌, ◌≢◌, refl, sym, ◌∙◌, ap, subst, true, false, none, some, List, [], ◌∷◌, ◌==◌, ==_refl,
  arith, ◌⊎◌, inl, inr, Bool-cases,
}
use rapidapp.Net.{Cursor, at, at_end, invalid, find, erase, begin, next}

-- No socket stands twice.
abbrev pub Distinct : List (ℕ × ℕ) → Type 0
Distinct [] = Unit
Distinct ((k, net) ∷ rest) = (find k rest ≡ none) × Distinct rest

-- A cursor is at an entry of the table or at its end.
abbrev pub OnEntry : Cursor → List (ℕ × ℕ) → Type 0
OnEntry (at fd) pool = (net : ℕ) × (find fd pool ≡ some net)
OnEntry at_end pool = Unit
OnEntry invalid pool = ⊥

data KeyCase (k fd : ℕ) : Type 0 where
  same : (k == fd) ≡ true → k ≡ fd → KeyCase k fd
  other : (k == fd) ≡ false → k ≢ fd → KeyCase k fd

key_case : (k fd : ℕ) → KeyCase k fd
key_case k fd = elim (Bool-cases (k == fd)) [
  | inl h ↦ same h (equal k fd h)
  | inr h ↦ other h (unequal k fd h)
]
  where
    equal : (k fd : ℕ) → (k == fd) ≡ true → k ≡ fd
    equal k fd h = ground arith

    unequal : (k fd : ℕ) → (k == fd) ≡ false → k ≢ fd
    unequal k fd h e = ground arith

pub find-erase_same :
    (fd : ℕ) (pool : List (ℕ × ℕ)) → Distinct pool → find fd (erase fd pool) ≡ none
unfolding find erase
find-erase_same fd [] d = refl
find-erase_same fd ((k, net) ∷ rest) (absent, d) = elim (key_case k fd) [
  | same h e ↦ rw h (rw⁻¹ e absent)
  | other h ne ↦ rw (h, h) (find-erase_same fd rest d)
]

pub find-erase_other :
    (fd fd' : ℕ) (pool : List (ℕ × ℕ)) → fd' ≢ fd → find fd' (erase fd pool) ≡ find fd' pool
unfolding find erase
find-erase_other fd fd' [] ne = refl
find-erase_other fd fd' ((k, net) ∷ rest) ne = elim (key_case k fd) [
  | same h e ↦ rw h (sym (skip k fd' net rest (λ q. ne (sym q ∙ e))))
  | other h _ ↦ rw h (elim (key_case k fd') [
    | same h' _ ↦ rw h' refl
    | other h' _ ↦ rw h' (find-erase_other fd fd' rest ne)
  ])
]
  where
    skip :
        (k fd' net : ℕ) (rest : List (ℕ × ℕ)) → k ≢ fd' → find fd' ((k, net) ∷ rest) ≡ find fd' rest
    skip k fd' net rest n = elim (key_case k fd') [
      | same h q ↦ absurd (n q)
      | other h _ ↦ rw h refl
    ]

pub Distinct-erase : (fd : ℕ) (pool : List (ℕ × ℕ)) → Distinct pool → Distinct (erase fd pool)
unfolding erase
Distinct-erase fd [] d = tt
Distinct-erase fd ((k, net) ∷ rest) (absent, d) = elim (key_case k fd) [
  | same h e ↦ rw h d
  | other h ne ↦ rw h (find-erase_other fd k rest ne ∙ absent, Distinct-erase fd rest d)
]

begin_cases :
    (pool : List (ℕ × ℕ))
    → (begin pool ≡ at_end) ⊎ ((k net : ℕ) × (begin pool ≡ at k) × (find k pool ≡ some net))
unfolding begin find
begin_cases [] = inl refl
begin_cases ((k, net) ∷ rest) = inr (k, net, refl, rw (==_refl k) refl)

pub begin-OnEntry : (pool : List (ℕ × ℕ)) → OnEntry (begin pool) pool
unfolding begin find
begin-OnEntry [] = tt
begin-OnEntry ((k, net) ∷ rest) = (net, rw (==_refl k) refl)

-- What stands in the rest stands there under a head that does not.
find_behind :
    (k net y v : ℕ) (rest : List (ℕ × ℕ))
    → find k rest ≡ none
    → find y rest ≡ some v
    → (y ≢ k) × (find y ((k, net) ∷ rest) ≡ some v)
unfolding find
find_behind k net y v rest absent found = elim (key_case k y) [
  | same h e ↦ absurd (clash (sym absent ∙ ap (λ t. find t rest) e ∙ found))
  | other h ne ↦ (λ q. ne (sym q), rw h found)
]
  where
    clash : {v : ℕ} → none ≡ some v → ⊥
    clash e = cc

-- The step from an entry leads to another entry, or to the end.
pub next_cases :
    (fd : ℕ) (pool : List (ℕ × ℕ))
    → Distinct pool
    → (next fd pool ≡ at_end)
      ⊎ ((k net : ℕ) × (next fd pool ≡ at k) × (k ≢ fd) × (find k pool ≡ some net))
unfolding next
next_cases fd [] d = inl refl
next_cases fd ((k, net) ∷ rest) (absent, d) = elim (key_case k fd) [
  | same h e ↦ elim (begin_cases rest) [
    | inl b ↦ inl (rw h b)
    | inr (y, v, b, found) ↦
        let (ne, f) = find_behind k net y v rest absent found in
        inr (y, v, rw h b, λ q. ne (q ∙ sym e), f)
  ]
  | other h _ ↦ elim (next_cases fd rest d) [
    | inl b ↦ inl (rw h b)
    | inr (y, v, b, ne, found) ↦ inr (y, v, rw h b, ne, (find_behind k net y v rest absent found).1)
  ]
]

-- What is found after an erasure was there before.
pub find-erase_sub :
    (fd k v : ℕ) (pool : List (ℕ × ℕ))
    → Distinct pool
    → find k (erase fd pool) ≡ some v
    → find k pool ≡ some v
find-erase_sub fd k v pool d f = elim (key_case k fd) [
  | same _ e ↦
      absurd
        (clash (sym (find-erase_same fd pool d) ∙ ap (λ t. find t (erase fd pool)) (sym e) ∙ f))
  | other _ ne ↦ sym (find-erase_other fd k pool ne) ∙ f
]
  where
    clash : {v : ℕ} → none ≡ some v → ⊥
    clash e = cc

pub next-OnEntry : (fd : ℕ) (pool : List (ℕ × ℕ)) → Distinct pool → OnEntry (next fd pool) pool
next-OnEntry fd pool d = elim (next_cases fd pool d) [
  | inl e ↦ subst (λ c. OnEntry c pool) (sym e) tt
  | inr (k, v, e, ne, f) ↦ subst (λ c. OnEntry c pool) (sym e) (v, f)
]
