-- ===== src/Connector/RoundRobin.antt =====
-- Back ends take turns.
use rapidapp.Base.{
  ℕ, zero, suc, ◌+◌, ◌%◌, ◌≤◌, ◌<◌, ◌≡◌, refl, sym, ◌∙◌, ap, Option, leb, if◌then◌else◌, arith, ◌⊎◌,
  inl, inr,
}
use native.Mathlib.Nat.{add-mod_left, mod-eq_of_lt}
use rapidapp.Connector.State.{BackEndSet}
use rapidapp.Connector.Session.{add_back_end, take_back_end, k_max_back_end_num}

-- The indices stay in the array, and a turn is never past the entries in use by more than one.
abbrev pub Inv : BackEndSet → Type 0
Inv b = (b.backend_used ≤ k_max_back_end_num) × (b.backend_pos ≤ b.backend_used)

-- `n` turns, and the one after them.
abbrev pub nth_turn : ℕ → BackEndSet → Option ℕ
nth_turn zero b = (take_back_end b).0
nth_turn (suc n) b = nth_turn n (take_back_end b).1

pub take_back_end-Inv : (b : BackEndSet) → 0 < b.backend_used → Inv b → Inv (take_back_end b).1
unfolding take_back_end
take_back_end-Inv b some_used (u, p) = ground arith

pub add_back_end-Inv : (net : Option ℕ) (b : BackEndSet) → Inv b → Inv (add_back_end net b).1
unfolding add_back_end
add_back_end-Inv net b (u, p) = ground arith

turn : ℕ → ℕ → ℕ
turn used pos = if leb used pos then 0 else pos

turn_cases :
    (used pos : ℕ)
    → pos ≤ used
    → ((pos ≡ used) × (turn used pos ≡ 0)) ⊎ ((pos < used) × (turn used pos ≡ pos))
unfolding turn
turn_cases used pos p = ground arith

turn-mod : (used pos n : ℕ) → 0 < used → pos ≤ used → (turn used pos + n) % used ≡ (pos + n) % used
turn-mod used pos n u p = elim (turn_cases used pos p) [
  | inl (e, t) ↦
      rw (t, e) (ap (λ k. k % used) {x = 0 + n} {y = n} (omega arith) ∙ sym (add-mod_left used n))
  | inr (lt, t) ↦ rw t refl
]

turn-lt : (used pos : ℕ) → 0 < used → pos ≤ used → turn used pos < used
unfolding turn
turn-lt used pos u p = ground arith

-- If a back end was added, the n-th back end after the next one is n places further, around the
-- entries in use.
pub nth_turn_lem :
    (n : ℕ) (b : BackEndSet)
    → 0 < b.backend_used
    → b.backend_pos ≤ b.backend_used
    → nth_turn n b ≡ b.backends ((b.backend_pos + n) % b.backend_used)
unfolding take_back_end turn
nth_turn_lem zero b u p = ap b.backends (
    sym (mod-eq_of_lt (turn-lt b.backend_used b.backend_pos u p))
    ∙ ap (λ k. k % b.backend_used) {y = turn b.backend_used b.backend_pos + 0} (omega arith)
    ∙ turn-mod b.backend_used b.backend_pos 0 u p)
nth_turn_lem (suc n) b u p =
    nth_turn_lem n (take_back_end b).1 u (lt_step (turn-lt b.backend_used b.backend_pos u p))
    ∙ ap b.backends (
        ap (λ k. k % b.backend_used) {y = turn b.backend_used b.backend_pos + suc n} (omega arith)
        ∙ turn-mod b.backend_used b.backend_pos (suc n) u p)
  where
    lt_step : {k u : ℕ} → k < u → k + 1 ≤ u
    lt_step h = omega arith
