-- ===== src/Uri/Tests.antt =====
-- Addresses with one-byte hosts, and the theorems there.
use rapidapp.Base.{ℕ, ◌-◌, ◌≡◌, refl, Option, none, some, List, [], ◌∷◌, ℤ, pos, true, arith}
use rapidapp.Uri.{rap_uri_get_socket_type, rap_uri_get_socket_addr, resolved}
use rapidapp.Uri.Forms.{unix, full_address}

-- A host is its first byte, a port the first digit.
abbrev first : List ℕ → Option ℕ
first [] = none
first (b ∷ bs) = some b

abbrev digit : List ℕ → ℤ
digit [] = pos 0
digit (b ∷ bs) = pos (b - 48)

full_address_example :
    (rap_uri_get_socket_addr first digit (some (117 ∷ 110 ∷ 105 ∷ 120 ∷ 58 ∷ 104 ∷ 58 ∷ 55 ∷ []))
      ≡ resolved (record { is_unix = true; s_addr = 104; port = 7 }))
    × (rap_uri_get_socket_type (some (117 ∷ 110 ∷ 105 ∷ 120 ∷ 58 ∷ 104 ∷ 58 ∷ 55 ∷ [])) ≡ pos 2)
full_address_example =
    full_address first digit unix (104 ∷ []) (55 ∷ []) 104 ((λ e. omega arith), tt) (omega arith)
      refl
