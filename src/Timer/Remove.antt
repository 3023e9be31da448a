-- ===== src/Timer/Remove.antt =====
-- `RemoveTimer`: the scan erases the timer, but its iterator then skips the next element, and runs
-- off the end when the last element was the one erased.
use native.Mathlib.Nat.{suc-add}
use rapidapp.Base.{
  ℕ, zero, suc, ◌+◌, ◌≡◌, ◌≢◌, refl, sym, ap, ◌∙◌, some, none, List, [], ◌∷◌, ◌++◌, length, arith,
  success, get_elem?, erase_at, length-append, append-nil, append_assoc,
}
use rapidapp.Base.Run.{done, fault}
use rapidapp.Timer.{EasyTimer, TimerMgr, remove_scan, remove_timer}

-- No timer of the list stands at the address.
abbrev pub Absent : ℕ → List EasyTimer → Type 0
Absent a [] = Unit {0}
Absent a (t ∷ ts) = (t.addr ≢ a) × Absent a ts

get_elem?-middle {ℓ} :
    {A : Type ℓ} (xs ys : List A) (y : A) → get_elem? (xs ++ y ∷ ys) (length xs) ≡ some y
get_elem?-middle [] ys y = refl
get_elem?-middle (x ∷ xs) ys y = get_elem?-middle xs ys y

erase_at-middle {ℓ} :
    {A : Type ℓ} (xs ys : List A) (y : A) → erase_at (xs ++ y ∷ ys) (length xs) ≡ xs ++ ys
erase_at-middle [] ys y = refl
erase_at-middle (x ∷ xs) ys y = ap (◌∷◌ x) (erase_at-middle xs ys y)

-- One round over an element that is kept.
scan_keep :
    (fuel a : ℕ) (xs ys : List EasyTimer) (y : EasyTimer)
    → y.addr ≢ a
    → remove_scan (suc fuel) a (xs ++ y ∷ ys) (length xs)
      ≡ remove_scan fuel a (xs ++ y ∷ ys) (length xs + 1)
unfolding remove_scan
scan_keep fuel a xs ys y ne = ground (arith, get_elem?-middle xs ys y, length-append xs (y ∷ ys))

-- The round that erases: the scan goes on behind the element that slid into its place.
scan_erase :
    (fuel a : ℕ) (xs ys : List EasyTimer) (y : EasyTimer)
    → y.addr ≡ a
    → remove_scan (suc fuel) a (xs ++ y ∷ ys) (length xs)
      ≡ remove_scan fuel a (xs ++ ys) (length xs + 1)
unfolding remove_scan
scan_erase fuel a xs ys y e =
    ground (arith, get_elem?-middle xs ys y, erase_at-middle xs ys y, length-append xs (y ∷ ys))

scan_end : (fuel a : ℕ) (xs : List EasyTimer) → remove_scan (suc fuel) a xs (length xs) ≡ done xs
unfolding remove_scan
scan_end fuel a xs = ground arith

get_elem?-past {ℓ} : {A : Type ℓ} (xs : List A) → get_elem? xs (length xs + 1) ≡ none
get_elem?-past [] = refl
get_elem?-past (x ∷ xs) = rw (suc-add) (get_elem?-past xs)

scan_past : (fuel a : ℕ) (xs : List EasyTimer) → remove_scan (suc fuel) a xs (length xs + 1) ≡ fault
unfolding remove_scan
scan_past fuel a xs = ground (arith, get_elem?-past xs)

snoc {ℓ} : {A : Type ℓ} (xs ys : List A) (y : A) → xs ++ y ∷ ys ≡ (xs ++ y ∷ []) ++ ys
snoc xs ys y = sym (append_assoc xs (y ∷ []) ys)

length-snoc {ℓ} : {A : Type ℓ} (xs : List A) (y : A) → length xs + 1 ≡ length (xs ++ y ∷ [])
length-snoc xs y = omega (arith, length-append xs (y ∷ []))

-- The scan goes over a stretch without the timer.
scan_over :
    (n fuel a : ℕ) (xs ys rest : List EasyTimer)
    → Absent a ys
    → n ≡ length ys + fuel
    → remove_scan n a (xs ++ (ys ++ rest)) (length xs)
      ≡ remove_scan fuel a ((xs ++ ys) ++ rest) (length (xs ++ ys))
scan_over n fuel a xs [] rest h e =
    rw append-nil (ap (λ k. remove_scan k a (xs ++ rest) (length xs)) (omega arith))
scan_over zero fuel a xs (y ∷ ys) rest h e = absurd (omega arith)
scan_over (suc n) fuel a xs (y ∷ ys) rest h e =
    scan_keep n a xs (ys ++ rest) y h.0
    ∙ rw (snoc xs (ys ++ rest) y, length-snoc xs y)
        (scan_over n fuel a (xs ++ y ∷ []) ys rest h.1 (omega arith)
          ∙ rw (append_assoc xs (y ∷ []) ys) refl)

scan_rest :
    (n k a : ℕ) (xs ys : List EasyTimer)
    → Absent a ys
    → n ≡ length ys + suc k
    → remove_scan n a (xs ++ ys) (length xs) ≡ done (xs ++ ys)
scan_rest n k a xs ys h e =
    let over : remove_scan n a (xs ++ (ys ++ [])) (length xs)
        ≡ remove_scan (suc k) a ((xs ++ ys) ++ []) (length (xs ++ ys)) =
      scan_over n (suc k) a xs ys [] h e in
    (rw (append-nil, append-nil) at over) ∙ scan_end k a (xs ++ ys)

-- The scan from the start up to and over the timer.
scan_found :
    (n fuel a : ℕ) (xs ys : List EasyTimer) (t : EasyTimer)
    → Absent a xs
    → t.addr ≡ a
    → n ≡ length xs + suc fuel
    → remove_scan n a (xs ++ t ∷ ys) 0 ≡ remove_scan fuel a (xs ++ ys) (length xs + 1)
scan_found n fuel a xs ys t h e k =
    scan_over n (suc fuel) a [] xs (t ∷ ys) h k ∙ scan_erase fuel a xs ys t e

-- Of a timer that stands once in the list and not last: the timer is erased, and all others are
-- kept in their order.
pub remove_timer_inner :
    (m : TimerMgr) (before after : List EasyTimer) (t next : EasyTimer)
    → m.timer_list ≡ before ++ t ∷ next ∷ after
    → Absent t.addr before
    → Absent t.addr after
    → remove_timer (some t.addr) m
      ≡ done (success, record m { timer_list = before ++ next ∷ after })
unfolding remove_timer
remove_timer_inner m before after t next e ha hb =
    let fuel = suc (suc (length m.timer_list)) in
    let found =
      scan_found fuel (length after + 3) t.addr before (next ∷ after) t ha refl
        (omega (arith, ap length e, length-append before (t ∷ next ∷ after))) in
    let rest = scan_rest (length after + 3) 2 t.addr (before ++ next ∷ []) after hb refl in
    rw (
      ap (λ es. remove_scan fuel t.addr es 0) e,
      found,
      snoc before after next,
      length-snoc before next,
      rest,
    )

-- Of a timer that is not in the list: the call succeeds and the list stays as it is.
pub remove_timer-Absent :
    (m : TimerMgr) (a : ℕ) → Absent a m.timer_list → remove_timer (some a) m ≡ done (success, m)
unfolding remove_timer
remove_timer-Absent m a h =
    rw (scan_rest (suc (suc (length m.timer_list))) 1 a [] m.timer_list h (omega arith))

-- Of a timer that stands last in the list and nowhere else: the scan reads past the end of the
-- list.
pub remove_timer_last :
    (m : TimerMgr) (before : List EasyTimer) (t : EasyTimer)
    → m.timer_list ≡ before ++ t ∷ []
    → Absent t.addr before
    → remove_timer (some t.addr) m ≡ fault
unfolding remove_timer
remove_timer_last m before t e h =
    let fuel = suc (suc (length m.timer_list)) in
    let found =
      scan_found fuel 2 t.addr before [] t h refl
        (omega (arith, ap length e, length-append before (t ∷ []))) in
    rw (ap (λ es. remove_scan fuel t.addr es 0) e, found, append-nil, scan_past 1 t.addr before)
