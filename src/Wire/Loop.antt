-- ===== src/Wire/Loop.antt =====
-- The loop over a buffer ends, and what it hands over for a length field that is too small.
use rapidapp.Base.{
  ℕ, zero, suc, ◌+◌, ◌-◌, ◌^◌, ◌≤◌, ◌<◌, ◌≡◌, ◌⊎◌, inl, inr, refl, ap, ◌∙◌, List, ◌++◌, length,
  take, drop, arith, sub64, Option, none, some, length-drop,
}
use rapidapp.Base.Run.{Run, done, ◌>>=◌}
use rapidapp.Wire.{htonl, get_msg_length, Next, go_on, close, resume, dispatch, drain, on_input}
use rapidapp.Wire.Codec.{get_msg_length-htonl, length-htonl}
use rapidapp.Wire.Frames.{IsPartial, dispatch_stop, dispatch_round}

-- There is a whole message or there is not.
IsPartial-cases :
    (xs : List ℕ) → IsPartial xs ⊎ ((0 < get_msg_length xs) × (get_msg_length xs ≤ length xs))
IsPartial-cases xs = cases (get_msg_length xs) (length xs)
  where
    cases : (n l : ℕ) → ((n ≡ 0) ⊎ (l < n)) ⊎ ((0 < n) × (n ≤ l))
    cases n l = ground arith

Ends : {A : Type 0} → Run A → Type 0
Ends {A} r = (a : A) × (r ≡ done a)

bind-Ends :
    {A B : Type 0} (r : Run A) (f : A → Run B) → Ends r → ((a : A) → Ends (f a)) → Ends (r >>= f)
unfolding Ends
bind-Ends r f (a, e) k = rw e (k a)

module _ {S : Type 0} where
  resume-Ends :
      (f : S → Run (Option ℕ × S)) (n : Next S) → ((s : S) → Ends (f s)) → Ends (resume f n)
  unfolding Ends resume
  resume-Ends f (go_on s) k = k s
  resume-Ends f (close s) k = ((none, s), refl)

  dispatch-Ends :
      (on_msg : ℕ → ℕ → S → Run (Next S))
      → ((off size : ℕ) (s : S) → Ends (on_msg off size s))
      → (fuel : ℕ) (buf : List ℕ) (elapsed : ℕ) (s : S) → length buf - elapsed < fuel
      → Ends (dispatch fuel on_msg buf elapsed s)
  unfolding Ends
  dispatch-Ends on_msg total zero buf elapsed s lt = absurd (omega arith)
  dispatch-Ends on_msg total (suc fuel) buf elapsed s lt =
      elim (IsPartial-cases (drop elapsed buf)) [
        | inl p ↦ ((some elapsed, s), dispatch_stop fuel on_msg buf elapsed s p)
        | inr (p, q) ↦
            let n = get_msg_length (drop elapsed buf) in
            rw
              (dispatch_round fuel on_msg buf elapsed n s refl p
                (omega (arith, length-drop elapsed buf)))
              (bind-Ends (on_msg (elapsed + 4) (sub64 n 4) s)
                (λ r. resume (λ s'. dispatch fuel on_msg buf (elapsed + n) s') r)
                (total (elapsed + 4) (sub64 n 4) s)
                (λ r.
                  resume-Ends (λ s'. dispatch fuel on_msg buf (elapsed + n) s') r
                    (λ s'.
                      dispatch-Ends on_msg total fuel buf (elapsed + n) s'
                        (omega (arith, length-drop elapsed buf)))))
      ]

-- Whatever bytes arrive, a message event ends if each call of the handler does.
pub on_input_ends :
    {S : Type 0} (recv_buff_size : ℕ) (on_msg : List ℕ → ℕ → ℕ → S → Run (Next S))
    → ((buf : List ℕ) (off size : ℕ) (s : S) → (n : Next S) × (on_msg buf off size s ≡ done n))
    → (input : List ℕ) (s : S)
    → (r : List ℕ × S) × (on_input recv_buff_size on_msg input s ≡ done r)
unfolding on_input Ends
on_input_ends recv_buff_size on_msg total input s =
    let buf = take recv_buff_size input in
    bind-Ends (dispatch (suc (length buf)) (on_msg buf) buf 0 s) (λ r. done (drain input r))
      (dispatch-Ends (on_msg buf) (total buf) (suc (length buf)) buf 0 s (omega arith))
      (λ r. (drain input r, refl))

-- A length field of 1, 2 or 3 counts less than its own four bytes. It passes the loop's test, and
-- the handler is called with a size of 2 ^ 64 - 3 or more, whatever follows in the buffer.
pub dispatch_underflow :
    {S : Type 0} (fuel n : ℕ) (on_msg : ℕ → ℕ → S → Run (Next S)) (rest : List ℕ) (s : S)
    → 0 < n
    → n < 4
    → dispatch (suc fuel) on_msg (htonl n ++ rest) 0 s ≡ (
        on_msg 4 (2 ^ 64 + n - 4) s >>= λ r.
        resume (λ s'. dispatch fuel on_msg (htonl n ++ rest) n s') r)
dispatch_underflow fuel n on_msg rest s p q =
    dispatch_round fuel on_msg (htonl n ++ rest) 0 n s (get_msg_length-htonl n rest (omega arith)) p
      (omega (arith, length-htonl n rest))
    ∙ ap
        (λ o. on_msg o (sub64 n 4) s >>= λ r.
          resume (λ s'. dispatch fuel on_msg (htonl n ++ rest) (0 + n) s') r)
        {y = 4} (omega arith)
    ∙ ap
        (λ k.
          on_msg 4 k s >>= λ r. resume (λ s'. dispatch fuel on_msg (htonl n ++ rest) (0 + n) s') r)
        {y = 2 ^ 64 + n - 4} (omega arith)
    ∙ ap
        (λ e. on_msg 4 (2 ^ 64 + n - 4) s >>= λ r.
          resume (λ s'. dispatch fuel on_msg (htonl n ++ rest) e s') r)
        {y = n} (omega arith)
