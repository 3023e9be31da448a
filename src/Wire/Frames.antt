-- ===== src/Wire/Frames.antt =====
-- Walking a buffer: whole messages are handed over one by one, whatever is left stays.
use rapidapp.Base.{
  ℕ, zero, suc, ◌+◌, ◌-◌, ◌^◌, ◌%◌, ◌≤◌, ◌<◌, ◌≡◌, refl, sym, ap, ◌∙◌, ◌⊎◌, inl, inr, List, [], ◌∷◌,
  ◌++◌, length, take, drop, arith, ltb, ◌==◌, ◌||◌, true, false, sub64, Option, some, length-append,
  drop-append, take-append, length-drop, take_all, drop-drop, Bool-cases, subst, append_assoc,
}
use rapidapp.Base.Run.{Run, done, fault, exhausted, ◌>>=◌}
use rapidapp.Wire.{
  htonl, frame, get_msg_length, Next, go_on, close, resume, dispatch, drain, on_input,
}
use rapidapp.Wire.Codec.{get_msg_length-htonl, length-frame}

abbrev pub frames : List (List ℕ) → List ℕ
frames [] = []
frames (m ∷ ms) = frame m ++ frames ms

-- Messages whose frames have a length that an `int` holds.
abbrev pub AllShort : List (List ℕ) → Type 0
AllShort [] = Unit
AllShort (m ∷ ms) = (length m + 4 < 2 ^ 31) × AllShort ms

-- The bytes do not hold a whole message.
abbrev pub IsPartial : List ℕ → Type 0
IsPartial xs = (get_msg_length xs ≡ 0) ⊎ (length xs < get_msg_length xs)

-- The handler on each message in turn, and the bytes gone by.
abbrev pub deliver :
    {S : Type 0} → (List ℕ → S → Run (Next S)) → List (List ℕ) → ℕ → S → Run (Option ℕ × S)
deliver h [] n s = done (some n, s)
deliver h (m ∷ ms) n s = h m s >>= λ r. resume (λ s'. deliver h ms (n + (length m + 4)) s') r

-- A message event as the handler sees it: the messages one by one, then the input that is left.
abbrev pub served_next : {S : Type 0} → List ℕ → (S → Run (List ℕ × S)) → Next S → Run (List ℕ × S)
served_next input k (go_on s) = k s
served_next input k (close s) = done (input, s)

abbrev pub served :
    {S : Type 0}
    → (List ℕ → S → Run (Next S))
    → (input rest : List ℕ) → List (List ℕ)
    → S
    → Run (List ℕ × S)
served h input rest [] s = done (rest, s)
served h input rest (m ∷ ms) s = h m s >>= served_next input (λ s'. served h input rest ms s')

-- The handler that reads a message where it stands in the buffer.
abbrev pub reading : {S : Type 0} → (List ℕ → S → Run (Next S)) → List ℕ → ℕ → ℕ → S → Run (Next S)
reading h buf off size s = h (take size (drop off buf)) s

bind-ext :
    {A B : Type 0} (r : Run A) (f g : A → Run B) → ((a : A) → f a ≡ g a) → (r >>= f) ≡ (r >>= g)
bind-ext (done a) f g e = e a
bind-ext fault f g e = refl
bind-ext exhausted f g e = refl

resume-ext :
    {S : Type 0} (f g : S → Run (Option ℕ × S))
    → ((s : S) → f s ≡ g s)
    → (n : Next S) → resume f n ≡ resume g n
unfolding resume
resume-ext f g e (go_on s) = e s
resume-ext f g e (close s) = refl

-- A frame at the reading point.
get_msg_length-frame :
    (m rest : List ℕ) → length m + 4 < 2 ^ 31 → get_msg_length (frame m ++ rest) ≡ length m + 4
unfolding frame
get_msg_length-frame m rest h =
    rw (append_assoc (htonl ((length m + 4) % 2 ^ 32)) m rest)
      (get_msg_length-htonl ((length m + 4) % 2 ^ 32) (m ++ rest) (omega arith) ∙ omega arith)

stop-true : (n l : ℕ) → (n ≡ 0) ⊎ (l < n) → (n == 0 || ltb l n) ≡ true
stop-true n l h = ground arith

stop-false : (n l : ℕ) → 0 < n → n ≤ l → (n == 0 || ltb l n) ≡ false
stop-false n l h k = ground arith

ltb-false : (a b : ℕ) → b ≤ a → ltb a b ≡ false
ltb-false a b h = ground arith

ltb-true : (a b : ℕ) → a < b → ltb a b ≡ true
ltb-true a b h = ground arith

module _ {S : Type 0} where
  -- The loop ends where no whole message is left.
  pub dispatch_stop :
      (fuel : ℕ) (on_msg : ℕ → ℕ → S → Run (Next S)) (buf : List ℕ) (elapsed : ℕ) (s : S)
      → IsPartial (drop elapsed buf)
      → dispatch (suc fuel) on_msg buf elapsed s ≡ done (some elapsed, s)
  unfolding dispatch
  dispatch_stop fuel on_msg buf elapsed s h = elim (Bool-cases (ltb elapsed (length buf))) [
    | inl eq ↦ rw (dispatch, eq, stop)
    | inr eq ↦ rw (dispatch, eq)
  ]
    where
      stop :
          (get_msg_length (drop elapsed buf) == 0
            || ltb (length buf - elapsed) (get_msg_length (drop elapsed buf)))
          ≡ true
      stop =
          subst
            (λ l.
              (get_msg_length (drop elapsed buf) == 0 || ltb l (get_msg_length (drop elapsed buf)))
              ≡ true)
            (length-drop elapsed buf)
            (stop-true (get_msg_length (drop elapsed buf)) (length (drop elapsed buf)) h)

  -- A whole message is handed over, and the loop goes on behind it.
  pub dispatch_round :
      (fuel : ℕ) (on_msg : ℕ → ℕ → S → Run (Next S)) (buf : List ℕ) (elapsed n : ℕ) (s : S)
      → get_msg_length (drop elapsed buf) ≡ n
      → 0 < n
      → n ≤ length buf - elapsed
      → dispatch (suc fuel) on_msg buf elapsed s ≡ (
          on_msg (elapsed + 4) (sub64 n 4) s >>= λ r.
          resume (λ s'. dispatch fuel on_msg buf (elapsed + n) s') r)
  unfolding dispatch
  dispatch_round fuel on_msg buf elapsed n s h p q =
      rw
        (
          dispatch,
          ltb-true elapsed (length buf) (omega arith),
          h,
          stop-false n (length buf - elapsed) p q,
        )
        (ap
          (λ k. on_msg (elapsed + 4) (sub64 k 4) s >>= λ r.
            resume (λ s'. dispatch fuel on_msg buf (elapsed + k) s') r)
          h)

drop_4-frame : (m rest : List ℕ) → drop 4 (frame m ++ rest) ≡ m ++ rest
unfolding frame htonl
drop_4-frame m rest = refl

pub length-frames :
    (m : List ℕ) (ms : List (List ℕ)) (rest : List ℕ)
    → length (frames (m ∷ ms) ++ rest) ≡ (length m + 4) + length (frames ms ++ rest)
length-frames m ms rest = omega (
  arith,
  length-append (frame m ++ frames ms) rest,
  length-append (frame m) (frames ms),
  length-append (frames ms) rest,
  length-frame m,
)

module _ {S : Type 0} (h : List ℕ → S → Run (Next S)) where
  -- From any place in a buffer that holds messages and a partial one behind it.
  pub dispatch-frames :
      (ms : List (List ℕ)) (rest pre buf : List ℕ) (elapsed fuel : ℕ) (s : S)
      → AllShort ms
      → IsPartial rest
      → buf ≡ pre ++ (frames ms ++ rest)
      → elapsed ≡ length pre
      → length (frames ms ++ rest) < fuel
      → dispatch fuel (reading h buf) buf elapsed s ≡ deliver h ms elapsed s
  dispatch-frames ms rest pre buf elapsed zero s short part eq el lt = absurd (omega arith)
  dispatch-frames [] rest pre buf elapsed (suc fuel) s short part eq el lt =
      dispatch_stop fuel (reading h buf) buf elapsed s (subst IsPartial (sym at) part)
    where
      at : drop elapsed buf ≡ rest
      at = rw eq (drop-append elapsed pre rest el)
  dispatch-frames (m ∷ ms) rest pre buf elapsed (suc fuel) s short part eq el lt =
      dispatch_round fuel (reading h buf) buf elapsed (length m + 4) s
        (rw at (get_msg_length-frame m (frames ms ++ rest) (short.0))) (omega arith)
        (omega (
          arith,
          sym (length-drop elapsed buf),
          ap length at,
          length-append (frame m) (frames ms ++ rest),
          length-frame m,
        ))
      ∙ ap
          (λ r. r >>= λ n.
            resume (λ s'. dispatch fuel (reading h buf) buf (elapsed + (length m + 4)) s') n)
          handed
      ∙ bind-ext (h m s)
          (λ n. resume (λ s'. dispatch fuel (reading h buf) buf (elapsed + (length m + 4)) s') n)
          (λ n. resume (λ s'. deliver h ms (elapsed + (length m + 4)) s') n)
          (λ n.
            resume-ext (λ s'. dispatch fuel (reading h buf) buf (elapsed + (length m + 4)) s')
              (λ s'. deliver h ms (elapsed + (length m + 4)) s')
              (λ s'.
                dispatch-frames ms rest (pre ++ frame m) buf (elapsed + (length m + 4)) fuel s'
                  (short.1) part
                  (eq
                    ∙ ap (λ t. pre ++ t) (append_assoc (frame m) (frames ms) rest)
                    ∙ sym (append_assoc pre (frame m) (frames ms ++ rest)))
                  (omega (arith, length-append pre (frame m), length-frame m))
                  (omega (arith, length-frames m ms rest)))
              n)
    where
      at : drop elapsed buf ≡ frame m ++ (frames ms ++ rest)
      at = rw eq (
          drop-append elapsed pre ((frame m ++ frames ms) ++ rest) el
          ∙ append_assoc (frame m) (frames ms) rest)

      behind : drop (elapsed + 4) buf ≡ m ++ (frames ms ++ rest)
      behind =
          sym (drop-drop 4 elapsed (elapsed + 4) buf (omega arith))
          ∙ ap (λ t. drop 4 t) at
          ∙ drop_4-frame m (frames ms ++ rest)

      handed : reading h buf (elapsed + 4) (sub64 (length m + 4) 4) s ≡ h m s
      handed = rw behind (
          ap (λ t. h t s)
            (take-append (sub64 (length m + 4) 4) m (frames ms ++ rest) (omega arith)))

  -- Whatever the drained part is, it ends where the messages end.
  served-deliver :
      (ms : List (List ℕ)) (input rest : List ℕ) (n : ℕ) (s : S)
      → drop (n + length (frames ms)) input ≡ rest
      → (deliver h ms n s >>= λ r. done (drain input r)) ≡ served h input rest ms s
  unfolding drain resume
  served-deliver [] input rest n s e =
      ap (λ t. done (t, s)) (ap (λ k. drop k input) (omega arith) ∙ e)
  served-deliver (m ∷ ms) input rest n s e = go (h m s) (λ s'.
      served-deliver ms input rest (n + (length m + 4)) s' (
        ap (λ k. drop k input) (omega (arith, length-append (frame m) (frames ms), length-frame m))
        ∙ e))
    where
      go :
          (r : Run (Next S))
          → ((s : S)
              → (deliver h ms (n + (length m + 4)) s >>= λ r. done (drain input r))
                ≡ served h input rest ms s)
          → ((r >>= λ r. resume (λ s'. deliver h ms (n + (length m + 4)) s') r) >>= λ r.
              done (drain input r))
            ≡ (r >>= served_next input (λ s'. served h input rest ms s'))
      go (done (go_on s')) k = k s'
      go (done (close s')) k = refl
      go fault k = refl
      go exhausted k = refl

  -- If the input holds whole messages, each below 2 GB with its length field, and a part of the
  -- next one, and the receive buffer takes it all, the event hands each message over in order,
  -- each just its own bytes, and ends. The partial message is left in the input; a handler that
  -- closes the connection ends the event with the input as it was.
  pub on_input-frames :
      (recv_buff_size : ℕ) (ms : List (List ℕ)) (rest : List ℕ) (s : S)
      → AllShort ms
      → IsPartial rest
      → length (frames ms ++ rest) ≤ recv_buff_size
      → on_input recv_buff_size (reading h) (frames ms ++ rest) s
        ≡ served h (frames ms ++ rest) rest ms s
  unfolding on_input
  on_input-frames recv_buff_size ms rest s short part fits =
      rw
        (
          on_input,
          take_all recv_buff_size (frames ms ++ rest) fits,
          dispatch-frames ms rest [] (frames ms ++ rest) 0 (suc (length (frames ms ++ rest))) s
              short part refl refl (omega arith),
        )
        (served-deliver ms (frames ms ++ rest) rest 0 s
          (drop-append (0 + length (frames ms)) (frames ms) rest (omega arith)))
