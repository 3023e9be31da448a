-- ===== src/Wire/Tests.antt =====
-- Two messages and the start of a third, and the theorems there.
use rapidapp.Base.{ℕ, ◌+◌, ◌-◌, ◌^◌, ◌≡◌, refl, inr, List, [], ◌∷◌, ◌++◌, arith}
use rapidapp.Base.Run.{Run, done, ◌>>=◌}
use rapidapp.Wire.{htonl, ntohl, frame, get_msg_length, Next, go_on, resume, dispatch, on_input}
use rapidapp.Wire.Frames.{frames, IsPartial, reading, on_input-frames}
use rapidapp.Wire.Loop.{on_input_ends, dispatch_underflow}

-- A handler that keeps every message.
abbrev keep : List ℕ → List (List ℕ) → Run (Next (List (List ℕ)))
keep m s = done (go_on (s ++ (m ∷ [])))

abbrev two_messages : List (List ℕ)
two_messages = (1 ∷ 2 ∷ []) ∷ (3 ∷ []) ∷ []

abbrev start_of_third : List ℕ
start_of_third = 0 ∷ 0 ∷ 0 ∷ 9 ∷ 7 ∷ []

frame_bytes : frame (1 ∷ 2 ∷ []) ≡ 0 ∷ 0 ∷ 0 ∷ 6 ∷ 1 ∷ 2 ∷ []
unfolding frame htonl
frame_bytes = refl

start_of_third-IsPartial : IsPartial start_of_third
unfolding get_msg_length ntohl
start_of_third-IsPartial = inr (omega arith)

on_input-frames_example :
    on_input 1048576 (reading keep) (frames two_messages ++ start_of_third) []
    ≡ done (start_of_third, two_messages)
unfolding frame
on_input-frames_example =
    on_input-frames keep 1048576 two_messages start_of_third [] (omega arith, (omega arith, tt))
      start_of_third-IsPartial (omega arith)

on_input_ends_example :
    (r : List ℕ × ℕ) × (on_input 64
        (λ buf off size n. done (go_on (n + 1)))
        (0 ∷ 0 ∷ 0 ∷ 5 ∷ 8 ∷ [])
        0
      ≡ done r)
on_input_ends_example =
    on_input_ends 64 (λ buf off size n. done (go_on (n + 1)))
      (λ buf off size n. (go_on (n + 1), refl)) (0 ∷ 0 ∷ 0 ∷ 5 ∷ 8 ∷ []) 0

-- The handler notes the size that it is given.
abbrev note_size : ℕ → ℕ → List ℕ → Run (Next (List ℕ))
note_size off size s = done (go_on (size ∷ s))

dispatch_underflow_example : dispatch 2 note_size (htonl 2 ++ []) 0 [] ≡ (
    note_size 4 (2 ^ 64 + 2 - 4) [] >>= λ r.
    resume (λ s'. dispatch 1 note_size (htonl 2 ++ []) 2 s') r)
dispatch_underflow_example = dispatch_underflow 1 2 note_size [] [] (omega arith) (omega arith)
