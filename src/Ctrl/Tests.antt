-- ===== src/Ctrl/Tests.antt =====
-- Commands in a buffer of zeros.
use rapidapp.Base.{ℕ, ◌≡◌, refl, List, [], ◌∷◌, replicate, ℤ, success, arith}
use rapidapp.Base.Run.{done}
use rapidapp.Ctrl.{
  CommandListener, get_event_listener, read_ctrl, run_command, on_ctrl_msg, is_delimeter, dispatch,
}
use rapidapp.Ctrl.Arguments.{argument_loses_first_byte, command_runs_its_listener}

abbrev help : CommandListener (List (List ℕ))
help = record { cmd_name = 104 ∷ 101 ∷ []; on_command = λ args a. args }

abbrev keep : List (List ℕ) → List (List ℕ) → ℤ × List (List ℕ)
keep args a = (success, (0 ∷ []) ∷ args)

-- "he"
command_runs_its_listener_example :
    (left : List ℕ) × (on_ctrl_msg [] (help ∷ []) keep (104 ∷ 101 ∷ []) (replicate 9 0) []
      ≡ done (success, left, (104 ∷ 101 ∷ []) ∷ []))
unfolding read_ctrl is_delimeter get_event_listener
command_runs_its_listener_example =
    command_runs_its_listener [] (help ∷ []) keep 104 (101 ∷ []) (replicate 9 0) [] 104 (101 ∷ [])
      (replicate 6 0) help refl (omega arith, refl, (omega arith, refl, tt)) refl

-- "go abc" ends as "go" and "bc".
argument_loses_first_byte_example :
    (left : List ℕ) × (on_ctrl_msg []
        (help ∷ [])
        keep
        (103 ∷ 111 ∷ 32 ∷ 97 ∷ 98 ∷ 99 ∷ [])
        (replicate 9 0)
        []
      ≡ done (success, left, (0 ∷ []) ∷ (103 ∷ 111 ∷ []) ∷ (98 ∷ 99 ∷ []) ∷ []))
unfolding read_ctrl is_delimeter get_event_listener run_command dispatch
argument_loses_first_byte_example =
    argument_loses_first_byte [] (help ∷ []) keep 103 (111 ∷ 32 ∷ 97 ∷ 98 ∷ 99 ∷ []) (replicate 9 0)
      [] 103 (111 ∷ []) 97 98 (99 ∷ []) (replicate 2 0) refl
      (omega arith, refl, (omega arith, refl, tt)) (omega arith, refl, (omega arith, refl, tt))
