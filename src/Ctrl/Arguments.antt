-- ===== src/Ctrl/Arguments.antt =====
-- What becomes of a command and its argument.
use rapidapp.Base.{
  ℕ, suc, ◌≡◌, ◌≢◌, refl, ◌∙◌, ap, true, false, some, List, [], ◌∷◌, ◌++◌, arith, ℤ, success, ◌==◌,
}
use rapidapp.Base.Run.{done, ◌>>=◌}
use rapidapp.Ctrl.{
  is_delimeter, behind_byte, next_argument, get_arguments, CommandListener, read_ctrl, run_command,
  dispatch, get_event_listener, on_ctrl_msg,
}

-- No delimiter and no zero.
abbrev pub Plain : (behind : List ℕ) → List ℕ → Type 0
Plain behind [] = Unit
Plain behind (b ∷ bs) = (b ≢ 0) × (is_delimeter behind b ≡ false) × Plain behind bs

not_zero : (b : ℕ) → b ≢ 0 → (b == 0) ≡ false
not_zero b h = ground arith

space : (behind : List ℕ) → is_delimeter behind 32 ≡ true
unfolding is_delimeter
space [] = refl
space (d ∷ ds) = ground (arith, space ds)

to_zero :
    (behind w s : List ℕ)
    → Plain behind w
    → next_argument behind true (w ++ 0 ∷ s) ≡ done (some (w, w ++ 0 ∷ [], s))
unfolding next_argument behind_byte
to_zero behind [] s p = refl
to_zero behind (b ∷ w) s (n, d, p) = rw (not_zero b n, d, to_zero behind w s p) refl

to_space :
    (behind w : List ℕ) (c : ℕ) (s : List ℕ)
    → Plain behind w
    → next_argument behind true (w ++ 32 ∷ c ∷ s) ≡ done (some (w, w ++ 0 ∷ 0 ∷ [], s))
unfolding next_argument behind_byte
to_space behind [] c s p = rw (space behind) refl
to_space behind (b ∷ w) c s (n, d, p) = rw (not_zero b n, d, to_space behind w c s p) refl

first_word :
    (behind : List ℕ) (b : ℕ) (w : List ℕ) (c : ℕ) (s : List ℕ)
    → Plain behind (b ∷ w)
    → next_argument behind false ((b ∷ w) ++ 32 ∷ c ∷ s)
      ≡ done (some (b ∷ w, (b ∷ w) ++ 0 ∷ 0 ∷ [], s))
unfolding next_argument behind_byte
first_word behind b w c s (n, d, p) = rw (not_zero b n, d, to_space behind w c s p) refl

last_word :
    (behind : List ℕ) (b : ℕ) (w s : List ℕ)
    → Plain behind (b ∷ w)
    → next_argument behind false ((b ∷ w) ++ 0 ∷ s) ≡ done (some (b ∷ w, (b ∷ w) ++ 0 ∷ [], s))
unfolding next_argument behind_byte
last_word behind b w s (n, d, p) = rw (not_zero b n, d, to_zero behind w s p) refl

-- Two words and a second zero: the words' bytes, but the first of the second word.
two_words :
    (behind : List ℕ) (n b : ℕ) (w : List ℕ) (c d : ℕ) (v rest : List ℕ)
    → Plain behind (b ∷ w)
    → Plain behind (d ∷ v)
    → (left : List ℕ) × (get_arguments behind
          (suc (suc (suc n)))
          ((b ∷ w) ++ 32 ∷ c ∷ ((d ∷ v) ++ 0 ∷ 0 ∷ rest))
        ≡ done ((b ∷ w) ∷ (d ∷ v) ∷ [], left))
unfolding get_arguments
two_words behind n b w c d v rest p q = (
  ((b ∷ w) ++ 0 ∷ 0 ∷ []) ++ (((d ∷ v) ++ 0 ∷ []) ++ 0 ∷ rest),
  rw (first_word behind b w c ((d ∷ v) ++ 0 ∷ 0 ∷ rest) p, last_word behind d v (0 ∷ rest) q) refl,
)

-- A command with an argument of two bytes or more, if a zero stands behind the zero that ends it:
-- the application, or the command's listener, gets the argument without its first byte.
pub argument_loses_first_byte :
    {A : Type 0} (behind : List ℕ) (dictionary : List (CommandListener A))
    (on_recv_ctrl : List (List ℕ) → A → ℤ × A) (m : ℕ) (ms ctrl_msg : List ℕ) (a : A) (b : ℕ)
    (w : List ℕ) (c d : ℕ) (v rest : List ℕ)
    → read_ctrl (m ∷ ms) ctrl_msg ≡ (b ∷ w) ++ 32 ∷ c ∷ ((d ∷ v) ++ 0 ∷ 0 ∷ rest)
    → Plain behind (b ∷ w)
    → Plain behind (d ∷ v)
    → (left : List ℕ) × (on_ctrl_msg behind dictionary on_recv_ctrl (m ∷ ms) ctrl_msg a
        ≡ done (success, left, run_command dictionary on_recv_ctrl ((b ∷ w) ∷ (d ∷ v) ∷ []) a))
unfolding on_ctrl_msg
argument_loses_first_byte behind dictionary on_recv_ctrl m ms ctrl_msg a b w c d v rest e p q =
    let (left, run) = two_words behind 29 b w c d v rest p q in
    (
      left,
      ap
            (λ s. get_arguments behind 32 s >>= (λ (args, left).
              done (success, left, run_command dictionary on_recv_ctrl args a)))
            e
          ∙ ap
              (λ r. r >>= (λ (args, left).
                done (success, left, run_command dictionary on_recv_ctrl args a)))
              run,
    )

one_word :
    (behind : List ℕ) (n b : ℕ) (w rest : List ℕ)
    → Plain behind (b ∷ w)
    → get_arguments behind (suc (suc n)) ((b ∷ w) ++ 0 ∷ 0 ∷ rest)
      ≡ done ((b ∷ w) ∷ [], ((b ∷ w) ++ 0 ∷ []) ++ 0 ∷ rest)
unfolding get_arguments
one_word behind n b w rest p = rw (last_word behind b w (0 ∷ rest) p) refl

listener_runs :
    {A : Type 0} (dictionary : List (CommandListener A)) (on_recv_ctrl : List (List ℕ) → A → ℤ × A)
    (cmd : List ℕ) (l : CommandListener A) (a : A)
    → get_event_listener cmd dictionary ≡ some l
    → run_command dictionary on_recv_ctrl (cmd ∷ []) a ≡ l.on_command (cmd ∷ []) a
unfolding run_command dispatch
listener_runs dictionary on_recv_ctrl cmd l a h = rw (dispatch, h) refl

-- A command without arguments that the dictionary has, if a zero stands behind the zero that ends
-- it: its listener is called with just the command, and the application is not asked.
pub command_runs_its_listener :
    {A : Type 0} (behind : List ℕ) (dictionary : List (CommandListener A))
    (on_recv_ctrl : List (List ℕ) → A → ℤ × A) (m : ℕ) (ms ctrl_msg : List ℕ) (a : A) (b : ℕ)
    (w rest : List ℕ) (l : CommandListener A)
    → read_ctrl (m ∷ ms) ctrl_msg ≡ (b ∷ w) ++ 0 ∷ 0 ∷ rest
    → Plain behind (b ∷ w)
    → get_event_listener (b ∷ w) dictionary ≡ some l
    → (left : List ℕ) × (on_ctrl_msg behind dictionary on_recv_ctrl (m ∷ ms) ctrl_msg a
        ≡ done (success, left, l.on_command ((b ∷ w) ∷ []) a))
unfolding on_ctrl_msg
command_runs_its_listener behind dictionary on_recv_ctrl m ms ctrl_msg a b w rest l e p h =
    let left = ((b ∷ w) ++ 0 ∷ []) ++ 0 ∷ rest in
    (
      left,
      ap
            (λ s. get_arguments behind 32 s >>= (λ (args, left).
              done (success, left, run_command dictionary on_recv_ctrl args a)))
            e
          ∙ ap
              (λ r. r >>= (λ (args, left).
                done (success, left, run_command dictionary on_recv_ctrl args a)))
              (one_word behind 30 b w rest p)
          ∙ ap (λ a'. done (success, left, a'))
              (listener_runs dictionary on_recv_ctrl (b ∷ w) l a h),
    )
