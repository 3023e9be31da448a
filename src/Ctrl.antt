-- ===== src/Ctrl.antt =====
-- Control commands: `OnCtrlMsg` and `libevent_get_arguments` (framework/rapidapp_framework_imp.cpp) and
-- `AppControlDispatcher` (framework/rapidapp_ctrl_cmd_keyword.{h,cpp}). `strtok_r` is that of glibc,
-- which leaves behind a token the place after the byte that it has zeroed, or the zero at the end. `A`
-- is the state of the application.
pub mod Arguments
mod Tests
use rapidapp.Base.{
  same_name, ℕ, zero, suc, ◌+◌, Bool, true, false, ◌&&◌, ◌||◌, Option, none, some, List, [], ◌∷◌,
  ◌++◌, ℤ, success, failure, length, take, drop, eqb_ℤ, ◌==◌, if◌then◌else◌,
}
use rapidapp.Base.Run.{Run, done, fault, ◌>>=◌}

abbrev pub max_arguments_num : ℕ
max_arguments_num = 32

abbrev pub max_ctrl_msg_len : ℕ
max_ctrl_msg_len = 2048

abbrev pub ctrl_cmd_delimeter : ℕ
ctrl_cmd_delimeter = 32

-- The delimiters are read as a string that begins at the constant: `behind` is what stands after it in
-- memory, up to a zero.
unfoldable pub is_delimeter : (behind : List ℕ) → ℕ → Bool
is_delimeter [] b = b == ctrl_cmd_delimeter
is_delimeter (d ∷ ds) b = (b == d) || is_delimeter ds b

-- One byte more in front of an argument and of the bytes that were gone over.
unfoldable pub behind_byte :
    ℕ → Option (List ℕ × List ℕ × List ℕ) → Run (Option (List ℕ × List ℕ × List ℕ))
behind_byte b none = done none
behind_byte b (some (arg, written, next)) = done (some (b ∷ arg, b ∷ written, next))

-- One round: `strtok_r` from the start pointer, the argument that begins there, the zero written at the
-- place that `strtok_r` left, and the bytes from the next start pointer on. `in_token` says that a byte
-- which is no delimiter was seen. `none` where there is no token.
unfoldable pub next_argument :
    (behind : List ℕ) → (in_token : Bool) → List ℕ → Run (Option (List ℕ × List ℕ × List ℕ))
unfolding behind_byte is_delimeter
next_argument behind in_token [] = fault
next_argument behind false (b ∷ s) =
    let skipped = next_argument behind false s >>= behind_byte b in
    let token = next_argument behind true s >>= behind_byte b in
    if b == 0 then done none else if is_delimeter behind b then skipped else token
next_argument behind true (b ∷ s) =
    let token = next_argument behind true s >>= behind_byte b in
    if b == 0
    then done (some ([], 0 ∷ [], s))
    else if is_delimeter behind b
    then elim s [ [] ↦ fault | c ∷ rest ↦ done (some ([], 0 ∷ 0 ∷ [], rest)) ]
    else token

-- What `strtok_r` alone does to the bytes: it zeroes the delimiter that ends the token.
unfoldable pub strtok : (behind : List ℕ) → (in_token : Bool) → List ℕ → List ℕ
unfolding is_delimeter
strtok behind in_token [] = []
strtok behind false (b ∷ s) =
    let skipped = b ∷ strtok behind false s in
    let token = b ∷ strtok behind true s in
    if b == 0 then b ∷ s else if is_delimeter behind b then skipped else token
strtok behind true (b ∷ s) =
    let token = b ∷ strtok behind true s in
    if b == 0 then b ∷ s else if is_delimeter behind b then 0 ∷ s else token

-- The loop: the arguments, and the bytes as it leaves them. `strtok_r` is called once more after the
-- last argument for which there is room.
unfoldable pub get_arguments : (behind : List ℕ) → ℕ → List ℕ → Run (List (List ℕ) × List ℕ)
unfolding next_argument strtok
get_arguments behind zero s = next_argument behind false s >>= λ o. done ([], strtok behind false s)
get_arguments behind (suc n) s = next_argument behind false s >>= λ o. elim o [
  | none ↦ done ([], s)
  | some (arg, written, next) ↦
      get_arguments behind n next >>= λ (args, rest). done (arg ∷ args, written ++ rest)
]

-- What `bufferevent_read` gives is written over the front of the static buffer, whose last byte is
-- then zeroed.
unfoldable pub read_ctrl : List ℕ → List ℕ → List ℕ
read_ctrl bytes ctrl_msg = take 2047 (bytes ++ drop (length bytes) ctrl_msg) ++ (0 ∷ [])

-- `ICommandEventListener`
pub record CommandListener (A : Type 0) : Type 0 where
  pub cmd_name : List ℕ
  pub on_command : List (List ℕ) → A → A

module _ {A : Type 0} where
  -- `commad_dictionary_[cmd] = listener`
  unfoldable pub add_supported_command :
      Option (CommandListener A) → List (CommandListener A) → List (CommandListener A)
  add_supported_command none dictionary = dictionary
  add_supported_command (some l) [] = l ∷ []
  add_supported_command (some l) (k ∷ rest) =
      if same_name k.cmd_name l.cmd_name then l ∷ rest else k ∷ add_supported_command (some l) rest

  unfoldable pub get_event_listener : List ℕ → List (CommandListener A) → Option (CommandListener A)
  get_event_listener cmd [] = none
  get_event_listener cmd (k ∷ rest) =
      if same_name k.cmd_name cmd then some k else get_event_listener cmd rest

  unfoldable pub dispatch : List (CommandListener A) → List (List ℕ) → A → ℤ × A
  unfolding get_event_listener
  dispatch dictionary [] a = (failure, a)
  dispatch dictionary (cmd ∷ args) a = elim (get_event_listener cmd dictionary) [
    | none ↦ (failure, a)
    | some l ↦ (success, l.on_command (cmd ∷ args) a)
  ]

  -- `app_->OnRecvCtrl` is called for a command that the dictionary does not have; its result is logged.
  unfoldable pub run_command :
      List (CommandListener A) → (List (List ℕ) → A → ℤ × A) → List (List ℕ) → A → A
  unfolding dispatch
  run_command dictionary on_recv_ctrl args a =
      let (r, a') = dispatch dictionary args a in
      if eqb_ℤ r success then a' else (on_recv_ctrl args a').1

  unfoldable pub on_ctrl_msg :
      (behind : List ℕ)
      → List (CommandListener A)
      → (List (List ℕ) → A → ℤ × A)
      → (bytes ctrl_msg : List ℕ) → A
      → Run (ℤ × List ℕ × A)
  unfolding get_arguments run_command read_ctrl
  on_ctrl_msg behind dictionary on_recv_ctrl [] ctrl_msg a = done (failure, ctrl_msg, a)
  on_ctrl_msg behind dictionary on_recv_ctrl (b ∷ bs) ctrl_msg a =
      get_arguments behind max_arguments_num (read_ctrl (b ∷ bs) ctrl_msg) >>= λ (args, left).
      done (success, left, run_command dictionary on_recv_ctrl args a)
