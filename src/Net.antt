-- ===== src/Net.antt =====
-- framework/rapidapp_easy_net.{h,cpp} and rapidapp_net_mgr.{h,cpp}, with `DoSomething` of
-- `AppFrameWork` (framework/rapidapp_framework_imp.cpp), which a walk over the connections calls.
-- Connections and user contexts are objects on a heap, named by their address; a bufferevent is
-- named by its socket. `S` is the type that the application keeps in a user context.
pub mod Release
pub mod Pool
pub mod Remove
pub mod Add
pub mod Walk
pub mod Limits
pub mod Example
mod Tests
use rapidapp.Base.{
  ℕ, zero, suc, ◌+◌, ◌-◌, ◌%◌, ◌^◌, Bool, true, false, ◌&&◌, Option, none, some, List, [], ◌∷◌,
  ◌++◌, ℤ, pos, negsuc, success, failure, sub64, ltb, ltb_ℤ, to_size, ◌==◌, if◌then◌else◌,
}
use rapidapp.Base.Run.{Run, done, fault, exhausted, ◌>>=◌, deref}

pub data NetState : Type 0 where
  net_init : NetState
  net_connecting : NetState
  net_established : NetState
  net_failed : NetState
  net_been_closed : NetState

-- `uri_` is only logged and `rpc_binded_` is not used here. No `hevent` is a null pointer.
pub record EasyNet : Type 0 where
  pub hevent : Option ℕ
  pub net_type : ℤ
  pub nid : ℕ
  pub state : NetState
  pub last_active_timestamp : ℕ
  pub prev_pkg_count : ℕ
  pub curr_pkg_count : ℕ
  pub prev_traffic_bytes : ℕ
  pub curr_traffic_bytes : ℕ
  pub user_context : Option ℕ

-- What the addresses hold; `none` is memory that is not, or no longer, allocated.
pub record Heap (S : Type 0) : Type 0 where
  pub nets : ℕ → Option EasyNet
  pub contexts : ℕ → Option S

abbrev pub store : {A : Type 0} → ℕ → Option A → (ℕ → Option A) → ℕ → Option A
store a v f b = if b == a then v else f b

-- `EasyNet::Init` on a fresh object whose bufferevent is on `sock_fd`.
unfoldable pub init : (sock_fd : ℕ) (net_type : ℤ) (nid : ℕ) → EasyNet
init sock_fd net_type nid = record {
  hevent = some sock_fd;
  net_type = net_type;
  nid = nid;
  state = net_established;
  last_active_timestamp = 0;
  prev_pkg_count = 0;
  curr_pkg_count = 0;
  prev_traffic_bytes = 0;
  curr_traffic_bytes = 0;
  user_context = none;
}

-- The methods that free something, on the object at `net`.
module _ {S : Type 0} where
  free_context : Option ℕ → Heap S → Run (Heap S)
  free_context none h = done h
  free_context (some c) h =
      deref (h.contexts c) >>= λ _. done (record h { contexts = store c none h.contexts })

  unfoldable pub destroy_user_context : ℕ → Heap S → Run (Heap S)
  unfolding free_context
  destroy_user_context net h = deref (h.nets net) >>= λ n. free_context n.user_context h >>= λ h'.
      done (record h' { nets = store net (some (record n { user_context = none })) h'.nets })

  unfoldable pub clean_up : ℕ → Heap S → Run (Heap S)
  clean_up net h = deref (h.nets net) >>= λ n.
      done (record h { nets = store net (some (record n { hevent = none })) h.nets })

  unfoldable pub delete : ℕ → Heap S → Run (Heap S)
  delete net h = deref (h.nets net) >>= λ n. done (record h { nets = store net none h.nets })

  -- The three calls that always come together.
  unfoldable pub release : ℕ → Heap S → Run (Heap S)
  release net h = destroy_user_context net h >>= λ h1. clean_up net h1 >>= λ h2. delete net h2

-- The iterator `it_cursor_`. An insertion that rehashes the table invalidates it; at the end it stays
-- the end, as in the GNU library.
pub data Cursor : Type 0 where
  at : ℕ → Cursor
  at_end : Cursor
  invalid : Cursor

-- The table from sockets to connections, in the order in which it is walked.
pub record NetHandlerMgr : Type 0 where
  pub handler_pool : List (ℕ × ℕ)
  pub it_cursor : Cursor

unfoldable pub find : ℕ → List (ℕ × ℕ) → Option ℕ
find fd [] = none
find fd ((k, net) ∷ rest) = if k == fd then some net else find fd rest

unfoldable pub erase : ℕ → List (ℕ × ℕ) → List (ℕ × ℕ)
erase fd [] = []
erase fd ((k, net) ∷ rest) = if k == fd then rest else (k, net) ∷ erase fd rest

unfoldable pub begin : List (ℕ × ℕ) → Cursor
begin [] = at_end
begin ((k, net) ∷ rest) = at k

-- `++it` from the entry of `fd`.
unfoldable pub next : ℕ → List (ℕ × ℕ) → Cursor
unfolding begin
next fd [] = at_end
next fd ((k, net) ∷ rest) = if k == fd then begin rest else next fd rest

unfoldable pub assign : ℕ → ℕ → List (ℕ × ℕ) → List (ℕ × ℕ)
assign fd net [] = []
assign fd net ((k, old) ∷ rest) = if k == fd then (k, net) ∷ rest else (k, old) ∷ assign fd net rest

unfoldable pub after_insert : Bool → Cursor → Cursor
after_insert true (at fd) = invalid
after_insert rehashed c = c

-- `handler_pool_[fd] = net`. Where a new entry goes, and whether the table is rehashed, is up to
-- the table: `place` is that choice.
unfoldable pub add_handler_to_map :
    (List (ℕ × ℕ) → ℕ × ℕ → List (ℕ × ℕ) × Bool) → ℕ → ℕ → NetHandlerMgr → NetHandlerMgr
unfolding after_insert
add_handler_to_map place fd net m = elim (find fd m.handler_pool) [
  | some old ↦ record m { handler_pool = assign fd net m.handler_pool }
  | none ↦
      let (pool, rehashed) = place m.handler_pool (fd, net) in
      record { handler_pool = pool; it_cursor = after_insert rehashed m.it_cursor }
]

-- `it == it_cursor_`, and the step of the cursor off an entry that is about to go.
unfoldable pub step_off : ℕ → List (ℕ × ℕ) → Cursor → Run Cursor
unfolding next
step_off fd pool (at k) = done (if k == fd then next fd pool else at k)
step_off fd pool at_end = done at_end
step_off fd pool invalid = fault

unfoldable pub get_handler_by_event : Option ℕ → NetHandlerMgr → Option ℕ
get_handler_by_event none m = none
get_handler_by_event (some fd) m = find fd m.handler_pool

abbrev pub k_single_round_loop_num : ℕ
k_single_round_loop_num = 1024

module _ {S : Type 0} where
  unfoldable pub remove_handler_by_event :
      Option ℕ → Heap S → NetHandlerMgr → Run (ℤ × Heap S × NetHandlerMgr)
  remove_handler_by_event none h m = done (failure, h, m)
  remove_handler_by_event (some fd) h m = elim (find fd m.handler_pool) [
    | none ↦ done (success, h, m)
    | some net ↦ release net h >>= λ h'. step_off fd m.handler_pool m.it_cursor >>= λ c.
        done (success, h', record { handler_pool = erase fd m.handler_pool; it_cursor = c })
  ]

  -- `net` is an address that may dangle; a null pointer is `none`.
  unfoldable pub remove_handler :
      Option ℕ → Heap S → NetHandlerMgr → Run (ℤ × Heap S × NetHandlerMgr)
  unfolding remove_handler_by_event
  remove_handler none h m = done (failure, h, m)
  remove_handler (some net) h m = deref (h.nets net) >>= λ n. remove_handler_by_event n.hevent h m

  unfoldable pub change_net_state_by_event :
      Option ℕ → NetState → Heap S → NetHandlerMgr → Run (ℤ × Heap S)
  change_net_state_by_event none state h m = done (failure, h)
  change_net_state_by_event (some fd) state h m = elim (find fd m.handler_pool) [
    | none ↦ done (success, h)
    | some net ↦ deref (h.nets net) >>= λ n.
        done (success, record h { nets = store net (some (record n { state = state })) h.nets })
  ]

  unfoldable pub get_handler_by_async_ids : ℕ → ℕ → Heap S → NetHandlerMgr → Run (Option ℕ)
  get_handler_by_async_ids fd nid h m = elim (find fd m.handler_pool) [
    | none ↦ done none
    | some net ↦ deref (h.nets net) >>= λ n. done (if nid == n.nid then some net else none)
  ]

  -- The loop of `WalkThrough`; `act` is `DoSomething`, `true` for a connection to close.
  unfoldable pub walk_loop :
      ℕ → (EasyNet → Bool × EasyNet) → Heap S → NetHandlerMgr → Run (Heap S × NetHandlerMgr)
  walk_loop zero act h m = done (h, m)
  walk_loop (suc rounds) act h m = elim m.it_cursor [
    | at_end ↦ done (h, m)
    | invalid ↦ fault
    | at fd ↦ elim (find fd m.handler_pool) [
      | none ↦ fault
      | some net ↦ deref (h.nets net) >>= λ n. elim (act n).0 [
        | true ↦ release net (record h { nets = store net (some (act n).1) h.nets }) >>= λ h'.
            walk_loop rounds act h' (record {
              handler_pool = erase fd m.handler_pool;
              it_cursor = next fd m.handler_pool;
            })
        | false ↦
            walk_loop rounds act (record h { nets = store net (some (act n).1) h.nets })
              (record m { it_cursor = next fd m.handler_pool })
      ]
    ]
  ]

  -- At the end of the table the next walk starts over.
  unfoldable pub rewind : Heap S × NetHandlerMgr → Heap S × NetHandlerMgr
  unfolding begin
  rewind (h, m) = elim m.it_cursor [
    | at_end ↦ (h, record m { it_cursor = begin m.handler_pool })
    | _ ↦ (h, m)
  ]

  unfoldable pub walk_through :
      (EasyNet → Bool × EasyNet) → Heap S → NetHandlerMgr → Run (Heap S × NetHandlerMgr)
  unfolding walk_loop rewind
  walk_through act h m = walk_loop k_single_round_loop_num act h m >>= λ r. done (rewind r)

-- The limits of the framework's settings.
pub record Setting : Type 0 where
  pub max_idle : ℤ
  pub max_pkg_speed : ℤ
  pub max_traffic_speed : ℤ

-- `time_t` is signed: the idle time is below zero when the clock went back.
unfoldable pub idle_too_long : Setting → (now last : ℕ) → Bool
idle_too_long set now last =
    ltb_ℤ (pos 0) set.max_idle
    && ltb_ℤ set.max_idle (if ltb now last then negsuc (last - now - 1) else pos (now - last))

unfoldable pub over : ℤ → (prev curr : ℕ) → Bool
over limit prev curr = ltb_ℤ (pos 0) limit && ltb (to_size limit) (sub64 curr prev)

unfoldable pub reset_pkg : Setting → EasyNet → EasyNet
reset_pkg set n =
    if ltb_ℤ (pos 0) set.max_pkg_speed
    then record n { prev_pkg_count = 0; curr_pkg_count = 0 }
    else n

unfoldable pub reset_traffic : Setting → EasyNet → EasyNet
reset_traffic set n =
    if ltb_ℤ (pos 0) set.max_traffic_speed
    then record n { prev_traffic_bytes = 0; curr_traffic_bytes = 0 }
    else n

-- `AppFrameWork::DoSomething`
unfoldable pub do_something : Setting → ℕ → EasyNet → Bool × EasyNet
unfolding idle_too_long over reset_pkg reset_traffic
do_something set now n =
    if idle_too_long set now n.last_active_timestamp
    then (true, n)
    else if over set.max_pkg_speed n.prev_pkg_count n.curr_pkg_count
    then (true, n)
    else let n' = reset_pkg set n in
      if over set.max_traffic_speed n'.prev_traffic_bytes n'.curr_traffic_bytes
      then (true, n')
      else (false, reset_traffic set n')
