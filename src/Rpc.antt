-- ===== src/Rpc.antt =====
-- Remote procedure calls (framework/rapidapp_easy_rpc.{h,cpp}): `EasyRpc`, the caller's side of a
-- connection to a back end. `M` are the messages, `A` is the state of the application, which the
-- callbacks change; they make no call of their own.
pub mod Message
pub mod Service
pub mod Calls
pub mod Replies
pub mod Dialogue
pub mod Errors
mod Tests
use rapidapp.Base.{
  ℕ, Bool, true, false, not, Option, none, some, List, [], ◌∷◌, ◌++◌, ℤ, pos, negsuc, success,
  failure, ltb_ℤ, eqb_ℤ, ◌==◌, if◌then◌else◌, add64,
}
use rapidapp.Base.Run.{Run, done, fault, ◌>>=◌, deref}
use rapidapp.Coroutine.{
  Code, returns, runs, yields, CoroutineScheduler, create_coroutine, resume_coroutine,
  coroutine_been_alive,
}
use rapidapp.Rpc.Message.{
  RpcMessage, Protobuf, unpack_to_rpc_msg, message_to_binary, rpc_type_request, rpc_type_error,
}

-- What the functions of the coroutines act on: the application, the statics `asyncid_seed`,
-- `rpc_msg_` and `buf`, and what was handed to `Send` of the stub's connection, the earliest first;
-- whether it is written is only logged.
pub record Shared (A : Type 0) : Type 0 where
  pub app : A
  pub asyncid_seed : ℕ
  pub rpc_msg : RpcMessage
  pub buf : List ℕ
  pub handed : List (List ℕ)

-- `ON_RPC_REPLY_FUNCTION` with its `arg`: the request, the response and the status.
abbrev pub Callback : Type 0 → Type 0 → Type 0
Callback M A = M → M → ℤ → A → A

pub record CoroutinePair : Type 0 where
  pub crid : ℤ
  pub asyncid : ℕ

-- `Init` sets both pointers, and only together; `ready` says whether they are set.
pub record EasyRpc : Type 0 where
  pub ready : Bool
  pub crid_list : List CoroutinePair

pub record RpcWorld (A : Type 0) : Type 0 where
  pub rpc : EasyRpc
  pub scheduler : CoroutineScheduler (Shared A)
  pub shared : Shared A

unfoldable pub new_rpc : EasyRpc
new_rpc = record { ready = false; crid_list = [] }

unfoldable pub init : (scheduler net : Bool) → EasyRpc → ℤ × EasyRpc
init true true rpc = (success, record rpc { ready = true })
init _ _ rpc = (failure, rpc)

unfoldable pub is_active : EasyRpc → Bool
is_active rpc = elim rpc.crid_list [ [] ↦ false | p ∷ ps ↦ true ]

unfoldable pub remove_by_coroutine_id : ℤ → List CoroutinePair → List CoroutinePair
remove_by_coroutine_id crid [] = []
remove_by_coroutine_id crid (p ∷ ps) =
    if eqb_ℤ p.crid crid then ps else p ∷ remove_by_coroutine_id crid ps

unfoldable pub get_coroutine_idx_by_async_id : ℕ → List CoroutinePair → ℤ
get_coroutine_idx_by_async_id asyncid [] = failure
get_coroutine_idx_by_async_id asyncid (p ∷ ps) =
    if p.asyncid == asyncid then p.crid else get_coroutine_idx_by_async_id asyncid ps

module _ {A : Type 0} where
  unfoldable pub start_call : RpcWorld A → ℤ × CoroutineScheduler (Shared A) → Run (ℤ × RpcWorld A)
  start_call w (cid, sch) =
      if ltb_ℤ cid (pos 0)
      then done (failure, record w { scheduler = sch })
      else resume_coroutine cid sch w.shared >>= (λ (r, sch', s). done (
        success,
        record {
          rpc = record w.rpc {
            crid_list =
                w.rpc.crid_list ++ (record { crid = cid; asyncid = w.shared.asyncid_seed } ∷ []);
          };
          scheduler = sch';
          shared = s;
        },
      ))

  unfoldable pub remove_if_gone : ℤ → RpcWorld A → RpcWorld A
  unfolding remove_by_coroutine_id
  remove_if_gone crid w = if coroutine_been_alive crid w.scheduler then w else record w {
    rpc = record w.rpc { crid_list = remove_by_coroutine_id crid w.rpc.crid_list };
  }

  unfoldable pub wake : ℤ → RpcWorld A → Run (RpcWorld A)
  wake crid w =
      if coroutine_been_alive crid w.scheduler
      then resume_coroutine crid w.scheduler w.shared
        >>= (λ (r, sch, s). done (record w { scheduler = sch; shared = s }))
      else done w

  -- What `Resume` does once the message is unpacked, or is not.
  unfoldable pub wake_caller : ℤ × RpcMessage → RpcWorld A → Run (ℤ × RpcWorld A)
  unfolding wake remove_if_gone get_coroutine_idx_by_async_id
  wake_caller (negsuc n, m) w =
      done (failure, record w { shared = record w.shared { rpc_msg = m } })
  wake_caller (pos n, m) w =
      let crid = get_coroutine_idx_by_async_id m.asyncid w.rpc.crid_list in
      wake crid (record w { shared = record w.shared { rpc_msg = m } }) >>= λ w'.
      done (success, remove_if_gone crid w')

-- The status, and the response with what was parsed into it.
unfoldable pub read_response : {M : Type 0} → Protobuf M → M → RpcMessage → ℤ × M
read_response pb response m =
    if m.msg_type == rpc_type_error
    then (failure, response)
    else (let (ok, response') = pb.parse_from response m.msg_bin in
        (if ok then success else failure, response'))

module _ {M A : Type 0} (pb : Protobuf M) where
  -- The first part of `RpcFunction`. A request that is not packed leaves the old bytes in `buf`.
  unfoldable pub send_request : M → Shared A → Run (Shared A)
  send_request request s =
      let buf = (message_to_binary pb rpc_type_request s.asyncid_seed (some request) s.buf).1 in
      done (record s {
        asyncid_seed = add64 s.asyncid_seed 1;
        buf = buf;
        handed = s.handed ++ (buf ∷ []);
      })

  -- The part behind the yield, with the assertion that there is a response.
  unfoldable pub reply : M → Option M → Callback M A → Shared A → Run (Shared A)
  unfolding read_response
  reply request response callback s = deref response >>= λ object.
      let (status, response') = read_response pb object s.rpc_msg in
      done (record s { app = callback request response' status s.app })

  -- Its pointers were checked by `RpcCall`.
  unfoldable pub rpc_function : M → Option M → Callback M A → Code (Shared A)
  unfolding send_request reply
  rpc_function request response callback =
      runs (send_request request) (yields (runs (reply request response callback) returns))

  -- `new_context` and `allocated` are the outcomes of `new` and, in the scheduler, of `calloc`.
  unfoldable pub rpc_call :
      (new_context allocated : Bool)
      → Option M
      → Option M
      → Option (Callback M A)
      → RpcWorld A
      → Run (ℤ × RpcWorld A)
  unfolding rpc_function start_call
  rpc_call new_context allocated none response callback w = done (failure, w)
  rpc_call new_context allocated (some request) response none w = done (failure, w)
  rpc_call new_context allocated (some request) response (some callback) w =
      if not w.rpc.ready
      then done (failure, w)
      else if new_context
      then create_coroutine allocated (some (rpc_function request response callback)) w.scheduler
        >>= start_call w
      else done (failure, w)

  -- The assertion is that there is a scheduler.
  unfoldable pub resume : Option (List ℕ) → RpcWorld A → Run (ℤ × RpcWorld A)
  unfolding wake_caller
  resume bytes w =
      if w.rpc.ready then wake_caller (unpack_to_rpc_msg pb bytes w.shared.rpc_msg) w else fault
