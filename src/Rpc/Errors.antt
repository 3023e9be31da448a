-- ===== src/Rpc/Errors.antt =====
-- Calls that go wrong.
use rapidapp.Base.{
  ℕ, ◌-◌, ◌^◌, ◌≤◌, ◌<◌, ◌≡◌, refl, ◌∙◌, true, Option, some, List, [], ◌∷◌, ◌++◌, length, pos,
  success, failure, arith, add64,
}
use rapidapp.Base.Run.{done}
use rapidapp.Coroutine.{returns, runs, coroutine_ready}
use rapidapp.Coroutine.Laws.{slice, resume_runs_slice, create_coroutine_lem}
use rapidapp.Rpc.Message.{Protobuf, message_to_binary, rpc_type_request, max_message_name}
use rapidapp.Rpc.{Shared, Callback, RpcWorld, send_request, reply, rpc_function, rpc_call}
use rapidapp.Rpc.Calls.{Valid, rpc_call-starts, start_call-sends}

not_packed :
    {M : Type 0} (pb : Protobuf M) (asyncid : ℕ) (request : M) (out : List ℕ)
    → max_message_name ≤ length (pb.type_name request)
    → message_to_binary pb rpc_type_request asyncid (some request) out ≡ (failure, out)
unfolding message_to_binary
not_packed pb asyncid request out h = ground arith

module _ {M A : Type 0} (pb : Protobuf M) where
  abbrev sent_again : Shared A → Shared A
  sent_again s = record s {
    asyncid_seed = add64 s.asyncid_seed 1;
    handed = s.handed ++ (s.buf ∷ []);
  }

  again_slice :
      (request : M) (response : Option M) (callback : Callback M A) (s : Shared A)
      → max_message_name ≤ length (pb.type_name request)
      → slice (rpc_function pb request response callback) s
        ≡ done (sent_again s, some (runs (reply pb request response callback) returns))
  unfolding slice rpc_function send_request
  again_slice request response callback s h = rw (not_packed pb s.asyncid_seed request s.buf h) refl

  -- A request whose type has a name of 1024 bytes or more is not packed, and the call goes on:
  -- what is sent is the request of the call before, once more, and the call returns 0. This
  -- supposes that there is room for a coroutine, and that the stub is in order.
  pub long_name_sends_old_request :
      (request : M) (response : Option M) (callback : Callback M A) (w : RpcWorld A)
      → Valid pb w
      → length w.scheduler.coroutine_table < w.scheduler.coroutine_max
      → w.scheduler.cid_seed < 2 ^ 31 - 1
      → max_message_name ≤ length (pb.type_name request)
      → (w' : RpcWorld A) × (rpc_call pb true true (some request) response (some callback) w
          ≡ done (success, w'))
        × (w'.shared.handed ≡ w.shared.handed ++ (w.shared.buf ∷ []))
  long_name_sends_old_request request response callback w v room ids long =
      let cid = w.scheduler.cid_seed in
      let (sch, made, c) =
        create_coroutine_lem (rpc_function pb request response callback) w.scheduler room ids in
      let (sch', run, r) =
        resume_runs_slice sch
          (record {
            idx = cid;
            state = coroutine_ready;
            code = rpc_function pb request response callback;
          })
          w.shared (sent_again w.shared) (some (runs (reply pb request response callback) returns))
          c.ready tt (again_slice request response callback w.shared long) in
      (
        record {
          rpc = record w.rpc {
            crid_list =
                w.rpc.crid_list
                ++ (record { crid = pos cid; asyncid = w.shared.asyncid_seed } ∷ []);
          };
          scheduler = sch';
          shared = sent_again w.shared;
        },
        rpc_call-starts pb request response callback w sch cid v.is_ready made
            ∙ start_call-sends pb w sch sch' cid (sent_again w.shared) run,
        refl,
      )
