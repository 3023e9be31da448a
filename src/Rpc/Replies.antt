-- ===== src/Rpc/Replies.antt =====
-- What a reply does to the call that waits for it, and to the others.
use rapidapp.Base.{
  Bool-cases, inl, inr, ◌==◌, negsuc, ℕ, ◌≤◌, ◌≡◌, ◌≢◌, refl, sym, ◌∙◌, ap, subst, true, false,
  Option, none, some, List, ◌∷◌, ℤ, pos, success, if◌then◌else◌,
}
use rapidapp.Base.Run.{done, fault, ◌>>=◌}
use rapidapp.Coroutine.Table.{lookup}
use rapidapp.Coroutine.{
  Code, returns, runs, CoroutineScheduler, coroutine_suspend, find, coroutine_been_alive,
  resume_coroutine,
}
use rapidapp.Coroutine.Laws.{slice, resume_runs_slice}
use rapidapp.Rpc.Message.{RpcMessage, Protobuf, rpc_type_error, unpack_to_rpc_msg}
use rapidapp.Rpc.{
  Shared, Callback, RpcWorld, read_response, reply, remove_if_gone, wake, wake_caller, resume,
  get_coroutine_idx_by_async_id, remove_by_coroutine_id,
}
use rapidapp.Rpc.Calls.{Older-remove, none-some, Listed-remove, Listed-found, Valid, Pending}

module _ {S : Type 0} where
  alive-waits :
      (cid : ℕ) (sch : CoroutineScheduler S) (code : Code S)
      → lookup cid sch.coroutine_table
        ≡ some (record { idx = cid; state = coroutine_suspend; code = code })
      → coroutine_been_alive (pos cid) sch ≡ true
  unfolding coroutine_been_alive find
  alive-waits cid sch code h = rw (coroutine_been_alive, h) refl

  alive-gone :
      (cid : ℕ) (sch : CoroutineScheduler S)
      → lookup cid sch.coroutine_table ≡ none
      → coroutine_been_alive (pos cid) sch ≡ false
  unfolding coroutine_been_alive find
  alive-gone cid sch h = rw (coroutine_been_alive, h) refl

module _ {A : Type 0} where
  wake-alive :
      (crid : ℤ) (w : RpcWorld A) (sch : CoroutineScheduler (Shared A)) (s : Shared A)
      → coroutine_been_alive crid w.scheduler ≡ true
      → resume_coroutine crid w.scheduler w.shared ≡ done (success, sch, s)
      → wake crid w ≡ done (record w { scheduler = sch; shared = s })
  unfolding wake
  wake-alive crid w sch s h e = rw (h, e) refl

  remove-gone :
      (crid : ℤ) (w : RpcWorld A)
      → coroutine_been_alive crid w.scheduler ≡ false
      → remove_if_gone crid w ≡ record w {
        rpc = record w.rpc { crid_list = remove_by_coroutine_id crid w.rpc.crid_list };
      }
  unfolding remove_if_gone
  remove-gone crid w h = rw h refl

pub unpacks :
    {M : Type 0} (pb : Protobuf M) (b : ℕ) (bs : List ℕ) (m old : RpcMessage)
    → pb.parse_rpc (b ∷ bs) ≡ (true, m)
    → unpack_to_rpc_msg pb (some (b ∷ bs)) old ≡ (success, m)
unfolding unpack_to_rpc_msg
unpacks pb b bs m old e = rw e refl

module _ {A : Type 0} where
  wake_caller-finds :
      (m : RpcMessage) (w : RpcWorld A) (crid : ℤ) (w' : RpcWorld A)
      → get_coroutine_idx_by_async_id m.asyncid w.rpc.crid_list ≡ crid
      → wake crid (record w { shared = record w.shared { rpc_msg = m } }) ≡ done w'
      → wake_caller (success, m) w ≡ done (success, remove_if_gone crid w')
  unfolding wake_caller
  wake_caller-finds m w crid w' h k =
      ap
        (λ c.
          wake c (record w { shared = record w.shared { rpc_msg = m } })
          >>= (λ w1. done (success, remove_if_gone c w1)))
        h
      ∙ ap (λ r. r >>= (λ w1. done (success, remove_if_gone crid w1))) k

module _ {M A : Type 0} (pb : Protobuf M) where
  -- The application after a reply: an error leaves the response as it was, with the status -1; a
  -- response is what the reply's bytes are parsed into, with the status 0 if they can be parsed
  -- and -1 if not.
  abbrev pub answered_app : M → M → Callback M A → RpcMessage → A → A
  answered_app request object callback m app =
      if m.msg_type == rpc_type_error
      then callback request object (negsuc 0) app
      else callback request (pb.parse_from object m.msg_bin).1
          (if (pb.parse_from object m.msg_bin).0 then pos 0 else negsuc 0) app

  second_slice :
      (request object : M) (callback : Callback M A) (s : Shared A)
      → slice (runs (reply pb request (some object) callback) returns) s
        ≡ done (record s { app = answered_app request object callback s.rpc_msg s.app }, none)
  unfolding slice reply read_response
  second_slice request object callback s =
      elim (Bool-cases (s.rpc_msg.msg_type == rpc_type_error)) [
        | inl e ↦ rw e refl
        | inr e ↦ rw e refl
      ]

  resume-wakes :
      (b : ℕ) (bs : List ℕ) (m : RpcMessage) (w : RpcWorld A) (crid : ℤ) (w' : RpcWorld A)
      → w.rpc.ready ≡ true
      → pb.parse_rpc (b ∷ bs) ≡ (true, m)
      → get_coroutine_idx_by_async_id m.asyncid w.rpc.crid_list ≡ crid
      → wake crid (record w { shared = record w.shared { rpc_msg = m } }) ≡ done w'
      → resume pb (some (b ∷ bs)) w ≡ done (success, remove_if_gone crid w')
  unfolding resume
  resume-wakes b bs m w crid w' r e h k =
      ap
        (λ ok.
          if ok
          then wake_caller (unpack_to_rpc_msg pb (some (b ∷ bs)) w.shared.rpc_msg) w
          else fault)
        r
      ∙ ap (λ u. wake_caller u w) (unpacks pb b bs m w.shared.rpc_msg e)
      ∙ wake_caller-finds m w crid w' h k

  -- A reply, whatever other calls wait and in whatever order they were made, goes to the call
  -- whose number it bears, the first in the stub's list under it. That call's callback gets its
  -- request with a response and a status: what the reply's bytes are parsed into with 0, or -1 if
  -- they cannot be parsed, and for an error the response as it was, with -1. The call is over, and
  -- every other call waits as before; the stub stays in order. This supposes that the reply can be
  -- read, and that the call has a response to read it into.
  pub reply_reaches_its_call :
      (b : ℕ) (bs : List ℕ) (m : RpcMessage) (w : RpcWorld A) (cid : ℕ) (request object : M)
      (callback : Callback M A)
      → Valid pb w
      → Pending pb w cid m.asyncid request (some object) callback
      → pb.parse_rpc (b ∷ bs) ≡ (true, m)
      → (w' : RpcWorld A) × (resume pb (some (b ∷ bs)) w ≡ done (success, w'))
        × (w'.shared.app ≡ answered_app request object callback m w.shared.app)
        × (w'.shared.handed ≡ w.shared.handed)
        × Valid pb w'
        × (lookup cid w'.scheduler.coroutine_table ≡ none)
        × ((i a : ℕ) (req : M) (resp : Option M) (cb : Callback M A)
            → i ≢ cid
            → Pending pb w i a req resp cb
            → Pending pb w' i a req resp cb)
  reply_reaches_its_call b bs m w cid request object callback v p e =
      let s = record w.shared { rpc_msg = m } in
      let s' = record s { app = answered_app request object callback m s.app } in
      let (sch', run, r) =
        resume_runs_slice w.scheduler
          (record {
            idx = cid;
            state = coroutine_suspend;
            code = runs (reply pb request (some object) callback) returns;
          })
          s s' none p.waits tt (second_slice request object callback s) in
      let w1 = record w { scheduler = sch'; shared = s' } in
      let woken =
        wake-alive (pos cid) (record w { shared = s }) sch' s'
          (alive-waits cid w.scheduler (runs (reply pb request (some object) callback) returns)
            p.waits)
          run in
      (
        record w1 {
          rpc = record w.rpc { crid_list = remove_by_coroutine_id (pos cid) w.rpc.crid_list };
        },
        resume-wakes b bs m w (pos cid) w1 v.is_ready e
              (Listed-found cid m.asyncid w.rpc.crid_list p.listed) woken
            ∙ ap (λ w2. done (success, w2)) (remove-gone (pos cid) w1 (alive-gone cid sch' r.kept)),
        refl,
        refl,
        record {
          is_ready = v.is_ready;
          older = Older-remove w.shared.asyncid_seed (pos cid) w.rpc.crid_list v.older;
          fresh = λ i h.
              let below = subst (λ k. k ≤ i) r.seed h in
              let other : i ≢ cid = λ eq. none-some (
                sym (v.fresh i below)
                ∙ ap (λ k. lookup k w.scheduler.coroutine_table) eq
                ∙ p.waits) in
              r.others i other ∙ v.fresh i below;
        },
        r.kept,
        λ i a req resp cb ne q. record {
          listed = Listed-remove a cid i w.rpc.crid_list ne q.listed;
          waits = r.others i ne ∙ q.waits;
        },
      )
