-- ===== src/Rpc/Dialogue.antt =====
-- A call that a service answers at once.
use rapidapp.Base.{
  ℕ, ◌<◌, ◌≡◌, ◌≢◌, refl, sym, ◌∙◌, ap, true, Option, some, List, [], ◌∷◌, ◌++◌, length, ℤ, pos,
  success, arith, eqb_ℤ, if◌then◌else◌,
}
use rapidapp.Base.Run.{done}
use rapidapp.Rpc.Message.{
  RpcMessage, Protobuf, envelope, unpack_to_rpc_msg, message_to_binary, spawn_message, spawn_from,
  parsed, max_message_name, rpc_type_request, rpc_type_response,
}
use rapidapp.Rpc.{Callback, RpcWorld, resume}
use rapidapp.Rpc.Service.{
  completes, RpcService, Answering, set, new_closure, finish, settle, get_rpc_service, call_service,
  serve, on_front_end_rpc_msg,
}
use rapidapp.Rpc.Calls.{Valid, Pending, request_bytes}
use rapidapp.Rpc.Replies.{reply_reaches_its_call, answered_app}

-- Protocol buffers read back what they write, into any object of the same type, and know every type by
-- its name.
pub record ReadsBack {M : Type 0} (pb : Protobuf M) : Type 0 where
  pub rpc_back : (m : RpcMessage) → pb.parse_rpc (pb.rpc_bytes m) ≡ (true, m)
  pub rpc_filled : (m : RpcMessage) → pb.rpc_bytes m ≢ []
  pub back :
      (object m : M)
      → pb.type_name object ≡ pb.type_name m
      → pb.parse_from object (pb.serialize m) ≡ (true, m)
  pub known :
      (m : M)
      → (object : M) × (pb.prototype (pb.type_name m) ≡ some object)
        × (pb.type_name object ≡ pb.type_name m)

filled : (l : List ℕ) → l ≢ [] → (b : ℕ) × (bs : List ℕ) × (l ≡ b ∷ bs)
filled [] h = absurd (h refl)
filled (b ∷ bs) h = (b, bs, refl)

module _ {M : Type 0} (pb : Protobuf M) (reads : ReadsBack pb) where
  unpacks_bytes :
      (bytes : List ℕ) (m old : RpcMessage)
      → bytes ≢ []
      → pb.parse_rpc bytes ≡ (true, m)
      → unpack_to_rpc_msg pb (some bytes) old ≡ (success, m)
  unfolding unpack_to_rpc_msg
  unpacks_bytes [] m old h e = absurd (h refl)
  unpacks_bytes (b ∷ bs) m old h e = rw e refl

  -- A request that was packed is spawned again.
  spawn-request :
      (asyncid : ℕ) (request : M) (old : RpcMessage)
      → spawn_message pb (some (request_bytes pb asyncid request)) old ≡ (
        some request,
        envelope rpc_type_request asyncid (pb.type_name request) (pb.serialize request),
      )
  unfolding spawn_message spawn_from parsed envelope
  spawn-request asyncid request old =
      let m = envelope rpc_type_request asyncid (pb.type_name request) (pb.serialize request) in
      let (object, proto, same) = reads.known request in
      ap (spawn_from pb)
        (unpacks_bytes (pb.rpc_bytes m) m old (reads.rpc_filled m) (reads.rpc_back m))
      ∙ rw (proto, reads.back object request same) refl

  -- The envelope of an answer.
  abbrev pub answer_bytes : ℕ → M → List ℕ
  answer_bytes asyncid answer =
      pb.rpc_bytes (envelope rpc_type_response asyncid (pb.type_name answer) (pb.serialize answer))

  packs_answer :
      (asyncid : ℕ) (answer : M)
      → length (pb.type_name answer) < max_message_name
      → message_to_binary pb rpc_type_response asyncid (some answer) []
        ≡ (success, answer_bytes asyncid answer)
  unfolding message_to_binary envelope
  packs_answer asyncid answer h = ground arith

  finish-sends :
      (net asyncid : ℕ) (req answer : M)
      → length (pb.type_name answer) < max_message_name
      → finish pb (record { async_id = asyncid; net = some net; req = some req; rsp = some answer })
        ≡ (net, answer_bytes asyncid answer) ∷ []
  unfolding finish
  finish-sends net asyncid req answer h =
      ap (λ (r : ℤ × List ℕ). if eqb_ℤ r.0 success then (net, r.1) ∷ [] else [])
        (packs_answer asyncid answer h)

  answered-success :
      {A : Type 0} (asyncid : ℕ) (request answer object : M) (callback : Callback M A) (app : A)
      → pb.type_name object ≡ pb.type_name answer
      → answered_app pb request object callback
          (envelope rpc_type_response asyncid (pb.type_name answer) (pb.serialize answer))
          app
        ≡ callback request answer success app
  unfolding envelope
  answered-success asyncid request answer object callback app h =
      rw (reads.back object answer h) refl

  -- The answering side after it has answered.
  abbrev pub after_answer : {A : Type 0} → ℕ → ℕ → M → M → A → Answering M A → Answering M A
  after_answer net asyncid request answer app s = record s {
    app = app;
    rpc_msg = envelope rpc_type_request asyncid (pb.type_name request) (pb.serialize request);
    handed = s.handed ++ ((net, answer_bytes asyncid answer) ∷ []);
  }

  serves :
      {A : Type 0} (net asyncid : ℕ) (request blank answer : M)
      (mgr : List (List ℕ × RpcService M A)) (svc : RpcService M A) (app : A) (s : Answering M A)
      → get_rpc_service (pb.type_name request) mgr ≡ some svc
      → svc.new_response ≡ some blank
      → svc.on_rpc_call request blank s.app ≡ (completes answer, app)
      → length (pb.type_name answer) < max_message_name
      → serve pb true
          (some net)
          (some mgr)
          (
            some request,
            envelope rpc_type_request asyncid (pb.type_name request) (pb.serialize request),
          )
          s
        ≡ (pos 1, after_answer net asyncid request answer app s)
  unfolding serve call_service set new_closure settle envelope
  serves net asyncid request blank answer mgr svc app s found made answers short =
      rw (found, made, answers, finish-sends net asyncid request answer short) refl

  -- A call that waits, and a service of the other side that answers it at once: the service gets
  -- the caller's request, its answer goes out on the connection, and brought back to the caller it
  -- reaches the callback, with the request and the status 0; every other call waits as before.
  -- This supposes that protocol buffers read back what they write, that the answer's type has a
  -- short name and is that of the caller's response, and that allocations work.
  pub call_is_answered :
      {A B : Type 0} (w : RpcWorld A) (cid asyncid : ℕ) (request object : M)
      (callback : Callback M A) (net : ℕ) (mgr : List (List ℕ × RpcService M B))
      (svc : RpcService M B) (blank answer : M) (app : B) (s : Answering M B)
      → Valid pb w
      → Pending pb w cid asyncid request (some object) callback
      → get_rpc_service (pb.type_name request) mgr ≡ some svc
      → svc.new_response ≡ some blank
      → svc.on_rpc_call request blank s.app ≡ (completes answer, app)
      → length (pb.type_name answer) < max_message_name
      → pb.type_name object ≡ pb.type_name answer
      → (on_front_end_rpc_msg pb true
            (some net)
            (some mgr)
            (some (request_bytes pb asyncid request))
            s
          ≡ (pos 1, after_answer net asyncid request answer app s))
        × (w' : RpcWorld A) × (resume pb (some (answer_bytes asyncid answer)) w
            ≡ done (success, w'))
        × (w'.shared.app ≡ callback request answer success w.shared.app)
        × Valid pb w'
        × ((i a : ℕ) (req : M) (resp : Option M) (cb : Callback M A)
            → i ≢ cid
            → Pending pb w i a req resp cb
            → Pending pb w' i a req resp cb)
  unfolding on_front_end_rpc_msg envelope
  call_is_answered w cid asyncid request object callback net mgr svc blank answer app s v p found
        made answers short same =
      let m = envelope rpc_type_response asyncid (pb.type_name answer) (pb.serialize answer) in
      let (b, bs, e) = filled (pb.rpc_bytes m) (reads.rpc_filled m) in
      let (w', run, told, _, v', _, others) =
        reply_reaches_its_call pb b bs m w cid request object callback v p
          (ap pb.parse_rpc (sym e) ∙ reads.rpc_back m) in
      (
        ap (λ u. serve pb true (some net) (some mgr) u s) (spawn-request asyncid request s.rpc_msg)
            ∙ serves net asyncid request blank answer mgr svc app s found made answers short,
        w',
        ap (λ l. resume pb (some l) w) e ∙ run,
        told ∙ answered-success asyncid request answer object callback w.shared.app same,
        v',
        others,
      )
