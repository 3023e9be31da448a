-- ===== src/Rpc/Tests.antt =====
-- A caller with one call under way, and a service that adds one to each byte.
use rapidapp.Base.{
  inl, ℕ, suc, ◌≡◌, ◌≢◌, refl, ap, Bool, true, false, Option, none, some, List, [], ◌∷◌, ◌++◌, map,
  length, take, drop, take-append, drop-append, replicate, length-replicate, pos, success, arith,
}
use rapidapp.Base.Run.{done}
use rapidapp.Coroutine.{returns, runs, coroutine_suspend}
use rapidapp.Coroutine.Table.{lookup}
use rapidapp.Rpc.Message.{RpcMessage, Protobuf}
use rapidapp.Rpc.{Callback, RpcWorld, rpc_call, resume, reply, get_coroutine_idx_by_async_id}
use rapidapp.Rpc.Service.{RpcService, completes, Answering, get_rpc_service, on_front_end_rpc_msg}
use rapidapp.Rpc.Calls.{Valid, Pending, call_is_sent, request_bytes, sent_request}
use rapidapp.Rpc.Replies.{reply_reaches_its_call, answered_app}
use rapidapp.Rpc.Dialogue.{ReadsBack, call_is_answered, answer_bytes, after_answer}
use rapidapp.Rpc.Errors.{long_name_sends_old_request}

-- A message is the name of its type and its bytes.
abbrev Message : Type 0
Message = List ℕ × List ℕ

abbrev read_envelope : List ℕ → Bool × RpcMessage
read_envelope (magic ∷ msg_type ∷ asyncid ∷ n ∷ rest) = (
  true,
  record {
    magic = magic;
    msg_type = msg_type;
    asyncid = asyncid;
    msg_name = take n rest;
    msg_bin = drop n rest;
  },
)
read_envelope _ =
    (false, record { magic = 0; msg_type = 0; asyncid = 0; msg_name = []; msg_bin = [] })

abbrev pb : Protobuf Message
pb = record {
  type_name = λ m. m.0;
  serialize = λ m. m.1;
  parse_from = λ object bytes. (true, (object.0, bytes));
  prototype = λ name. some (name, []);
  rpc_bytes = λ m. m.magic ∷ m.msg_type ∷ m.asyncid ∷ length m.msg_name ∷ (m.msg_name ++ m.msg_bin);
  parse_rpc = read_envelope;
}

pb-ReadsBack : ReadsBack pb
pb-ReadsBack = record {
  rpc_back = λ m.
      rw
        (
          take-append (length m.msg_name) m.msg_name m.msg_bin refl,
          drop-append (length m.msg_name) m.msg_name m.msg_bin refl,
        )
        refl;
  rpc_filled = λ m e. cc;
  back = λ object m e. ap (λ name. (true, (name, m.1))) e;
  known = λ m. ((m.0, []), refl, refl);
}

-- The application keeps the bytes of the responses.
abbrev keep : Callback Message (List (List ℕ))
keep request response status app = app ++ (response.1 ∷ [])

abbrev ask : Message
ask = (97 ∷ [], 1 ∷ 2 ∷ [])

abbrev blank : Message
blank = (98 ∷ [], [])

abbrev idle : RpcWorld (List (List ℕ))
idle = record {
  rpc = record { ready = true; crid_list = [] };
  scheduler = record { running_cid = none; coroutine_max = 10; coroutine_table = []; cid_seed = 4 };
  shared = record {
    app = [];
    asyncid_seed = 7;
    rpc_msg = record { magic = 0; msg_type = 0; asyncid = 0; msg_name = []; msg_bin = [] };
    buf = 5 ∷ [];
    handed = [];
  };
}

idle-Valid : Valid pb idle
unfolding lookup
idle-Valid = record { is_ready = refl; older = tt; fresh = λ i h. refl }

call_is_sent_example :
    (w' : RpcWorld (List (List ℕ))) × (rpc_call pb true true
        (some ask)
        (some blank)
        (some keep)
        idle
      ≡ done (success, w'))
    × (w'.shared ≡ sent_request pb ask idle.shared)
    × Valid pb w'
    × Pending pb w' 4 7 ask (some blank) keep
    × ((cid asyncid : ℕ) (req : Message) (resp : Option Message)
          (cb : Callback Message (List (List ℕ)))
        → Pending pb idle cid asyncid req resp cb
        → Pending pb w' cid asyncid req resp cb)
call_is_sent_example =
    call_is_sent pb ask (some blank) keep idle idle-Valid (omega arith) (omega arith) (omega arith)
      (omega arith)

-- The call number 7 is under way.
abbrev asked : RpcWorld (List (List ℕ))
asked = record idle {
  rpc = record { ready = true; crid_list = record { crid = pos 4; asyncid = 7 } ∷ [] };
  scheduler = record {
    running_cid = none;
    coroutine_max = 10;
    coroutine_table =
        (
          4,
          record {
            idx = 4;
            state = coroutine_suspend;
            code = runs (reply pb ask (some blank) keep) returns;
          },
        )
        ∷ [];
    cid_seed = 5;
  };
  shared = record idle.shared { asyncid_seed = 8 };
}

asked-Valid : Valid pb asked
unfolding lookup
asked-Valid = record {
  is_ready = refl;
  older = (omega arith, (4, refl), tt);
  fresh = λ i h. ground arith;
}

asked-Pending : Pending pb asked 4 7 ask (some blank) keep
unfolding lookup get_coroutine_idx_by_async_id
asked-Pending = record { listed = inl (refl, refl); waits = refl }

-- The service's answer: each byte one more.
abbrev adder : RpcService Message ℕ
adder = record {
  rpc_request_name = 97 ∷ [];
  new_response = some blank;
  on_rpc_call = λ req rsp n. (completes (98 ∷ [], map (λ b. suc b) req.1), suc n);
}

abbrev unused : Answering Message ℕ
unused = record {
  app = 0;
  rpc_msg = record { magic = 0; msg_type = 0; asyncid = 0; msg_name = []; msg_bin = [] };
  kept = [];
  handed = [];
}

abbrev answer : Message
answer = (98 ∷ [], 2 ∷ 3 ∷ [])

call_is_answered_example :
    (on_front_end_rpc_msg pb true
        (some 1)
        (some ((97 ∷ [], adder) ∷ []))
        (some (request_bytes pb 7 ask))
        unused
      ≡ (pos 1, after_answer pb pb-ReadsBack 1 7 ask answer 1 unused))
    × (w' : RpcWorld (List (List ℕ))) × (resume pb
          (some (answer_bytes pb pb-ReadsBack 7 answer))
          asked
        ≡ done (success, w'))
    × (w'.shared.app ≡ (2 ∷ 3 ∷ []) ∷ [])
    × Valid pb w'
    × ((i a : ℕ) (req : Message) (resp : Option Message) (cb : Callback Message (List (List ℕ)))
        → i ≢ 4
        → Pending pb asked i a req resp cb
        → Pending pb w' i a req resp cb)
unfolding get_rpc_service
call_is_answered_example =
    call_is_answered pb pb-ReadsBack asked 4 7 ask blank keep 1 ((97 ∷ [], adder) ∷ []) adder blank
      answer 1 unused asked-Valid asked-Pending refl refl refl (omega arith) refl

abbrev reply_msg : RpcMessage
reply_msg = record {
  magic = 33048;
  msg_type = 2;
  asyncid = 7;
  msg_name = 98 ∷ [];
  msg_bin = 2 ∷ 3 ∷ [];
}

reply_reaches_its_call_example :
    (w' : RpcWorld (List (List ℕ))) × (resume pb (some (33048 ∷ 2 ∷ 7 ∷ 1 ∷ 98 ∷ 2 ∷ 3 ∷ [])) asked
      ≡ done (success, w'))
    × (w'.shared.app ≡ answered_app pb ask blank keep reply_msg [])
    × (w'.shared.handed ≡ [])
    × Valid pb w'
    × (lookup 4 w'.scheduler.coroutine_table ≡ none)
    × ((i a : ℕ) (req : Message) (resp : Option Message) (cb : Callback Message (List (List ℕ)))
        → i ≢ 4
        → Pending pb asked i a req resp cb
        → Pending pb w' i a req resp cb)
reply_reaches_its_call_example =
    reply_reaches_its_call pb 33048 (2 ∷ 7 ∷ 1 ∷ 98 ∷ 2 ∷ 3 ∷ []) reply_msg asked 4 ask blank keep
      asked-Valid asked-Pending refl

-- A request whose type has a name of 1024 bytes.
abbrev long_ask : Message
long_ask = (replicate 1024 97, [])

long_name_sends_old_request_example :
    (w' : RpcWorld (List (List ℕ))) × (rpc_call pb true true
        (some long_ask)
        (some blank)
        (some keep)
        idle
      ≡ done (success, w'))
    × (w'.shared.handed ≡ (5 ∷ []) ∷ [])
long_name_sends_old_request_example =
    long_name_sends_old_request pb long_ask (some blank) keep idle idle-Valid (omega arith)
      (omega arith) (omega (arith, length-replicate {A = ℕ} 1024 97))
