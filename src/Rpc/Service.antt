-- ===== src/Rpc/Service.antt =====
-- The answering side: `EasyRpcClosure` (framework/rapidapp_easy_rpc.{h,cpp}), `RpcServerMgr`
-- (framework/rapidapp_rpc_mgr.{h,cpp}) and `AppFrameWork::OnFrontEndRpcMsg`
-- (framework/rapidapp_framework_imp.cpp). A connection is an address.
use rapidapp.Base.{
  same_name, ℕ, Bool, true, false, Option, none, some, List, [], ◌∷◌, ◌++◌, ℤ, pos, success,
  failure, eqb_ℤ, if◌then◌else◌,
}
use rapidapp.Rpc.Message.{
  RpcMessage, Protobuf, spawn_message, message_to_binary, rpc_error_to_binary, rpc_type_response,
}

-- The user data is not looked at here.
pub record EasyRpcClosure (M : Type 0) : Type 0 where
  pub async_id : ℕ
  pub net : Option ℕ
  pub req : Option M
  pub rsp : Option M

-- What a service does with a call at once: it fills the response and calls `Done`, or it calls
-- `Cancel`, or it keeps the closure for later.
pub data Outcome (M : Type 0) : Type 0 where
  completes : M → Outcome M
  cancels : Outcome M
  keeps : Outcome M

-- `IRpcService`, which the application implements; `A` is its state.
pub record RpcService (M A : Type 0) : Type 0 where
  pub rpc_request_name : List ℕ
  pub new_response : Option M
  pub on_rpc_call : M → M → A → Outcome M × A

-- `rpc_svc_map`, and what the calls leave behind: the state of the application, the static `rpc_msg_`,
-- the closures that services keep, and what was handed to `Send` of which connection, the earliest
-- first.
pub record Answering (M A : Type 0) : Type 0 where
  pub app : A
  pub rpc_msg : RpcMessage
  pub kept : List (EasyRpcClosure M)
  pub handed : List (ℕ × List ℕ)

module _ {M : Type 0} where
  unfoldable pub new_closure : EasyRpcClosure M
  new_closure = record { async_id = 0; net = none; req = none; rsp = none }

  unfoldable pub set : Option ℕ → ℕ → Option M → Option M → EasyRpcClosure M → ℤ × EasyRpcClosure M
  set (some net) asyncid (some req) (some rsp) c =
      (success, record { async_id = asyncid; net = some net; req = some req; rsp = some rsp })
  set _ asyncid _ _ c = (failure, c)

  -- What `Done` hands to `Send`; the closure is deleted.
  unfoldable pub finish : Protobuf M → EasyRpcClosure M → List (ℕ × List ℕ)
  finish pb c = elim c.net [
    | none ↦ []
    | some net ↦ elim c.rsp [
      | none ↦ []
      | some rsp ↦ elim c.req [
        | none ↦ []
        | some req ↦
            let (r, out) = message_to_binary pb rpc_type_response c.async_id (some rsp) [] in
            if eqb_ℤ r success then (net, out) ∷ [] else []
      ]
    ]
  ]

  -- `Cancel`
  unfoldable pub cancel : Protobuf M → EasyRpcClosure M → List (ℕ × List ℕ)
  cancel pb c = elim c.net [
    | none ↦ []
    | some net ↦ elim c.rsp [
      | none ↦ []
      | some rsp ↦ elim c.req [
        | none ↦ []
        | some req ↦ (net, rpc_error_to_binary pb c.async_id) ∷ []
      ]
    ]
  ]

module _ {M A : Type 0} where
  -- `rpc_svc_map_[request_name] = rpc_svc`
  unfoldable pub add_named :
      List ℕ → RpcService M A → List (List ℕ × RpcService M A) → List (List ℕ × RpcService M A)
  add_named name svc [] = (name, svc) ∷ []
  add_named name svc ((n, old) ∷ rest) =
      if same_name n name then (n, svc) ∷ rest else (n, old) ∷ add_named name svc rest

  unfoldable pub add_rpc_service :
      Option (RpcService M A) → List (List ℕ × RpcService M A) → List (List ℕ × RpcService M A)
  unfolding add_named
  add_rpc_service none m = m
  add_rpc_service (some svc) m = add_named svc.rpc_request_name svc m

  unfoldable pub get_rpc_service : List ℕ → List (List ℕ × RpcService M A) → Option (RpcService M A)
  get_rpc_service name [] = none
  get_rpc_service name ((n, svc) ∷ rest) =
      if same_name n name then some svc else get_rpc_service name rest

  unfoldable pub settle :
      Protobuf M → EasyRpcClosure M → Outcome M × A → Answering M A → Answering M A
  unfolding finish cancel
  settle pb c (completes rsp, app) s = record s {
    app = app;
    handed = s.handed ++ finish pb (record c { rsp = some rsp });
  }
  settle pb c (cancels, app) s = record s { app = app; handed = s.handed ++ cancel pb c }
  settle pb c (keeps, app) s = record s { app = app; kept = s.kept ++ (c ∷ []) }

  unfoldable pub call_service :
      Protobuf M → Bool → Option ℕ → M → Option (RpcService M A) → Answering M A → ℤ × Answering M A
  unfolding set new_closure settle
  call_service pb new_closed net req none s = (success, s)
  call_service pb new_closed net req (some svc) s = elim svc.new_response [
    | none ↦ (success, s)
    | some resp ↦ elim new_closed [
      | false ↦ (success, s)
      | true ↦
          let (r, c) = set net s.rpc_msg.asyncid (some req) (some resp) new_closure in
          if eqb_ℤ r success
          then (pos 1, settle pb c (svc.on_rpc_call req resp s.app) s)
          else (success, s)
    ]
  ]

  unfoldable pub serve :
      Protobuf M
      → Bool
      → Option ℕ
      → Option (List (List ℕ × RpcService M A))
      → Option M × RpcMessage
      → Answering M A
      → ℤ × Answering M A
  unfolding get_rpc_service call_service
  serve pb new_closed net svc_mgr (none, m) s = (failure, record s { rpc_msg = m })
  serve pb new_closed net none (some req, m) s = (failure, record s { rpc_msg = m })
  serve pb new_closed net (some mgr) (some req, m) s =
      call_service pb new_closed net req (get_rpc_service (pb.type_name req) mgr)
        (record s { rpc_msg = m })

  -- `new_closed` is the outcome of `new` for the closure. -1 makes the caller close the connection.
  unfoldable pub on_front_end_rpc_msg :
      Protobuf M
      → Bool
      → Option ℕ
      → Option (List (List ℕ × RpcService M A))
      → Option (List ℕ)
      → Answering M A
      → ℤ × Answering M A
  unfolding serve
  on_front_end_rpc_msg pb new_closed net svc_mgr bytes s =
      serve pb new_closed net svc_mgr (spawn_message pb bytes s.rpc_msg) s
