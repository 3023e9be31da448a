-- ===== src/Connector/Session.antt =====
-- `ConnectorSession` and `BackEndSet` (server/connector/connector_session.cpp). A session is named by
-- the address `c` of the user context that it lives in; each method reads it there again after a call
-- that may have freed it.
use rapidapp.Base.{
  ℕ, zero, ◌+◌, true, false, not, ◌&&◌, ◌||◌, Option, none, some, List, [], ◌∷◌, ℤ, pos, success,
  failure, leb, ◌==◌, if◌then◌else◌, add64,
}
use rapidapp.Base.Run.{Run, done, fault, ◌>>=◌, deref}
use rapidapp.Connector.State.{
  SessionState, state_init, state_auth, state_syning, state_synack, state_ok, CsMsg, SsMsg, Codec,
  BackEndSet, Server, put_session, magic_cs_v1, magic_ss_v1, cs_synack, cs_passport, cs_start_app,
  cs_data_transparent, ss_syn, ss_data,
}
use rapidapp.Connector.Frame.{send_to_front_end, send_to_back_end, destroy_front_end, get_net_ids}

abbrev pub k_max_back_end_num : ℕ
k_max_back_end_num = 32

-- `AddBackEnd`: no value is returned on success.
unfoldable pub add_back_end : Option ℕ → BackEndSet → Option ℤ × BackEndSet
add_back_end net b = if leb k_max_back_end_num b.backend_used then (some failure, b) else (
  none,
  record b {
    backends = λ i. if i == b.backend_used then net else b.backends i;
    backend_used = b.backend_used + 1;
  },
)

-- The back end whose turn it is, as `SendDataToBackEnd` and `HandShake_StartSession` take it.
unfoldable pub take_back_end : BackEndSet → Option ℕ × BackEndSet
take_back_end b =
    let p = if leb b.backend_used b.backend_pos then 0 else b.backend_pos in
    (b.backends p, record b { backend_pos = p + 1 })

unfoldable pub set_sid : ℕ → ℕ → Server → Run Server
unfolding put_session
set_sid c sid s = deref (s.heap.contexts c) >>= λ x. done (put_session c (record x { sid = sid }) s)

unfoldable pub set_state : ℕ → SessionState → Server → Run Server
unfolding put_session
set_state c state s =
    deref (s.heap.contexts c) >>= λ x. done (put_session c (record x { state = state }) s)

-- `frame_stub_->DestroyFrontEnd(&net_stub_)`: the connection goes, and then `NULL` is written to the
-- session's member.
unfoldable pub destroy_net_stub : ℕ → Server → Run Server
unfolding put_session
destroy_net_stub c s = deref (s.heap.contexts c) >>= λ x. elim x.net_stub [
  | none ↦ done s
  | some net ↦ destroy_front_end (some net) s >>= λ s'.
      deref (s'.heap.contexts c) >>= λ x'. done (put_session c (record x' { net_stub = none }) s')
]

unfoldable pub check_up_side_message : ℕ → CsMsg → Server → Run (ℤ × Server)
unfolding put_session
check_up_side_message c up_msg s = deref (s.heap.contexts c) >>= λ x. done (
    if not (up_msg.magic == magic_cs_v1)
      || (not (x.last_seq == 0) && not (up_msg.sequence == add64 x.last_seq 1))
    then (failure, s)
    else (success, put_session c (record x { last_seq = up_msg.sequence }) s))

-- What `SerializeAndSendToFrontEnd` does with the outcome of the send.
unfoldable pub destroy_unless_sent : ℕ → ℤ × Server → Run (ℤ × Server)
destroy_unless_sent c (pos zero, s) = done (success, s)
destroy_unless_sent c (_, s) = destroy_net_stub c s >>= λ s'. done (failure, s')

-- The state that a step of the handshake reaches if it went well.
unfoldable pub then_state : ℕ → SessionState → ℤ × Server → Run (ℤ × Server)
then_state c state (pos zero, s) = set_state c state s >>= λ s'. done (success, s')
then_state c state (_, s) = done (failure, s)

unfoldable pub key_msg : CsMsg
key_msg = record {
  magic = magic_cs_v1;
  sequence = 1;
  bodyid = cs_synack;
  secretkey =
      some
        (116 ∷ 101 ∷ 115 ∷ 116 ∷ 32 ∷ 115 ∷ 101 ∷ 99 ∷ 114 ∷ 101 ∷ 116 ∷ 32 ∷ 107 ∷ 101 ∷ 121 ∷ []);
  passport = none;
  start = none;
  syn = none;
  auth = none;
  error = none;
  data_bytes = none;
}

unfoldable pub passport_msg : CsMsg
passport_msg = record {
  magic = magic_cs_v1;
  sequence = 1;
  bodyid = cs_passport;
  secretkey = none;
  passport = some 102030;
  start = none;
  syn = none;
  auth = none;
  error = none;
  data_bytes = none;
}

unfoldable pub start_msg : CsMsg
start_msg = record {
  magic = magic_cs_v1;
  sequence = 1;
  bodyid = cs_start_app;
  secretkey = none;
  passport = none;
  start = some 0;
  syn = none;
  auth = none;
  error = none;
  data_bytes = none;
}

unfoldable pub down_msg : ℕ → List ℕ → CsMsg
down_msg sequence msg = record {
  magic = magic_cs_v1;
  sequence = sequence;
  bodyid = cs_data_transparent;
  secretkey = none;
  passport = none;
  start = none;
  syn = none;
  auth = none;
  error = none;
  data_bytes = some msg;
}

unfoldable pub syn_msg : ℕ × ℕ → ℕ → SsMsg
syn_msg ids sid = record {
  magic = magic_ss_v1;
  sequence = 1;
  bodyid = ss_syn;
  fd = ids.0;
  nid = ids.1;
  sid = sid;
  data_bytes = none;
  syn = some 0;
  ack = none;
  fin = none;
}

unfoldable pub up_data_msg : ℕ → ℕ × ℕ → ℕ → List ℕ → SsMsg
up_data_msg sequence ids sid bytes = record {
  magic = magic_ss_v1;
  sequence = sequence;
  bodyid = ss_data;
  fd = ids.0;
  nid = ids.1;
  sid = sid;
  data_bytes = some bytes;
  syn = none;
  ack = none;
  fin = none;
}

module _ (codec : Codec) where
  unfoldable pub serialize_and_send_to_front_end : ℕ → CsMsg → Server → Run (ℤ × Server)
  serialize_and_send_to_front_end c msg s = deref (s.heap.contexts c) >>= λ x. elim x.net_stub [
    | none ↦ fault
    | some net ↦ elim x.frame_stub [
      | false ↦ fault
      | true ↦ send_to_front_end (some net) (codec.cs_bytes msg) s >>= destroy_unless_sent c
    ]
  ]

  unfoldable pub handle_key_making : ℕ → Server → Run (ℤ × Server)
  handle_key_making c s = serialize_and_send_to_front_end c key_msg s >>= then_state c state_auth

  unfoldable pub handle_auth_request : ℕ → Server → Run (ℤ × Server)
  handle_auth_request c s =
      serialize_and_send_to_front_end c passport_msg s >>= then_state c state_syning

  -- A send that fails is logged with the uri of the client's connection.
  unfoldable pub log_net_stub : Option ℕ → ℤ × Server → Run (ℤ × Server)
  log_net_stub net (pos zero, s) = done (success, s)
  log_net_stub net (_, s) = deref net >>= λ a. deref (s.heap.nets a) >>= λ _. done (failure, s)

  unfoldable pub start_to_back_end : ℕ → Option ℕ → Server → Run (ℤ × Server)
  unfolding log_net_stub
  start_to_back_end c back_net s = deref (s.heap.contexts c) >>= λ x. elim x.frame_stub [
    | false ↦ done (failure, s)
    | true ↦ elim back_net [
      | none ↦ done (failure, s)
      | some back ↦ get_net_ids x.net_stub s >>= λ ids.
          send_to_back_end (some back) (codec.ss_bytes (syn_msg ids x.sid)) s
          >>= log_net_stub x.net_stub
    ]
  ]

  unfoldable pub hand_shake_start_session : ℕ → Server → Run (ℤ × Server)
  hand_shake_start_session c s =
      let (back_net, b) = take_back_end s.back_ends in
      start_to_back_end c back_net (record s { back_ends = b }) >>= then_state c state_synack

  unfoldable pub hand_shake_on_start_acked : ℕ → Server → Run (ℤ × Server)
  hand_shake_on_start_acked c s =
      serialize_and_send_to_front_end c start_msg s >>= then_state c state_ok

  -- The connection's uri is logged before.
  unfoldable pub hand_shake_on_stop_notify : ℕ → Server → Run (ℤ × Server)
  hand_shake_on_stop_notify c s = deref (s.heap.contexts c) >>= λ x. elim x.frame_stub [
    | false ↦ fault
    | true ↦ deref x.net_stub >>= λ net.
        deref (s.heap.nets net) >>= λ _. destroy_net_stub c s >>= λ s'. done (success, s')
  ]

  unfoldable pub drive_in : SessionState → ℕ → Server → Run (ℤ × Server)
  drive_in state_init c s = handle_key_making c s
  drive_in state_auth c s = handle_auth_request c s
  drive_in state_syning c s = hand_shake_start_session c s
  drive_in state_synack c s = hand_shake_on_start_acked c s
  drive_in state_ok c s = hand_shake_on_stop_notify c s

  unfoldable pub drive_state_machine : ℕ → Server → Run (ℤ × Server)
  unfolding drive_in
  drive_state_machine c s = deref (s.heap.contexts c) >>= λ x. drive_in x.state c s

  -- A send that fails is logged with the uri of the back end.
  unfoldable pub log_back_net : Option ℕ → ℤ × Server → Run (ℤ × Server)
  log_back_net net (pos zero, s) = done (success, s)
  log_back_net net (_, s) = deref net >>= λ a. deref (s.heap.nets a) >>= λ _. done (failure, s)

  unfoldable pub send_data_to_back_end : List ℕ → Server → Run (ℤ × Server)
  unfolding log_back_net
  send_data_to_back_end bytes s =
      let (back_net, b) = take_back_end s.back_ends in
      send_to_back_end back_net bytes (record s { back_ends = b }) >>= log_back_net back_net

  unfoldable pub forward_up_side_message : ℕ → ℕ → List ℕ → Server → Run (ℤ × Server)
  unfolding send_data_to_back_end
  forward_up_side_message c sequence bytes s = deref (s.heap.contexts c) >>= λ x.
      elim x.frame_stub [
        | false ↦ fault
        | true ↦ get_net_ids x.net_stub s >>= λ ids.
            send_data_to_back_end (codec.ss_bytes (up_data_msg sequence ids x.sid bytes)) s
      ]

  -- A protobuf string's buffer is never null: only an empty one is refused.
  unfoldable pub forward_down_side_message : ℕ → ℕ → List ℕ → Server → Run (ℤ × Server)
  forward_down_side_message c sequence [] s = done (failure, s)
  forward_down_side_message c sequence (b ∷ bs) s = deref (s.heap.contexts c) >>= λ x.
      elim x.frame_stub [
        | false ↦ fault
        | true ↦ send_to_front_end x.net_stub (codec.cs_bytes (down_msg sequence (b ∷ bs))) s
      ]
