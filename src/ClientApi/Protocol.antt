-- ===== src/ClientApi/Protocol.antt =====
-- `ConnectorClientProtocolImp` (server/connector/client_api/connector_client_api_imp.cpp). The logger
-- is left out. A callback is the last thing that a call does, so what the application does in it
-- comes as its next calls.
use rapidapp.Base.{
  ℕ, ◌+◌, ◌*◌, ◌%◌, ◌^◌, Bool, true, not, ◌&&◌, Option, none, some, List, [], ◌∷◌, ◌++◌, length,
  drop, ℤ, success, failure, eqb_ℤ, ltb, ◌==◌, if◌then◌else◌, add64,
}
use rapidapp.Base.Run.{Run, done, fault, ◌>>=◌}
use rapidapp.Wire.{htonl, get_pkg_len}
use rapidapp.Socket.{
  TcpSocketUtil, normal, send_uncompleted, peer_closed, assert_failed, net_connected,
}
use rapidapp.Socket
use rapidapp.Connector.State.{
  CsMsg, Codec, cs_syn, cs_synack, cs_authentication, cs_passport, cs_start_app,
  cs_data_transparent, cs_error, bytes_of,
}
use rapidapp.ClientApi.State.{
  ClientState, session_state_tcp_syning, session_state_key_syning, session_state_authing,
  session_state_ready, session_state_done, session_state_fini, k_max_pkg_size,
  connector_err_no_more_pkg, Settings, on_get_settings, ClientProtocol, empty_msg, tell, Answers,
}

-- A call that returns a code.
abbrev pub Coded : Type 0
Coded = Run (ℤ × ClientProtocol)

-- `Connect`, whose assertion is that a listener is set.
unfoldable pub connect : ℤ → List ℕ → ClientProtocol → Coded
connect opened server_uri c =
    if c.protocol_event_listener
    then (let (r, sock) = Socket.connect_nonblock opened server_uri c.tcp_sock in
        done (
          if eqb_ℤ r normal
          then (success, record c { tcp_sock = sock; session_state = session_state_tcp_syning })
          else (failure, record c { tcp_sock = sock })))
    else fault

unfoldable pub close : ClientProtocol → ClientProtocol
close c = record c { tcp_sock = Socket.close c.tcp_sock; session_state = session_state_fini }

-- A code other than 0 is -1 to the caller.
unfoldable pub or_failure : ℤ × ClientProtocol → Coded
or_failure (r, c) = done (if eqb_ℤ r success then success else failure, c)

-- `Start` after `Init`, whose result is not looked at.
unfoldable pub start_on : ℤ → Settings → ClientProtocol → ℤ × TcpSocketUtil → Coded
unfolding tell connect or_failure
start_on opened s c (r, sock) =
    connect opened s.server_uri (
      tell on_get_settings (record c {
        protocol_event_listener = true;
        appid = s.appid;
        openid = s.openid;
        token = s.token;
        encrypt_mode = s.encrypt_mode;
        auth_type = s.auth_type;
        server_uri = s.server_uri;
        tcp_sock = sock;
      }))
    >>= or_failure

unfoldable pub start : Bool × Bool → ℤ → Option Settings → ClientProtocol → Coded
unfolding start_on
start allocs opened none c = done (failure, c)
start allocs opened (some s) c =
    start_on opened s c (Socket.init allocs (some get_pkg_len) (k_max_pkg_size * 2) c.tcp_sock)

unfoldable pub terminate : ClientProtocol → ℤ × ClientProtocol
unfolding close
terminate c = (success, close c)

unfoldable pub resume : ℤ → ClientProtocol → Coded
unfolding connect or_failure
resume opened c =
    if c.protocol_event_listener
    then connect opened c.server_uri
        (record c { tcp_sock = Socket.reset (Socket.close c.tcp_sock) })
      >>= or_failure
    else done (failure, c)

-- `Send` and what it did with the bytes.
unfoldable pub send_now : Socket.Sent → ClientProtocol → Coded
send_now answer c = Socket.send answer c.tcp_sock >>= λ (r, bytes, sock).
    let c' = record c { tcp_sock = sock; wire = c.wire ++ bytes } in
    done (if not (eqb_ℤ r normal) && not (eqb_ℤ r send_uncompleted) then (r, c') else (normal, c'))

-- The two entries of the vector: the length field, and the message.
unfoldable pub iov_of : List ℕ → List (Option (List ℕ))
iov_of bin = some (htonl ((length bin + 4) % 2 ^ 32)) ∷ some bin ∷ []

unfoldable pub if_pushed : Socket.Sent → ClientProtocol → ℤ × TcpSocketUtil → Coded
unfolding send_now
if_pushed answer c (r, sock) =
    if eqb_ℤ r normal
    then send_now answer (record c { tcp_sock = sock })
    else done (r, record c { tcp_sock = sock })

-- The body of `up_msg` is cleared, and one part of it is set.
unfoldable pub syn_up : List ℕ → List ℕ → ℕ → CsMsg
unfolding empty_msg
syn_up appid openid seq = record empty_msg {
  sequence = seq;
  bodyid = cs_syn;
  syn = some (appid, openid);
}

unfoldable pub auth_up : List ℕ → ℕ → CsMsg
unfolding empty_msg
auth_up token seq = record empty_msg {
  sequence = seq;
  bodyid = cs_authentication;
  auth = some token;
}

unfoldable pub data_up : List ℕ → ℕ → CsMsg
unfolding empty_msg
data_up bytes seq = record empty_msg {
  sequence = seq;
  bodyid = cs_data_transparent;
  data_bytes = some bytes;
}

-- `set_sequence(seqno_++)`, and the body.
unfoldable pub write_up : (ℕ → CsMsg) → ClientProtocol → ClientProtocol
write_up body c = record c { up_msg = body c.seqno; seqno = add64 c.seqno 1 }

-- A step that went well leads to the next state.
unfoldable pub then_state : ClientState → ℤ × ClientProtocol → Coded
then_state state (r, c) =
    done (if eqb_ℤ r normal then (success, record c { session_state = state }) else (r, c))

-- The packet is taken away. An error that the peer reports is returned as -1.
unfoldable pub pop_down : ClientProtocol → Coded
pop_down c = Socket.pop_from_recv_q c.tcp_sock >>= λ (r, sock).
    let c' = record c { tcp_sock = sock } in
    done (
      if eqb_ℤ r assert_failed
      then (r, c')
      else if c'.down_msg.bodyid == cs_error
      then (failure, c')
      else (success, c'))

unfoldable pub take_key : ℤ × ClientProtocol → Coded
unfolding bytes_of
take_key (r, c) = done (
    if eqb_ℤ r success
    then (if c.down_msg.bodyid == cs_synack
        then (success, record c { encrypt_skey = bytes_of c.down_msg.secretkey })
        else (failure, c))
    else (r, c))

-- What the two last steps do with a message, or with its absence.
unfoldable pub take_step : ℕ → (ClientProtocol → ClientProtocol) → ℤ × ClientProtocol → Coded
take_step bodyid next (r, c) = done (
    if eqb_ℤ r success
    then (if c.down_msg.bodyid == bodyid then (success, next c) else (failure, c))
    else if eqb_ℤ r connector_err_no_more_pkg
    then (success, c)
    else (r, c))

unfoldable pub passport_of : Option ℕ → ℕ
passport_of none = 0
passport_of (some p) = p

unfoldable pub take_passport : ClientProtocol → ClientProtocol
unfolding passport_of
take_passport c = record c {
  passport = passport_of c.down_msg.passport;
  session_state = session_state_ready;
}

unfoldable pub take_start : ClientProtocol → ClientProtocol
take_start c = record c { session_state = session_state_done }

module _ (codec : Codec) where
  unfoldable pub serialize_and_send_to_peer : Answers → ClientProtocol → Coded
  unfolding if_pushed
  serialize_and_send_to_peer a c =
      Socket.pushv_to_send_q a.now (iov_of (codec.cs_bytes c.up_msg)) c.tcp_sock
      >>= if_pushed a.send_answer c

  -- `ParseFromArray` of a packet without its length field; a packet that is shorter than the field
  -- is parsed from a place behind its end.
  unfoldable pub parse_down : Option (List ℕ) → Run CsMsg
  parse_down none = fault
  parse_down (some packet) =
      if ltb (length packet) 4 then fault else done (codec.parse_cs (drop 4 packet))

  unfoldable pub peek_down : Answers → ClientProtocol → Coded
  unfolding pop_down
  peek_down a c = Socket.peek_from_recv_q a.now c.tcp_sock >>= λ (r, packet, sock).
      let c' = record c { tcp_sock = sock } in
      if eqb_ℤ r assert_failed
      then done (r, c')
      else parse_down packet >>= (λ m. pop_down (record c' { down_msg = m }))

  unfoldable pub if_new_pkg : Answers → ClientProtocol → Bool × TcpSocketUtil → Coded
  unfolding peek_down
  if_new_pkg a c (has, sock) =
      if has
      then peek_down a (record c { tcp_sock = sock })
      else done (connector_err_no_more_pkg, record c { tcp_sock = sock })

  unfoldable pub try_to_recv_from_peer_and_parse : Answers → ClientProtocol → Coded
  unfolding if_new_pkg
  try_to_recv_from_peer_and_parse a c = Socket.recv a.recv_answer c.tcp_sock >>= λ (r, got, sock).
      if eqb_ℤ r normal
      then Socket.has_new_pkg sock >>= if_new_pkg a c
      else done (r, record c { tcp_sock = sock })

  unfoldable pub handshake_syn : Answers → ClientProtocol → Coded
  unfolding then_state write_up
  handshake_syn a c =
      serialize_and_send_to_peer a (write_up (syn_up c.appid c.openid) c)
      >>= then_state session_state_key_syning

  unfoldable pub handshake_try_ack : Answers → ClientProtocol → Coded
  unfolding take_key
  handshake_try_ack a c = try_to_recv_from_peer_and_parse a c >>= take_key

  unfoldable pub handshake_auth : Answers → ClientProtocol → Coded
  unfolding then_state write_up
  handshake_auth a c =
      serialize_and_send_to_peer a (write_up (auth_up c.token) c)
      >>= then_state session_state_authing

  unfoldable pub handshake_try_ready : Answers → ClientProtocol → Coded
  unfolding take_step take_passport
  handshake_try_ready a c =
      try_to_recv_from_peer_and_parse a c >>= take_step cs_passport take_passport

  unfoldable pub handshake_try_done : Answers → ClientProtocol → Coded
  unfolding take_step take_start
  handshake_try_done a c = try_to_recv_from_peer_and_parse a c >>= take_step cs_start_app take_start
