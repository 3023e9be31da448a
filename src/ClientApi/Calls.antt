-- ===== src/ClientApi/Calls.antt =====
-- The calls of `ConnectorClientProtocolImp` that its user makes once it is started: `Update`,
-- `PushMessage`, `PeekMessage` and `PopMessage`.
use rapidapp.Base.{
  ℕ, Bool, true, false, not, ◌&&◌, Option, none, some, List, [], ◌∷◌, ℤ, pos, success, failure,
  eqb_ℤ, ◌==◌, if◌then◌else◌,
}
use rapidapp.Base.Run.{Run, done, ◌>>=◌}
use rapidapp.Socket.{TcpSocketUtil, NetState, normal, peer_closed, assert_failed, net_connected}
use rapidapp.Socket
use rapidapp.Connector.State.{Codec, cs_data_transparent, bytes_of}
use rapidapp.ClientApi.State.{
  ClientState, session_state_inited, session_state_tcp_syning, session_state_key_syning,
  session_state_authing, session_state_ready, session_state_done, session_state_fini, is_done,
  connector_err_no_more_pkg, on_handshake_succeed, on_handshake_failed, on_server_close,
  on_incoming, ClientProtocol, tell, Answers,
}
use rapidapp.ClientApi.Protocol.{
  Coded, connect, handshake_syn, handshake_try_ack, handshake_auth, handshake_try_ready,
  handshake_try_done, serialize_and_send_to_peer, write_up, data_up, parse_down,
}

unfoldable pub is_connected : NetState → Bool
is_connected net_connected = true
is_connected _ = false

-- The code, the counter `busy`, the static `handshake_done`, which all clients of a process share,
-- and the client.
abbrev pub Updated : Type 0
Updated = Run (ℤ × ℕ × Bool × ClientProtocol)

-- Beside a counter and the unchanged static.
abbrev pub counted : ℕ → Bool → Coded → Updated
counted busy handshake_done m = m >>= λ (r, c). done (r, busy, handshake_done, c)

unfoldable pub told_incoming : ClientProtocol → Bool × TcpSocketUtil → Updated
unfolding tell
told_incoming c (has, sock) =
    let c' = record c { tcp_sock = sock } in
    done (if has then (normal, 1, true, tell on_incoming c') else (normal, 0, true, c'))

unfoldable pub check_incoming : Answers → ClientProtocol → Updated
unfolding told_incoming
check_incoming a c = Socket.recv a.recv_answer c.tcp_sock >>= λ (r, got, sock).
    if eqb_ℤ r normal
    then Socket.has_new_pkg sock >>= told_incoming c
    else done (r, 0, true, record c { tcp_sock = sock })

-- What `Update` does after its `switch`.
unfoldable pub report : ℤ × ℕ × Bool × ClientProtocol → Run (ℤ × Bool × ClientProtocol)
unfolding tell
report (r, busy, hd, c) = done (
    if eqb_ℤ r normal
    then (pos busy, hd, c)
    else if not (is_done c.session_state)
    then (failure, hd, tell on_handshake_failed c)
    else if eqb_ℤ r peer_closed
    then (failure, hd, tell on_server_close c)
    else (pos busy, hd, c))

-- The bytes that `*buf_ptr` and `*buflen_ptr` are set to stand in the middle.
abbrev pub Peeked : Type 0
Peeked = Run (ℤ × Option (List ℕ) × ClientProtocol)

unfoldable pub show_data : ClientProtocol → Peeked
unfolding bytes_of
show_data c = done (
    if c.down_msg.bodyid == cs_data_transparent
    then (success, some (bytes_of c.down_msg.data_bytes), c)
    else (failure, none, c))

unfoldable pub pop_message : ClientProtocol → Coded
pop_message c = Socket.pop_from_recv_q c.tcp_sock >>= λ (r, sock).
    let c' = record c { tcp_sock = sock } in
    done (
      if eqb_ℤ r assert_failed
      then (failure, c')
      else if c'.down_msg.bodyid == cs_data_transparent
      then (success, c')
      else (failure, c'))

module _ (codec : Codec) where
  unfoldable pub if_connected : Answers → Bool → ClientProtocol → ℤ × TcpSocketUtil → Updated
  unfolding is_connected
  if_connected a handshake_done c (r, sock) =
      let c' = record c { tcp_sock = sock } in
      if eqb_ℤ r normal && is_connected sock.socket_state
      then counted 1 handshake_done (handshake_syn codec a c')
      else done (r, 0, handshake_done, c')

  unfoldable pub after_ack : Answers → Bool → ℤ × ClientProtocol → Updated
  after_ack a handshake_done (r, c) =
      if eqb_ℤ r success
      then counted 1 handshake_done (handshake_auth codec a c)
      else if eqb_ℤ r connector_err_no_more_pkg
      then done (success, 0, handshake_done, c)
      else done (r, 0, handshake_done, c)

  -- The `switch`; `none` where it returns from the function.
  unfoldable pub update_in : ClientState → Answers → Bool → ClientProtocol → Option Updated
  unfolding if_connected after_ack check_incoming tell
  update_in session_state_inited a hd c = some (counted 0 hd (connect a.opened c.server_uri c))
  update_in session_state_tcp_syning a hd c =
      some (if_connected a hd c (Socket.check_nonblock a.checked c.tcp_sock))
  update_in session_state_key_syning a hd c = some (handshake_try_ack codec a c >>= after_ack a hd)
  update_in session_state_authing a hd c = some (counted 0 hd (handshake_try_ready codec a c))
  update_in session_state_ready a hd c = some (counted 0 hd (handshake_try_done codec a c))
  update_in session_state_done a false c =
      some (done (success, 1, true, tell on_handshake_succeed c))
  update_in session_state_done a true c = some (check_incoming a c)
  update_in session_state_fini a hd c = none

  unfoldable pub update : Answers → Bool → ClientProtocol → Run (ℤ × Bool × ClientProtocol)
  unfolding update_in report
  update a hd c =
      if c.protocol_event_listener
      then elim (update_in c.session_state a hd c) [
        | none ↦ done (failure, hd, c)
        | some m ↦ m >>= report
      ]
      else done (failure, hd, c)

  -- A null pointer and an empty message are both refused.
  unfoldable pub push_message : Answers → Option (List ℕ) → ClientProtocol → Coded
  unfolding write_up
  push_message a none c = done (failure, c)
  push_message a (some []) c = done (failure, c)
  push_message a (some (b ∷ bs)) c =
      serialize_and_send_to_peer codec a (write_up (data_up (b ∷ bs)) c) >>= λ (r, c').
      done (if eqb_ℤ r success then success else failure, c')

  unfoldable pub peek_packet : Answers → ClientProtocol → Bool × TcpSocketUtil → Peeked
  unfolding show_data
  peek_packet a c (false, sock) =
      done (connector_err_no_more_pkg, none, record c { tcp_sock = sock })
  peek_packet a c (true, sock) = Socket.peek_from_recv_q a.now sock >>= λ (r, packet, sock').
      let c' = record c { tcp_sock = sock' } in
      if eqb_ℤ r assert_failed
      then done (failure, none, c')
      else parse_down codec packet >>= (λ m. show_data (record c' { down_msg = m }))

  -- Both arguments are valid pointers, or `out` is false.
  unfoldable pub peek_message : (out : Bool) → Answers → ClientProtocol → Peeked
  unfolding peek_packet
  peek_message false a c = done (failure, none, c)
  peek_message true a c = Socket.has_new_pkg c.tcp_sock >>= peek_packet a c
