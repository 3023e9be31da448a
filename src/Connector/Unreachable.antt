-- ===== src/Connector/Unreachable.antt =====
-- Handshakes that do not go by the book: a client that does not wait for the back end, and a back end
-- that is not connected yet.
use rapidapp.Base.{
  ℕ, ◌%◌, ◌^◌, ◌≡◌, ◌≢◌, refl, ◌∙◌, ap, none, some, List, [], ◌∷◌, success, failure,
}
use rapidapp.Base.Run.{done, fault}
use rapidapp.Net.{EasyNet, net_connecting}
use rapidapp.Connector.State.{
  Server, ConnectorSession, state_auth, state_syning, state_synack, state_ok, Codec, put_session,
  is_state, BackEndSet,
}
use rapidapp.Connector.Frame.{
  send, send_in, send_to_back_end, mark_active, easy_net_err_not_yet_established,
}
use rapidapp.Connector.Session.{
  drive_in, hand_shake_on_start_acked, handle_auth_request, hand_shake_start_session,
  start_to_back_end, log_net_stub, then_state, take_back_end, start_msg, passport_msg, syn_msg,
}
use rapidapp.Connector.Sends.{AllWork, framed, sent_on}
use rapidapp.Connector.Clients.{
  Client, Expected, put_session-Client, get_net_ids-Client, sent_on-Client,
  serialize_and_send-works, then_state-works,
}
use rapidapp.Connector.Steps.{
  NeverEmpty, Reached, send_and_step, recv-checks, checked-drives, drive-state,
}
use rapidapp.Connector.Dangling.{InTable, destroy-frees}
use rapidapp.Connector.{on_recv_front_end, close_if_failed, front_end_round}

connecting_refuses :
    (s : Server) (back bfd : ℕ) (nb : EasyNet) (bytes : List ℕ)
    → s.heap.nets back ≡ some nb
    → nb.hevent ≡ some bfd
    → nb.state ≡ net_connecting
    → bytes ≢ []
    → send_to_back_end (some back) bytes s ≡ done (easy_net_err_not_yet_established, s)
unfolding send_to_back_end send send_in mark_active
connecting_refuses s back bfd nb [] alive socket state ne = absurd (ne refl)
connecting_refuses s back bfd nb (b ∷ bs) alive socket state ne = rw (alive, socket, state)

turned-Client :
    (s : Server) (net c fd : ℕ) (n : EasyNet) (x : ConnectorSession) (ends : BackEndSet)
    → Client s net c fd n x
    → Client (record s { back_ends = ends }) net c fd n x
turned-Client s net c fd n x ends k = record {
  established = record {
    alive = k.established.alive;
    socket = k.established.socket;
    state = k.established.state;
  };
  context = k.context;
  session = k.session;
  stub = k.stub;
  frame = k.frame;
}

module _ (codec : Codec) (filled : NeverEmpty codec) where
  -- While the session waits for the back end, a message of the client that is due, of whatever
  -- kind, makes it ready, if the writes work: the back end has not answered, and has given it no
  -- number.
  pub ready_without_back_end :
      (s : Server) (net c fd : ℕ) (n : EasyNet) (x : ConnectorSession) (msg : List ℕ)
      → Client s net c fd n x
      → AllWork s
      → x.state ≡ state_synack
      → Expected x (codec.parse_cs msg)
      → (s' : Server) × (on_recv_front_end codec net msg s ≡ done (none, s'))
        × Reached s s' net c fd n
            (record x { last_seq = (codec.parse_cs msg).sequence; state = state_ok })
            (framed fd (codec.cs_bytes start_msg))
            s.back_ends
  unfolding put_session drive_in hand_shake_on_start_acked
  ready_without_back_end s net c fd n x msg k w st ok =
      let m = codec.parse_cs msg in
      let x1 = record x { last_seq = m.sequence } in
      let s1 = put_session c x1 s in
      let k1 = put_session-Client s net c fd n x x1 k k.stub k.frame in
      let (s', run, r) = send_and_step codec filled s1 net c fd n x1 start_msg state_ok k1 w in
      (
        s',
        recv-checks codec filled s net c fd n x msg k ok
            ∙ checked-drives codec filled s1 s' net c x1 (record x1 { state = state_ok }) m
                state_synack state_ok k1.session st (ap (is_state state_ok) st) run
                (r.client).session refl,
        record {
          client = r.client;
          went_out = r.went_out;
          works = r.works;
          turns = r.turns;
          table = r.table;
          kept = λ b to nb e.
              r.kept b to nb (record { alive = e.alive; socket = e.socket; state = e.state });
        },
      )

  -- A back end that is still being connected refuses the session's start.
  start_to_back_end-fails :
      (s : Server) (net c fd back bfd : ℕ) (n nb : EasyNet) (x : ConnectorSession)
      → Client s net c fd n x
      → s.heap.nets back ≡ some nb
      → nb.hevent ≡ some bfd
      → nb.state ≡ net_connecting
      → start_to_back_end codec c (some back) s ≡ done (failure, s)
  unfolding start_to_back_end log_net_stub
  start_to_back_end-fails s net c fd back bfd n nb x k alive socket state = rw (
    k.session,
    k.frame,
    get_net_ids-Client s net c fd n x k,
    connecting_refuses s back bfd nb (codec.ss_bytes (syn_msg (fd % 2 ^ 32, n.nid) x.sid)) alive
        socket state (filled.1 (syn_msg (fd % 2 ^ 32, n.nid) x.sid)),
    k.stub,
    k.established.alive,
  )

  start_session-fails :
      (s : Server) (net c fd back bfd : ℕ) (n nb : EasyNet) (x : ConnectorSession)
      → Client s net c fd n x
      → (take_back_end s.back_ends).0 ≡ some back
      → s.heap.nets back ≡ some nb
      → nb.hevent ≡ some bfd
      → nb.state ≡ net_connecting
      → hand_shake_start_session codec c s
        ≡ done (failure, record s { back_ends = (take_back_end s.back_ends).1 })
  unfolding hand_shake_start_session then_state
  start_session-fails s net c fd back bfd n nb x k turn alive socket state =
      let s1 = record s { back_ends = (take_back_end s.back_ends).1 } in
      rw (
        turn,
        start_to_back_end-fails s1 net c fd back bfd n nb x
            (turned-Client s net c fd n x (take_back_end s.back_ends).1 k) alive socket state,
      )

  -- A client whose second message meets a back end that is still being connected is closed while
  -- its message is handled. The loop over its messages then counts on the connection that is gone.
  -- This supposes that the connection is in the table, the walk's cursor valid, and that the
  -- writes work.
  pub closed_connection_is_counted :
      (s : Server) (net c fd back bfd : ℕ) (n nb : EasyNet) (x : ConnectorSession) (msg : List ℕ)
      → Client s net c fd n x
      → InTable s net fd
      → AllWork s
      → x.state ≡ state_auth
      → Expected x (codec.parse_cs msg)
      → (take_back_end s.back_ends).0 ≡ some back
      → s.heap.nets back ≡ some nb
      → nb.hevent ≡ some bfd
      → nb.state ≡ net_connecting
      → front_end_round codec net msg s ≡ fault
  unfolding front_end_round put_session drive_in handle_auth_request close_if_failed
  closed_connection_is_counted s net c fd back bfd n nb x msg k t w st ok turn alive socket state =
      let m = codec.parse_cs msg in
      let x1 = record x { last_seq = m.sequence } in
      let s1 = put_session c x1 s in
      let k1 = put_session-Client s net c fd n x x1 k k.stub k.frame in
      let bytes = codec.cs_bytes passport_msg in
      let x2 = record x1 { state = state_syning } in
      let s2 = put_session c x2 (sent_on fd bytes s1) in
      let k2' = sent_on-Client s1 net c fd n x1 fd bytes k1 in
      let k2 = put_session-Client (sent_on fd bytes s1) net c fd n x1 x2 k2' k.stub k.frame in
      let run : (drive_in codec state_auth c s1 ≡ done (success, s2)) =
        rw
          (serialize_and_send-works codec s1 net c fd n x1 passport_msg k1 w
            (filled.0 passport_msg))
          (then_state-works (sent_on fd bytes s1) net c fd n x1 state_syning k2') in
      let ends = (take_back_end s.back_ends).1 in
      let s3 = record s2 { back_ends = ends } in
      let t3 : InTable s3 net fd = record { found = t.found; cursor = t.cursor } in
      let (s4, run4, gone, _, _) =
        destroy-frees s3 net c fd n x2 (turned-Client s2 net c fd n x2 ends k2) t3 in
      let received : (on_recv_front_end codec net msg s ≡ done (some failure, s4)) =
        recv-checks codec filled s net c fd n x msg k ok
        ∙ checked-drives codec filled s1 s2 net c x1 x2 m state_auth state_syning k1.session st
            (ap (is_state state_ok) st) run k2.session refl
        ∙ rw (
          drive-state codec filled s2 c x2 state_syning k2.session refl,
          start_session-fails s2 net c fd back bfd n nb x2 k2 turn alive socket state,
          run4,
        ) in
      rw (received, gone)
