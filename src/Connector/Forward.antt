-- ===== src/Connector/Forward.antt =====
-- Data between a ready client and the back ends.
use rapidapp.Base.{
  ℕ, ◌%◌, ◌^◌, ◌≡◌, ◌≢◌, refl, ap, Bool, true, false, ◌&&◌, some, List, ◌∷◌, ◌++◌, success, failure,
  arith, ◌==◌,
}
use rapidapp.Base.Run.{done, ◌>>=◌}
use rapidapp.Net.{EasyNet, find, get_handler_by_async_ids}
use rapidapp.Connector.State.{
  Server, ConnectorSession, state_ok, Codec, put_session, ss_data, is_state, cs_data_transparent,
  bytes_of,
}
use rapidapp.Connector.Frame.{get_user_context}
use rapidapp.Connector.Session.{
  forward_up_side_message, forward_down_side_message, send_data_to_back_end, log_back_net,
  up_data_msg, down_msg, take_back_end,
}
use rapidapp.Connector.Sends.{
  Established, AllWork, framed, marked, sent_on, send_to_back_end-works, send_to_front_end-works,
}
use rapidapp.Connector.Clients.{
  Client, Expected, put_session-Client, get_net_ids-Client, sent-sent_on,
}
use rapidapp.Connector.Steps.{NeverEmpty, recv-checks, async_ids}
use rapidapp.Connector.{on_recv_front_end, checked, on_recv_back_end, to_session, back_end_data}

module _ (codec : Codec) (filled : NeverEmpty codec) where
  up-works :
      (s : Server) (net c fd back bfd : ℕ) (n nb : EasyNet) (x : ConnectorSession) (sequence : ℕ)
      (bytes : List ℕ)
      → Client s net c fd n x
      → AllWork s
      → (take_back_end s.back_ends).0 ≡ some back
      → Established s back bfd nb
      → (s' : Server) × (forward_up_side_message codec c sequence bytes s ≡ done (success, s'))
        × (s'.sent
            ≡ s.sent
              ++ framed bfd
                  (codec.ss_bytes (up_data_msg sequence (fd % 2 ^ 32, n.nid) x.sid bytes)))
        × (s'.heap.contexts ≡ s.heap.contexts)
        × (s'.frontends ≡ s.frontends)
  unfolding forward_up_side_message send_data_to_back_end log_back_net
  up-works s net c fd back bfd n nb x sequence bytes k w turn e =
      let msg = codec.ss_bytes (up_data_msg sequence (fd % 2 ^ 32, n.nid) x.sid bytes) in
      let s1 = record s { back_ends = (take_back_end s.back_ends).1 } in
      let e1 : Established s1 back bfd nb = record {
        alive = e.alive;
        socket = e.socket;
        state = e.state;
      } in
      (
        marked back nb (sent_on bfd msg s1),
        rw (
          k.session,
          k.frame,
          get_net_ids-Client s net c fd n x k,
          turn,
          send_to_back_end-works s1 back bfd nb msg e1 w (filled.1 _),
        ),
        sent-sent_on s bfd msg,
        refl,
        refl,
      )

  -- A data message of a ready client that is due goes, whole and alone, to the back end whose turn
  -- it is, with the client's socket, connection number and session number, its own sequence and
  -- its bytes. This supposes that the writes work and that the back end's connection is up.
  pub forwards_up :
      (s : Server) (net c fd back bfd : ℕ) (n nb : EasyNet) (x : ConnectorSession) (msg : List ℕ)
      → Client s net c fd n x
      → AllWork s
      → x.state ≡ state_ok
      → Expected x (codec.parse_cs msg)
      → (codec.parse_cs msg).bodyid ≡ cs_data_transparent
      → (take_back_end s.back_ends).0 ≡ some back
      → Established s back bfd nb
      → (s' : Server) × (on_recv_front_end codec net msg s ≡ done (some success, s'))
        × (s'.sent
            ≡ s.sent
              ++ framed bfd (
                  codec.ss_bytes (
                    up_data_msg
                      (codec.parse_cs msg).sequence
                      (fd % 2 ^ 32, n.nid)
                      x.sid
                      (bytes_of (codec.parse_cs msg).data_bytes))))
  unfolding checked put_session
  forwards_up s net c fd back bfd n nb x msg k w st ok body turn e =
      let m = codec.parse_cs msg in
      let x1 = record x { last_seq = m.sequence } in
      let s1 = put_session c x1 s in
      let k1 = put_session-Client s net c fd n x x1 k k.stub k.frame in
      let (s', run, out, _, _) =
        up-works s1 net c fd back bfd n nb x1 m.sequence (bytes_of m.data_bytes) k1 w turn
          (record { alive = e.alive; socket = e.socket; state = e.state }) in
      (
        s',
        rw (
          recv-checks codec filled s net c fd n x msg k ok,
          k1.session,
          ◌>>=◌,
          ap (is_state state_ok) st,
          is_data m.bodyid body,
          run,
        ),
        out,
      )
    where
      is_data : (b : ℕ) → b ≡ cs_data_transparent → (b == cs_data_transparent) ≡ true
      is_data b h = ground arith

  -- A data message of a back end that names a ready client by socket, connection number and
  -- session number, and has bytes, goes, whole and alone, to that client's socket, if the writes
  -- work.
  pub forwards_down :
      (s : Server) (net c fd : ℕ) (n : EasyNet) (x : ConnectorSession) (msg : List ℕ) (b : ℕ)
      (bs : List ℕ)
      → Client s net c fd n x
      → AllWork s
      → x.state ≡ state_ok
      → find (codec.parse_ss msg).fd s.frontends.handler_pool ≡ some net
      → (codec.parse_ss msg).nid ≡ n.nid
      → (codec.parse_ss msg).sid ≡ x.sid
      → (codec.parse_ss msg).bodyid ≡ ss_data
      → bytes_of (codec.parse_ss msg).data_bytes ≡ b ∷ bs
      → on_recv_back_end codec msg s
        ≡ done (
          success,
          sent_on fd (codec.cs_bytes (down_msg (codec.parse_ss msg).sequence (b ∷ bs))) s,
        )
  unfolding on_recv_back_end get_user_context to_session back_end_data forward_down_side_message
  forwards_down s net c fd n x msg b bs k w st found nid sid body bytes = rw (
    async_ids (codec.parse_ss msg).fd (codec.parse_ss msg).nid s net n found k.established.alive
        nid,
    k.established.alive,
    k.context,
    k.session,
    ◌>>=◌,
    is_data (codec.parse_ss msg).bodyid body,
    back_end_data,
    ready (is_state state_ok x.state) (ap (is_state state_ok) st) (codec.parse_ss msg).sid x.sid
        sid,
    bytes,
    k.session,
    k.frame,
    k.stub,
    send_to_front_end-works s net fd n
        (codec.cs_bytes (down_msg (codec.parse_ss msg).sequence (b ∷ bs))) k.established w
        (filled.0 _),
  )
    where
      is_data : (b : ℕ) → b ≡ ss_data → (b == ss_data) ≡ true
      is_data b h = ground arith

      ready : (r : Bool) → r ≡ true → (a b : ℕ) → a ≡ b → (r && (b == a)) ≡ true
      ready r h a b e = ground arith

  -- A message of a back end whose connection number is not that of the connection on its socket
  -- changes nothing: the socket has been given to another client since.
  pub stale_is_dropped :
      (s : Server) (net : ℕ) (n : EasyNet) (msg : List ℕ)
      → find (codec.parse_ss msg).fd s.frontends.handler_pool ≡ some net
      → s.heap.nets net ≡ some n
      → (codec.parse_ss msg).nid ≢ n.nid
      → on_recv_back_end codec msg s ≡ done (failure, s)
  unfolding on_recv_back_end get_handler_by_async_ids
  stale_is_dropped s net n msg found alive stale =
      rw (get_handler_by_async_ids, found, alive, ◌>>=◌, other (codec.parse_ss msg).nid n.nid stale)
    where
      other : (a b : ℕ) → a ≢ b → (a == b) ≡ false
      other a b h = ground arith
