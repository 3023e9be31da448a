-- ===== src/Connector/Handshake.antt =====
-- The handshake: two messages of the client and the answer of a back end take a new session to the
-- state in which it forwards data.
use rapidapp.Base.{
  ℕ, ◌%◌, ◌^◌, ◌≡◌, ◌≢◌, refl, ◌∙◌, ap, false, none, some, List, ◌++◌, success, append_assoc, ◌==◌,
}
use rapidapp.Base.Run.{done, ◌>>=◌}
use rapidapp.Net.{EasyNet, find}
use rapidapp.Connector.State.{
  Server, ConnectorSession, state_init, state_auth, state_syning, state_synack, state_ok, Codec,
  put_session, ss_data, ss_fin, is_state,
}
use rapidapp.Connector.Frame.{get_user_context}
use rapidapp.Connector.Session.{
  drive_in, handle_key_making, handle_auth_request, hand_shake_on_start_acked, key_msg,
  passport_msg, start_msg, syn_msg, take_back_end,
}
use rapidapp.Connector.Sends.{Established, AllWork, framed}
use rapidapp.Connector.Clients.{Client, put_session-Client, Expected}
use rapidapp.Connector.{on_recv_front_end, close_if_failed, on_recv_back_end, to_session}
use rapidapp.Connector.Steps.{
  Reached, NeverEmpty, send_and_step, drive-state, checked-drives, recv-checks, start_session,
  drives-back, not_ignored, async_ids,
}

module _ (codec : Codec) (filled : NeverEmpty codec) where
  -- The first message of a client is answered with the key.
  pub first_message :
      (s : Server) (net c fd : ℕ) (n : EasyNet) (x : ConnectorSession) (msg : List ℕ)
      → Client s net c fd n x
      → AllWork s
      → x.state ≡ state_init
      → Expected x (codec.parse_cs msg)
      → (s' : Server) × (on_recv_front_end codec net msg s ≡ done (none, s'))
        × Reached s s' net c fd n
            (record x { last_seq = (codec.parse_cs msg).sequence; state = state_auth })
            (framed fd (codec.cs_bytes key_msg))
            s.back_ends
  unfolding put_session drive_in handle_key_making
  first_message s net c fd n x msg k w st ok =
      let m = codec.parse_cs msg in
      let x1 = record x { last_seq = m.sequence } in
      let s1 = put_session c x1 s in
      let k1 = put_session-Client s net c fd n x x1 k k.stub k.frame in
      let (s', run, reached) =
        send_and_step codec filled s1 net c fd n x1 key_msg state_auth k1 w in
      (
        s',
        recv-checks codec filled s net c fd n x msg k ok
            ∙ checked-drives codec filled s1 s' net c x1 (record x1 { state = state_auth }) m
                state_init state_auth k1.session st (ap (is_state state_ok) st) run
                (reached.client).session refl,
        record {
          client = reached.client;
          went_out = reached.went_out;
          works = reached.works;
          turns = reached.turns;
          table = reached.table;
          kept = λ b bfd nb e.
              reached.kept b bfd nb
                (record { alive = e.alive; socket = e.socket; state = e.state });
        },
      )

  -- The second message is answered with the passport, and the session starts at a back end at once.
  pub second_message :
      (s : Server) (net c fd back bfd : ℕ) (n nb : EasyNet) (x : ConnectorSession) (msg : List ℕ)
      → Client s net c fd n x
      → AllWork s
      → x.state ≡ state_auth
      → Expected x (codec.parse_cs msg)
      → (take_back_end s.back_ends).0 ≡ some back
      → Established s back bfd nb
      → net ≢ back
      → (s' : Server) × (on_recv_front_end codec net msg s ≡ done (none, s'))
        × Reached s s' net c fd n
            (record x { last_seq = (codec.parse_cs msg).sequence; state = state_synack })
            (framed fd (codec.cs_bytes passport_msg)
              ++ framed bfd (codec.ss_bytes (syn_msg (fd % 2 ^ 32, n.nid) x.sid)))
            (take_back_end s.back_ends).1
  unfolding put_session drive_in handle_auth_request close_if_failed
  second_message s net c fd back bfd n nb x msg k w st ok turn e ne =
      let m = codec.parse_cs msg in
      let x1 = record x { last_seq = m.sequence } in
      let s1 = put_session c x1 s in
      let k1 = put_session-Client s net c fd n x x1 k k.stub k.frame in
      let x2 = record x1 { state = state_syning } in
      let (s2, run, r2) =
        send_and_step codec filled s1 net c fd n x1 passport_msg state_syning k1 w in
      let (nb2, e2) =
        r2.kept back bfd nb (record { alive = e.alive; socket = e.socket; state = e.state }) in
      let (s3, run3, r3) =
        start_session codec filled s2 net c fd back bfd n nb2 x2 r2.client r2.works
          (rw r2.turns turn) e2 ne in
      (
        s3,
        recv-checks codec filled s net c fd n x msg k ok
            ∙ checked-drives codec filled s1 s2 net c x1 x2 m state_auth state_syning k1.session st
                (ap (is_state state_ok) st) run (r2.client).session refl
            ∙ rw (drive-state codec filled s2 c x2 state_syning (r2.client).session refl, run3)
                refl,
        record {
          client = r3.client;
          went_out =
              r3.went_out
              ∙ ap (λ t. t ++ framed bfd (codec.ss_bytes (syn_msg (fd % 2 ^ 32, n.nid) x.sid)))
                  r2.went_out
              ∙ append_assoc s.sent _ _;
          works = r3.works;
          turns = r3.turns ∙ ap (λ b. (take_back_end b).1) r2.turns;
          table = r3.table ∙ r2.table;
          kept = λ b to nb' e'.
              let (na, ea) =
                r2.kept b to nb'
                  (record { alive = e'.alive; socket = e'.socket; state = e'.state }) in
              r3.kept b to na ea;
        },
      )

  -- The back end's answer, addressed by socket and connection number, starts the application at the
  -- client. The session takes the back end's number for it.
  pub back_end_acks :
      (s : Server) (net c fd : ℕ) (n : EasyNet) (x : ConnectorSession) (msg : List ℕ)
      → Client s net c fd n x
      → AllWork s
      → x.state ≡ state_synack
      → find (codec.parse_ss msg).fd s.frontends.handler_pool ≡ some net
      → (codec.parse_ss msg).nid ≡ n.nid
      → ((codec.parse_ss msg).bodyid == ss_data) ≡ false
      → (s' : Server) × (on_recv_back_end codec msg s ≡ done (success, s'))
        × Reached s s' net c fd n
            (record x { sid = (codec.parse_ss msg).sid; state = state_ok })
            (framed fd (codec.cs_bytes start_msg))
            s.back_ends
  unfolding put_session drive_in hand_shake_on_start_acked on_recv_back_end to_session
      get_user_context
  back_end_acks s net c fd n x msg k w st found nid body =
      let m = codec.parse_ss msg in
      let x1 = record x { state = state_ok } in
      let x2 = record x1 { sid = m.sid } in
      let (s1, run, r1) = send_and_step codec filled s net c fd n x start_msg state_ok k w in
      (
        put_session c x2 s1,
        rw
            (
              async_ids m.fd m.nid s net n found k.established.alive nid,
              k.established.alive,
              k.context,
              k.session,
              ◌>>=◌,
              body,
              not_ignored (m.bodyid == ss_fin) x.state st,
            )
            (drives-back codec filled s s1 net c x x1 m state_synack k.session st run
              (r1.client).session),
        record {
          client = put_session-Client s1 net c fd n x1 x2 r1.client k.stub k.frame;
          went_out = r1.went_out;
          works = r1.works;
          turns = r1.turns;
          table = r1.table;
          kept = λ b to nb e.
              let (na, ea) = r1.kept b to nb e in
              (na, record { alive = ea.alive; socket = ea.socket; state = ea.state });
        },
      )

  -- The messages of a handshake as they go out.
  abbrev pub handshake_frames : (fd bfd nid sid : ℕ) → List (ℕ × List ℕ)
  handshake_frames fd bfd nid sid =
      (framed fd (codec.cs_bytes key_msg)
        ++ (framed fd (codec.cs_bytes passport_msg)
            ++ framed bfd (codec.ss_bytes (syn_msg (fd % 2 ^ 32, nid) sid))))
      ++ framed fd (codec.cs_bytes start_msg)

  -- A new session whose client sends two messages in sequence, and whose back end then answers, is
  -- ready. Four messages have gone out, in this order and with nothing between: the key and the
  -- passport to the client, the session's start to the back end, the application's start to the
  -- client. This supposes that the writes work and that the back end's connection is up and not
  -- the client's own.
  pub handshake_completes :
      (s : Server) (net c fd back bfd : ℕ) (n nb : EasyNet) (x : ConnectorSession)
      (hello auth ack : List ℕ)
      → Client s net c fd n x
      → AllWork s
      → x.state ≡ state_init
      → Expected x (codec.parse_cs hello)
      → Expected (record x { last_seq = (codec.parse_cs hello).sequence }) (codec.parse_cs auth)
      → (take_back_end s.back_ends).0 ≡ some back
      → Established s back bfd nb
      → net ≢ back
      → find (codec.parse_ss ack).fd s.frontends.handler_pool ≡ some net
      → (codec.parse_ss ack).nid ≡ n.nid
      → ((codec.parse_ss ack).bodyid == ss_data) ≡ false
      → (s' : Server) × ((on_recv_front_end codec net hello s >>= λ r.
            on_recv_front_end codec net auth r.1 >>= λ r. on_recv_back_end codec ack r.1)
          ≡ done (success, s'))
        × Client s' net c fd n (record x {
          last_seq = (codec.parse_cs auth).sequence;
          state = state_ok;
          sid = (codec.parse_ss ack).sid;
        })
        × (s'.sent ≡ s.sent ++ handshake_frames fd bfd n.nid x.sid)
  handshake_completes s net c fd back bfd n nb x hello auth ack k w st ok ok2 turn e ne found nid
        body =
      let x1 = record x { last_seq = (codec.parse_cs hello).sequence; state = state_auth } in
      let (s1, run1, r1) = first_message s net c fd n x hello k w st ok in
      let (nb1, e1) = r1.kept back bfd nb e in
      let x2 = record x1 { last_seq = (codec.parse_cs auth).sequence; state = state_synack } in
      let (s2, run2, r2) =
        second_message s1 net c fd back bfd n nb1 x1 auth r1.client r1.works refl ok2
          (rw r1.turns turn) e1 ne in
      let (s3, run3, r3) =
        back_end_acks s2 net c fd n x2 ack r2.client r2.works refl (rw (r2.table, r1.table) found)
          nid body in
      (
        s3,
        rw (run1, run2) run3,
        r3.client,
        r3.went_out
            ∙ ap (λ t. t ++ framed fd (codec.cs_bytes start_msg))
                (r2.went_out
                  ∙ ap
                      (λ t.
                        t
                        ++ (framed fd (codec.cs_bytes passport_msg)
                            ++ framed bfd (codec.ss_bytes (syn_msg (fd % 2 ^ 32, n.nid) x.sid))))
                      r1.went_out
                  ∙ append_assoc s.sent _ _)
            ∙ append_assoc s.sent _ _,
      )
