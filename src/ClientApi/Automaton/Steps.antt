-- ===== src/ClientApi/Automaton/Steps.antt =====
-- The steps of `Update` as steps of the automaton, each on its own.
use rapidapp.Base.{
  ◌⊎◌, ◌≢◌, inl, inr, Bool-cases, ltb_ℤ, pos, if_case, if_case_eq, ℕ, ◌≡◌, refl, sym, ap, ◌∙◌, true,
  false, List, ℤ, success, failure, arith, eqb_ℤ, ◌==◌,
}
use rapidapp.Base.Run.{done, Ensures, Ensures-bind, Ensures-with}
use rapidapp.Socket.{TcpSocketUtil, normal, peer_closed}
use rapidapp.Socket
use rapidapp.Connector.State.{Codec, CsMsg, cs_synack, cs_passport, cs_start_app, bytes_of}
use rapidapp.Connector.Steps.{==→≡}
use rapidapp.ClientApi.State.{
  session_state_inited, session_state_tcp_syning, session_state_key_syning, session_state_authing,
  session_state_ready, ClientProtocol, Answers, connector_err_no_more_pkg,
}
use rapidapp.ClientApi.Protocol.{
  connect, serialize_and_send_to_peer, try_to_recv_from_peer_and_parse, then_state, handshake_syn,
  handshake_auth, handshake_try_ready, handshake_try_done, take_key, take_step, take_passport,
  take_start, write_up, syn_up, auth_up,
}
use rapidapp.ClientApi.Reasons.{
  Stands, Unread, Stall, not_dialled, syn_unsent, auth_unsent, no_passport, no_start, Edge, stays,
  dials, greets, takes_key, takes_passport, takes_start,
}
use rapidapp.ClientApi.Moves.{Kept, KeptAll, serialize-KeepsAll, receive-Keeps}

module _ (codec : Codec) (a : Answers) where
  abbrev pub Goes : ClientProtocol → ℤ × ClientProtocol → Type 0
  Goes c (r, c') = Edge codec a c c'

  -- The key is read only from a message that the peer has sent.
  pub record KeyRead (c c' : ClientProtocol) : Type 0 where
    code : ℤ
    read : ClientProtocol
    reads : try_to_recv_from_peer_and_parse codec a c ≡ done (code, read)
    same_state : read.session_state ≡ c.session_state
    is_synack : read.down_msg.bodyid ≡ cs_synack
    with_key : c' ≡ record read { encrypt_skey = bytes_of read.down_msg.secretkey }

  abbrev pub Acked : ClientProtocol → ℤ × ClientProtocol → Type 0
  Acked c (r, c') =
      ((eqb_ℤ r success ≡ true) × KeyRead c c')
      ⊎ ((eqb_ℤ r success ≡ false)
          × (c'.session_state ≡ c.session_state)
          × Unread codec a cs_synack c)

  -- What reading gives, and that it was read.
  abbrev pub Received : ClientProtocol → ℤ × ClientProtocol → Type 0
  Received c p = Kept c p.1 × (try_to_recv_from_peer_and_parse codec a c ≡ done p)

  pub receives :
      (c : ClientProtocol) → Ensures (Received c) (try_to_recv_from_peer_and_parse codec a c)
  receives c =
      Ensures-with (λ (p : ℤ × ClientProtocol). Kept c p.1)
        (try_to_recv_from_peer_and_parse codec a c) (receive-Keeps codec a c)

  differs : (m n : ℕ) → (m == n) ≡ false → m ≢ n
  differs m n q e = ground arith

  failed : eqb_ℤ failure success ≡ false
  failed = refl

  pub take_key-Acked :
      (c : ClientProtocol) (p : ℤ × ClientProtocol) → Received c p → Ensures (Acked c) (take_key p)
  unfolding take_key
  take_key-Acked c (r, d) (k, e) =
      if_case_eq (Acked c) (eqb_ℤ r success) _ (r, d)
        (λ ok.
          if_case_eq (Acked c) (d.down_msg.bodyid == cs_synack)
            (success, record d { encrypt_skey = bytes_of d.down_msg.secretkey }) (failure, d)
            (λ q. inl (
              refl,
              record {
                code = r;
                read = d;
                reads = e;
                same_state = k.0;
                is_synack = ==→≡ d.down_msg.bodyid cs_synack q;
                with_key = refl;
              },
            ))
            (λ q. inr (failed, k.0, (r, d, e, inr (differs d.down_msg.bodyid cs_synack q)))))
        (λ no. inr (no, k.0, (r, d, e, inl no)))

  take_step_moves :
      (bodyid : ℕ) (next : ClientProtocol → ClientProtocol) (c : ClientProtocol)
      (p : ℤ × ClientProtocol)
      → Received c p
      → ((c' : ClientProtocol) → c'.down_msg.bodyid ≡ bodyid → Edge codec a c (next c'))
      → (Unread codec a bodyid c → Stall codec a c)
      → Ensures (Goes c) (take_step bodyid next p)
  unfolding take_step
  take_step_moves bodyid next c (r, d) (k, e) goes waits =
      if_case_eq (Goes c) (eqb_ℤ r success) _ _
        (λ _.
          if_case_eq (Goes c) (d.down_msg.bodyid == bodyid) _ _
            (λ q. goes d (==→≡ d.down_msg.bodyid bodyid q))
            (λ q. stays k.0 (waits (r, d, e, inr (differs d.down_msg.bodyid bodyid q)))))
        (λ no.
          let stalled : Stall codec a c = waits (r, d, e, inl no) in
          if_case (Goes c) (eqb_ℤ r connector_err_no_more_pkg) _ _ (stays k.0 stalled)
            (stays k.0 stalled))

  pub connect_moves :
      (uri : List ℕ) (c : ClientProtocol)
      → c.session_state ≡ session_state_inited
      → Ensures (Goes c) (connect a.opened uri c)
  unfolding connect Socket.connect_nonblock
  connect_moves uri c f =
      if_case (Ensures (Goes c)) c.protocol_event_listener _ _
        (elim (Bool-cases (ltb_ℤ a.opened (pos 0))) [
          | inl fails ↦ rw fails (stays refl (not_dialled f (λ d. absurd (clash (sym fails ∙ d)))))
          | inr opens ↦ rw opens (dials f refl opens)
        ])
        tt
    where
      clash : true ≡ false → ⊥
      clash e = cc

  -- A message that is sent, or is not.
  sends :
      (d : ClientProtocol)
      → Ensures
          (λ (q : ℤ × ClientProtocol).
            KeptAll d q.1 × (serialize_and_send_to_peer codec a d ≡ done q))
          (serialize_and_send_to_peer codec a d)
  sends d =
      Ensures-with (λ (q : ℤ × ClientProtocol). KeptAll d q.1)
        (serialize_and_send_to_peer codec a d) (serialize-KeepsAll codec a d)

  pub syn_moves :
      (c : ClientProtocol)
      → c.session_state ≡ session_state_tcp_syning
      → Stands a c.tcp_sock
      → let sock = (Socket.check_nonblock a.checked c.tcp_sock).1 in
        Ensures (Goes c) (handshake_syn codec a (record c { tcp_sock = sock }))
  unfolding handshake_syn then_state write_up syn_up
  syn_moves c f s =
      let d =
        write_up (syn_up c.appid c.openid)
          (record c { tcp_sock = (Socket.check_nonblock a.checked c.tcp_sock).1 }) in
      Ensures-bind
        (λ (q : ℤ × ClientProtocol).
          KeptAll d q.1 × (serialize_and_send_to_peer codec a d ≡ done q))
        (Goes c) (serialize_and_send_to_peer codec a d) _ (sends d)
        (λ (r, c') (k, e).
          if_case_eq (Goes c) (eqb_ℤ r normal) _ _
            (λ _.
              greets f refl s (ap (λ (m : CsMsg). m.bodyid) k.3) (ap (λ (m : CsMsg). m.syn) k.3))
            (λ no. stays k.0.0 (syn_unsent f (r, c', e, no))))

  pub auth_moves :
      (c c' : ClientProtocol)
      → c.session_state ≡ session_state_key_syning
      → KeyRead c c'
      → Ensures (Goes c) (handshake_auth codec a c')
  unfolding handshake_auth then_state write_up auth_up
  auth_moves c c' f y = rw y.with_key (
      let k0 = record y.read { encrypt_skey = bytes_of y.read.down_msg.secretkey } in
      let d = write_up (auth_up k0.token) k0 in
      Ensures-bind
        (λ (q : ℤ × ClientProtocol).
          KeptAll d q.1 × (serialize_and_send_to_peer codec a d ≡ done q))
        (Goes c) (serialize_and_send_to_peer codec a d) _ (sends d)
        (λ (r, c2) (k, e).
          if_case_eq (Goes c) (eqb_ℤ r normal) _ _
            (λ _.
              takes_key f refl (ap (λ (m : CsMsg). m.bodyid) k.2 ∙ y.is_synack)
                (k.1 ∙ ap (λ (m : CsMsg). bytes_of m.secretkey) (sym k.2))
                (ap (λ (m : CsMsg). m.bodyid) k.3))
            (λ no.
              stays (k.0.0 ∙ y.same_state) (auth_unsent y.code y.read f y.reads (r, c2, e, no)))))

  -- A message of the two last steps.
  pub passport_moves :
      (c : ClientProtocol)
      → c.session_state ≡ session_state_authing
      → Ensures (Goes c) (handshake_try_ready codec a c)
  unfolding handshake_try_ready take_passport
  passport_moves c f =
      Ensures-bind (Received c) (Goes c) (try_to_recv_from_peer_and_parse codec a c) _ (receives c)
        (λ p k.
          take_step_moves cs_passport take_passport c p k (λ c' b. takes_passport f refl b)
            (λ w. no_passport f w))

  pub start_moves :
      (c : ClientProtocol)
      → c.session_state ≡ session_state_ready
      → Ensures (Goes c) (handshake_try_done codec a c)
  unfolding handshake_try_done take_start
  start_moves c f =
      Ensures-bind (Received c) (Goes c) (try_to_recv_from_peer_and_parse codec a c) _ (receives c)
        (λ p k.
          take_step_moves cs_start_app take_start c p k (λ c' b. takes_start f refl b)
            (λ w. no_start f w))
