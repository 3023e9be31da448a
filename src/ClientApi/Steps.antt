-- ===== src/ClientApi/Steps.antt =====
-- The four calls of `Update` that take a client through the handshake.
use rapidapp.Base.{
  ℕ, ◌+◌, ◌≤◌, ◌<◌, ◌≡◌, ◌≢◌, refl, sym, ◌∙◌, ap, Bool, true, false, some, List, ◌++◌, length, ℤ,
  pos, arith, ◌==◌, ltb_ℤ, add64,
}
use rapidapp.Base.Run.{done, ◌>>=◌}
use rapidapp.Wire.{frame}
use rapidapp.Socket.{sent, received, TcpSocketUtil, net_connected, normal, check_nonblock}
use rapidapp.Socket.Online.{Online, size}
use rapidapp.Connector.State.{
  Codec, CsMsg, cs_error, cs_synack, cs_passport, cs_start_app, bytes_of,
}
use rapidapp.ClientApi.State.{
  ClientState, session_state_tcp_syning, session_state_key_syning, session_state_authing,
  session_state_ready, session_state_done, ClientProtocol, Answers,
}
use rapidapp.ClientApi.Protocol.{
  handshake_syn, handshake_auth, handshake_try_ack, handshake_try_ready, handshake_try_done,
  then_state, write_up, syn_up, auth_up, take_key, take_step, take_passport, take_start,
  passport_of,
}
use rapidapp.ClientApi.Calls.{
  Updated, update, update_in, report, if_connected, after_ack, is_connected,
}
use rapidapp.ClientApi.Exchange.{says, hears}

-- The client after a message of its own.
abbrev pub said : Codec → (ℕ → CsMsg) → ClientProtocol → TcpSocketUtil → ClientProtocol
said codec body c sock = record c {
  up_msg = body c.seqno;
  seqno = add64 c.seqno 1;
  tcp_sock = sock;
  wire = c.wire ++ frame (codec.cs_bytes (body c.seqno));
}

-- The client after a message to it.
abbrev pub heard : Codec → List ℕ → ClientProtocol → TcpSocketUtil → ClientProtocol
heard codec m c sock = record c { tcp_sock = sock; down_msg = codec.parse_cs m }

-- Ready for the next call: a listener is set, and nothing waits in the buffers.
pub record At (c : ClientProtocol) (state : ClientState) (used : ℕ) : Type 0 where
  pub listens : c.protocol_event_listener ≡ true
  pub in_state : c.session_state ≡ state
  pub online : Online c.tcp_sock used

-- The system takes the whole message.
abbrev pub Takes : Codec → Answers → CsMsg → Type 0
Takes codec a m =
    (length (codec.cs_bytes m) + 4 ≤ size) × (a.send_answer ≡ sent (length (codec.cs_bytes m) + 4))

-- The system gives one whole message of this kind, for which there is room.
abbrev pub Gives : Codec → Answers → ℕ → List ℕ → ℕ → Type 0
Gives codec a used m bodyid =
    (0 < length m)
    × (used + (length m + 4) ≤ size)
    × (a.recv_answer ≡ received (frame m))
    × ((codec.parse_cs m).bodyid ≡ bodyid)

pub update-in :
    (codec : Codec) (a : Answers) (hd : Bool) (c : ClientProtocol) (state : ClientState)
    (m : Updated)
    → c.protocol_event_listener ≡ true
    → c.session_state ≡ state
    → update_in codec state a hd c ≡ some m
    → update codec a hd c ≡ (m >>= report)
unfolding update
update-in codec a hd c state m l st e =
    let e' = ap (λ t. update_in codec t a hd c) st ∙ e in ground (arith, l, e')

check-works :
    (checked : ℤ) (sock : TcpSocketUtil)
    → ltb_ℤ sock.fd (pos 0) ≡ false
    → checked ≡ pos 0
    → check_nonblock checked sock ≡ (normal, record sock { socket_state = net_connected })
unfolding check_nonblock
check-works checked sock h e = ground arith

same_body : (a b : ℕ) → a ≡ b → (a == b) ≡ true
same_body a b h = ground arith

other_body : (a b c : ℕ) → a ≡ b → b ≢ c → a ≢ c
other_body a b c h k e = k (sym h ∙ e)

module _ (codec : Codec) (a : Answers) (hd : Bool) (c : ClientProtocol) (used : ℕ) where
  -- A connection that is up: the first message goes out.
  pub connects :
      c.protocol_event_listener ≡ true
      → c.session_state ≡ session_state_tcp_syning
      → ltb_ℤ c.tcp_sock.fd (pos 0) ≡ false
      → a.checked ≡ pos 0
      → Online (record c.tcp_sock { socket_state = net_connected }) used
      → Takes codec a (syn_up c.appid c.openid c.seqno)
      → (sock : TcpSocketUtil) × (update codec a hd c
          ≡ done (
            pos 1,
            hd,
            record (said codec (syn_up c.appid c.openid) c sock) {
              session_state = session_state_key_syning;
            },
          ))
        × Online sock used
  unfolding if_connected is_connected handshake_syn then_state write_up update_in report
  connects l st fd ch o (h, e) =
      let up = record (write_up (syn_up c.appid c.openid) c) {
        tcp_sock = record c.tcp_sock { socket_state = net_connected };
      } in
      let (sock, run, o') = says codec a up used o h e in
      (
        sock,
        update-in codec a hd c session_state_tcp_syning _ l st (
              ap (λ r. some (if_connected codec a hd c r)) (check-works a.checked c.tcp_sock fd ch))
            ∙ rw run refl,
        o',
      )

  -- The key has arrived: it is kept, and the second message goes out.
  pub gets_key :
      (m : List ℕ)
      → At c session_state_key_syning used
      → Gives codec a used m cs_synack
      → Takes codec a (auth_up c.token c.seqno)
      → (sock : TcpSocketUtil) × (update codec a hd c
          ≡ done (
            pos 1,
            hd,
            record (said codec (auth_up c.token) (heard codec m c sock) sock) {
              encrypt_skey = bytes_of (codec.parse_cs m).secretkey;
              session_state = session_state_authing;
            },
          ))
        × Online sock (used + (length m + 4))
  unfolding update_in handshake_try_ack take_key after_ack handshake_auth then_state write_up report
  gets_key m at (h, k, e, body) (small, e') =
      let (s1, run1, o1) =
        hears codec a c used m at.online h k e (other_body _ _ cs_error body (omega arith)) in
      let c1 = record (heard codec m c s1) {
        encrypt_skey = bytes_of (codec.parse_cs m).secretkey;
      } in
      let (s2, run2, o2) =
        says codec a (write_up (auth_up c.token) c1) (used + (length m + 4)) o1 small e' in
      (
        s2,
        update-in codec a hd c session_state_key_syning _ at.listens at.in_state refl
            ∙ rw (run1, same_body _ _ body, run2) refl,
        o2,
      )

  -- The passport has arrived.
  pub gets_passport :
      (m : List ℕ)
      → At c session_state_authing used
      → Gives codec a used m cs_passport
      → (sock : TcpSocketUtil) × (update codec a hd c
          ≡ done (
            pos 0,
            hd,
            record (heard codec m c sock) {
              passport = passport_of (codec.parse_cs m).passport;
              session_state = session_state_ready;
            },
          ))
        × Online sock (used + (length m + 4))
  unfolding update_in handshake_try_ready take_step take_passport report
  gets_passport m at (h, k, e, body) =
      let (s1, run1, o1) =
        hears codec a c used m at.online h k e (other_body _ _ cs_error body (omega arith)) in
      (
        s1,
        update-in codec a hd c session_state_authing _ at.listens at.in_state refl
            ∙ rw (run1, same_body _ _ body) refl,
        o1,
      )

  -- The start of the application has arrived: the handshake is done.
  pub gets_start :
      (m : List ℕ)
      → At c session_state_ready used
      → Gives codec a used m cs_start_app
      → (sock : TcpSocketUtil) × (update codec a hd c
          ≡ done (pos 0, hd, record (heard codec m c sock) { session_state = session_state_done }))
        × Online sock (used + (length m + 4))
  unfolding update_in handshake_try_done take_step take_start report
  gets_start m at (h, k, e, body) =
      let (s1, run1, o1) =
        hears codec a c used m at.online h k e (other_body _ _ cs_error body (omega arith)) in
      (
        s1,
        update-in codec a hd c session_state_ready _ at.listens at.in_state refl
            ∙ rw (run1, same_body _ _ body) refl,
        o1,
      )
