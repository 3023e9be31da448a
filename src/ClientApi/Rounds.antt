-- ===== src/ClientApi/Rounds.antt =====
-- The three exchanges of a handshake between a client and the connector, byte by byte.
use rapidapp.Base.{
  ℕ, ◌+◌, ◌≤◌, ◌<◌, ◌≡◌, ◌≢◌, refl, sym, ◌∙◌, ap, subst, Bool, true, false, none, some, List, [],
  ◌∷◌, ◌++◌, length, pos, success, arith, inl, inr, ltb_ℤ, add64, ◌==◌, append-nil,
}
use rapidapp.Base.Run.{done, ◌>>=◌}
use rapidapp.Wire.{frame}
use rapidapp.Socket.{net_connected, recv_would_block, received}
use rapidapp.Socket.Online.{Online, size}
use rapidapp.Net.{EasyNet, find}
use rapidapp.Connector.State.{
  Server, ConnectorSession, state_init, state_auth, state_synack, state_ok, Codec, CsMsg, ss_data,
  bytes_of, cs_synack, cs_passport, cs_start_app,
}
use rapidapp.Connector.Session.{take_back_end, key_msg, passport_msg, start_msg}
use rapidapp.Connector.Sends.{Established, AllWork, framed}
use rapidapp.Connector.Clients.{Client, Expected}
use rapidapp.Connector.Steps.{NeverEmpty, Reached}
use rapidapp.Connector.Handshake.{first_message, second_message, back_end_acks}
use rapidapp.Connector.Inputs.{one_message}
use rapidapp.ClientApi.State.{
  ClientState, session_state_tcp_syning, session_state_key_syning, session_state_authing,
  session_state_ready, session_state_done, ClientProtocol, Answers, empty_msg,
}
use rapidapp.ClientApi.Protocol.{syn_up, auth_up, passport_of}
use rapidapp.ClientApi.Steps.{said, heard, At, Takes, connects, gets_key, gets_passport, gets_start}
use rapidapp.ClientApi.Network.{
  World, client_turn, connector_turn, back_end_turn, client_turn-says, client_turn-hears,
  connector_turn_lem, back_end_turn_lem, on_socket, on_socket-framed, on_socket-other, listening,
}

-- Protocol buffers read back what they write.
abbrev pub ReadsBack : Codec → Type 0
ReadsBack codec = (m : CsMsg) → codec.parse_cs (codec.cs_bytes m) ≡ m

-- The bytes of a message with its length field.
abbrev pub framed_length : Codec → CsMsg → ℕ
framed_length codec m = length (codec.cs_bytes m) + 4

abbrev pub world : ClientProtocol → Bool → Server → List ℕ → List ℕ → World
world c hd s up down = record { client = c; handshake_done = hd; server = s; up = up; down = down }

pub not_empty : (m : List ℕ) → m ≢ [] → 0 < length m
not_empty [] h = absurd (h refl)
not_empty (b ∷ bs) h = omega arith

pub alone : (fd : ℕ) (m : List ℕ) → on_socket fd (framed fd m) ≡ frame m
unfolding on_socket
alone fd m = on_socket-framed fd m [] ∙ append-nil (frame m)

beside :
    (fd bfd : ℕ) (m other : List ℕ)
    → bfd ≢ fd
    → on_socket fd (framed fd m ++ framed bfd other) ≡ frame m
unfolding on_socket
beside fd bfd m other ne =
    on_socket-framed fd m (framed bfd other)
    ∙ ap (◌++◌ (frame m)) (on_socket-other fd bfd other [] ne)
    ∙ append-nil (frame m)

listening-at :
    (state state' : ClientState) (hd b : Bool)
    → state ≡ state'
    → listening state' hd ≡ b
    → listening state hd ≡ b
listening-at state state' hd b e h = ap (λ t. listening t hd) e ∙ h

key_body : key_msg.bodyid ≡ cs_synack
unfolding key_msg
key_body = refl

passport_body : passport_msg.bodyid ≡ cs_passport
unfolding passport_msg
passport_body = refl

start_body : start_msg.bodyid ≡ cs_start_app
unfolding start_msg
start_body = refl

syn_sequence : (appid openid : List ℕ) (seqno : ℕ) → (syn_up appid openid seqno).sequence ≡ seqno
unfolding syn_up empty_msg
syn_sequence appid openid seqno = refl

auth_sequence : (token : List ℕ) (seqno : ℕ) → (auth_up token seqno).sequence ≡ seqno
unfolding auth_up empty_msg
auth_sequence token seqno = refl

module _ (codec : Codec) (filled : NeverEmpty codec) (reads : ReadsBack codec) where
  syn_is_due :
      (appid openid : List ℕ) (seqno : ℕ) (x : ConnectorSession)
      → x.last_seq ≡ 0
      → Expected x (codec.parse_cs (codec.cs_bytes (syn_up appid openid seqno)))
  unfolding syn_up empty_msg
  syn_is_due appid openid seqno x e = (ap (λ m. m.magic) (reads (syn_up appid openid seqno)), inl e)

  auth_is_due :
      (token : List ℕ) (seqno : ℕ) (x : ConnectorSession)
      → x.last_seq ≡ seqno
      → Expected x (codec.parse_cs (codec.cs_bytes (auth_up token (add64 seqno 1))))
  unfolding auth_up empty_msg
  auth_is_due token seqno x e =
      let m = auth_up token (add64 seqno 1) in
      (
        ap (λ m. m.magic) (reads m),
        inr (ap (λ m. m.sequence) (reads m) ∙ ap (λ k. add64 k 1) (sym e)),
      )

  -- The first exchange: the client says its name, and is heard and answered with the key.
  pub first_exchange :
      (a : Answers) (hd : Bool) (cl : ClientProtocol) (used recv_buff_size : ℕ) (s : Server)
      (net c fd : ℕ) (n : EasyNet) (x : ConnectorSession)
      → cl.protocol_event_listener ≡ true
      → cl.session_state ≡ session_state_tcp_syning
      → ltb_ℤ cl.tcp_sock.fd (pos 0) ≡ false
      → a.checked ≡ pos 0
      → Online (record cl.tcp_sock { socket_state = net_connected }) used
      → Takes codec a (syn_up cl.appid cl.openid cl.seqno)
      → framed_length codec (syn_up cl.appid cl.openid cl.seqno) ≤ recv_buff_size
      → Client s net c fd n x
      → AllWork s
      → x.state ≡ state_init
      → x.last_seq ≡ 0
      → find fd s.frontends.handler_pool ≡ some net
      → (c1 : ClientProtocol) × (s1 : Server) × (n1 : EasyNet) × ((client_turn codec a
              (world cl hd s [] [])
            >>= connector_turn codec recv_buff_size fd)
          ≡ done (world c1 hd s1 [] (frame (codec.cs_bytes key_msg))))
        × At c1 session_state_key_syning used
        × (c1.token ≡ cl.token)
        × (c1.seqno ≡ add64 cl.seqno 1)
        × (n1.nid ≡ n.nid)
        × Reached s s1 net c fd n1
            (record x { last_seq = cl.seqno; state = state_auth })
            (framed fd (codec.cs_bytes key_msg))
            s.back_ends
  unfolding listening
  first_exchange a hd cl used recv_buff_size s net c fd n x l st valid ch o t fits k w xst last
        found =
      let m = syn_up cl.appid cl.openid cl.seqno in
      let hello = codec.cs_bytes m in
      let (k1, run, o1) =
        connects codec (record a { recv_answer = recv_would_block }) hd cl used l st valid ch o t in
      let c1 = record (said codec (syn_up cl.appid cl.openid) cl k1) {
        session_state = session_state_key_syning;
      } in
      let turn =
        client_turn-says codec a hd hd cl c1 s (pos 1) (frame hello)
          (listening-at cl.session_state session_state_tcp_syning hd false st refl) run refl in
      let (s1, run1, q) =
        first_message codec filled s net c fd n x hello k w xst
          (syn_is_due cl.appid cl.openid cl.seqno x last) in
      let (n1, s2, event, same, q') =
        one_message codec recv_buff_size hello s s1 net c fd n _ none _ _ found run1 q fits
          (omega (arith, t.0)) in
      (
        c1,
        s2,
        n1,
        rw turn (
            connector_turn_lem codec recv_buff_size fd c1 hd s s2 success (frame hello) [] _ event
              q'.went_out
            ∙ ap (λ d. done (world c1 hd s2 [] d)) (alone fd (codec.cs_bytes key_msg))),
        record { listens = l; in_state = refl; online = o1 },
        refl,
        refl,
        same,
        subst
            (λ i.
              Reached s s2 net c fd n1 (record x { last_seq = i; state = state_auth })
                (framed fd (codec.cs_bytes key_msg)) s.back_ends)
            (ap (λ m. m.sequence) (reads m) ∙ syn_sequence cl.appid cl.openid cl.seqno) q',
      )

  -- The second exchange: the key arrives, the client says its token and is answered with the
  -- passport, and a back end hears of the session.
  pub second_exchange :
      (a : Answers) (hd : Bool) (cl : ClientProtocol) (used recv_buff_size : ℕ) (s : Server)
      (net c fd back bfd : ℕ) (n nb : EasyNet) (x : ConnectorSession) (seqno : ℕ)
      → At cl session_state_key_syning used
      → cl.seqno ≡ add64 seqno 1
      → used + framed_length codec key_msg ≤ size
      → Takes codec a (auth_up cl.token cl.seqno)
      → framed_length codec (auth_up cl.token cl.seqno) ≤ recv_buff_size
      → Client s net c fd n x
      → AllWork s
      → x.state ≡ state_auth
      → x.last_seq ≡ seqno
      → find fd s.frontends.handler_pool ≡ some net
      → (take_back_end s.back_ends).0 ≡ some back
      → Established s back bfd nb
      → net ≢ back
      → bfd ≢ fd
      → (c1 : ClientProtocol) × (s1 : Server) × (n1 : EasyNet) × ((client_turn codec a
              (world cl hd s [] (frame (codec.cs_bytes key_msg)))
            >>= connector_turn codec recv_buff_size fd)
          ≡ done (world c1 hd s1 [] (frame (codec.cs_bytes passport_msg))))
        × At c1 session_state_authing (used + framed_length codec key_msg)
        × (c1.encrypt_skey ≡ bytes_of key_msg.secretkey)
        × (n1.nid ≡ n.nid)
        × (s1.frontends ≡ s.frontends)
        × AllWork s1
        × Client s1 net c fd n1 (record x { last_seq = cl.seqno; state = state_synack })
  unfolding listening
  second_exchange a hd cl used recv_buff_size s net c fd back bfd n nb x seqno at next room t fits k
        w xst last found turn e ne apart =
      let key = codec.cs_bytes key_msg in
      let m = auth_up cl.token cl.seqno in
      let auth = codec.cs_bytes m in
      let due =
        subst (λ i. Expected x (codec.parse_cs (codec.cs_bytes (auth_up cl.token i)))) (sym next)
          (auth_is_due cl.token seqno x last) in
      let (k1, run, o1) =
        gets_key codec (record a { recv_answer = received (frame key) }) hd cl used key at
          (
            not_empty key (filled.0 key_msg),
            room,
            refl,
            ap (λ m. m.bodyid) (reads key_msg) ∙ key_body,
          )
          t in
      let c1 = record (said codec (auth_up cl.token) (heard codec key cl k1) k1) {
        encrypt_skey = bytes_of (codec.parse_cs key).secretkey;
        session_state = session_state_authing;
      } in
      let turn1 =
        client_turn-hears codec a hd hd cl c1 s (pos 1) key (frame auth)
          (listening-at cl.session_state session_state_key_syning hd true at.in_state refl) run
          refl in
      let (s1, run1, q) =
        second_message codec filled s net c fd back bfd n nb x auth k w xst due turn e ne in
      let (n1, s2, event, same, q') =
        one_message codec recv_buff_size auth s s1 net c fd n _ none _ _ found run1 q fits
          (omega (arith, t.0)) in
      (
        c1,
        s2,
        n1,
        rw turn1 (
            connector_turn_lem codec recv_buff_size fd c1 hd s s2 success (frame auth) [] _ event
              q'.went_out
            ∙ ap (λ d. done (world c1 hd s2 [] d))
                (beside fd bfd (codec.cs_bytes passport_msg) _ apart)),
        record { listens = at.listens; in_state = refl; online = o1 },
        ap (λ m. bytes_of m.secretkey) (reads key_msg),
        same,
        q'.table,
        q'.works,
        subst (λ i. Client s2 net c fd n1 (record x { last_seq = i; state = state_synack }))
            (ap (λ m. m.sequence) (reads m) ∙ auth_sequence cl.token cl.seqno) q'.client,
      )

  -- The last exchange: the passport arrives, the back end answers, and the start arrives.
  pub last_exchange :
      (a b : Answers) (hd : Bool) (cl : ClientProtocol) (used : ℕ) (s : Server) (net c fd : ℕ)
      (n : EasyNet) (x : ConnectorSession) (ack : List ℕ)
      → At cl session_state_authing used
      → used + framed_length codec passport_msg + framed_length codec start_msg ≤ size
      → Client s net c fd n x
      → AllWork s
      → x.state ≡ state_synack
      → find (codec.parse_ss ack).fd s.frontends.handler_pool ≡ some net
      → (codec.parse_ss ack).nid ≡ n.nid
      → ((codec.parse_ss ack).bodyid == ss_data) ≡ false
      → (c1 : ClientProtocol) × (s1 : Server) × ((client_turn codec a
              (world cl hd s [] (frame (codec.cs_bytes passport_msg)))
            >>= back_end_turn codec fd ack
            >>= client_turn codec b)
          ≡ done (world c1 hd s1 [] []))
        × (c1.session_state ≡ session_state_done)
        × (c1.encrypt_skey ≡ cl.encrypt_skey)
        × (c1.passport ≡ passport_of passport_msg.passport)
        × Client s1 net c fd n (record x { sid = (codec.parse_ss ack).sid; state = state_ok })
  unfolding listening
  last_exchange a b hd cl used s net c fd n x ack at room k w xst found nid body =
      let pass = codec.cs_bytes passport_msg in
      let start = codec.cs_bytes start_msg in
      let (k1, run, o1) =
        gets_passport codec (record a { recv_answer = received (frame pass) }) hd cl used pass at
          (
            not_empty pass (filled.0 passport_msg),
            omega arith,
            refl,
            ap (λ m. m.bodyid) (reads passport_msg) ∙ passport_body,
          ) in
      let c1 = record (heard codec pass cl k1) {
        passport = passport_of (codec.parse_cs pass).passport;
        session_state = session_state_ready;
      } in
      let turn1 =
        client_turn-hears codec a hd hd cl c1 s (pos 0) pass []
          (listening-at cl.session_state session_state_authing hd true at.in_state refl) run
          (sym (append-nil cl.wire)) in
      let (s1, run1, q) = back_end_acks codec filled s net c fd n x ack k w xst found nid body in
      let at1 : At c1 session_state_ready (used + framed_length codec passport_msg) = record {
        listens = at.listens;
        in_state = refl;
        online = o1;
      } in
      let (k2, run2, o2) =
        gets_start codec (record b { recv_answer = received (frame start) }) hd c1
          (used + framed_length codec passport_msg) start at1
          (
            not_empty start (filled.0 start_msg),
            omega arith,
            refl,
            ap (λ m. m.bodyid) (reads start_msg) ∙ start_body,
          ) in
      let c2 = record (heard codec start c1 k2) { session_state = session_state_done } in
      let turn3 =
        client_turn-hears codec b hd hd c1 c2 s1 (pos 0) start [] refl run2
          (sym (append-nil cl.wire)) in
      (
        c2,
        s1,
        rw
            (
              turn1,
              back_end_turn_lem codec fd ack c1 hd s s1 success _ run1 q.went_out
                  ∙ ap (λ d. done (world c1 hd s1 [] d)) (alone fd start),
              turn3,
            )
            refl,
        refl,
        refl,
        ap (λ m. passport_of m.passport) (reads passport_msg),
        q.client,
      )
