-- ===== src/ClientApi/Handshake.antt =====
-- A client and the connector through the whole handshake, byte by byte.
use rapidapp.Base.{
  ℕ, ◌+◌, ◌≤◌, ◌≡◌, ◌≢◌, refl, sym, ◌∙◌, ap, ap₂, subst, Bool, true, false, some, List, [], pos,
  arith, ltb_ℤ, add64, ◌==◌,
}
use rapidapp.Base.Run.{done, ◌>>=◌}
use rapidapp.Socket.{net_connected}
use rapidapp.Socket.Online.{Online, size}
use rapidapp.Net.{EasyNet, find}
use rapidapp.Connector.State.{
  Server, ConnectorSession, state_init, state_ok, Codec, ss_data, bytes_of,
}
use rapidapp.Connector.Session.{take_back_end, key_msg, passport_msg, start_msg}
use rapidapp.Connector.Sends.{Established, AllWork}
use rapidapp.Connector.Clients.{Client}
use rapidapp.Connector.Steps.{NeverEmpty}
use rapidapp.ClientApi.State.{session_state_tcp_syning, session_state_done, ClientProtocol, Answers}
use rapidapp.ClientApi.Protocol.{syn_up, auth_up, passport_of}
use rapidapp.ClientApi.Steps.{Takes}
use rapidapp.ClientApi.Network.{client_turn, connector_turn, back_end_turn}
use rapidapp.ClientApi.Rounds.{
  ReadsBack, framed_length, world, first_exchange, second_exchange, last_exchange,
}

-- A client whose connection has just been made and a new session of the connector, with nothing
-- between them, take turns, and a back end answers once: then the client's handshake is done, with
-- the key and the passport that the connector gave it, and the session is ready, under the number
-- that the back end gave it. This supposes that protocol buffers read back what they write and
-- write no message as no bytes, that every message fits the buffers, that the system takes what
-- the client sends, that the connector's writes work, and that the back end's connection is up and
-- on another socket.
pub handshake_end_to_end :
    (codec : Codec)
    → NeverEmpty codec
    → ReadsBack codec
    → (a1 a2 a3 a4 : Answers) (hd : Bool) (cl : ClientProtocol) (used recv_buff_size : ℕ)
      (s : Server) (net c fd back bfd : ℕ) (n nb : EasyNet) (x : ConnectorSession) (ack : List ℕ)
    → cl.protocol_event_listener ≡ true
    → cl.session_state ≡ session_state_tcp_syning
    → ltb_ℤ cl.tcp_sock.fd (pos 0) ≡ false
    → a1.checked ≡ pos 0
    → Online (record cl.tcp_sock { socket_state = net_connected }) used
    → Takes codec a1 (syn_up cl.appid cl.openid cl.seqno)
    → Takes codec a2 (auth_up cl.token (add64 cl.seqno 1))
    → framed_length codec (syn_up cl.appid cl.openid cl.seqno) ≤ recv_buff_size
    → framed_length codec (auth_up cl.token (add64 cl.seqno 1)) ≤ recv_buff_size
    → used
        + framed_length codec key_msg
        + framed_length codec passport_msg
        + framed_length codec start_msg
      ≤ size
    → Client s net c fd n x
    → AllWork s
    → x.state ≡ state_init
    → x.last_seq ≡ 0
    → find fd s.frontends.handler_pool ≡ some net
    → (take_back_end s.back_ends).0 ≡ some back
    → Established s back bfd nb
    → net ≢ back
    → bfd ≢ fd
    → find (codec.parse_ss ack).fd s.frontends.handler_pool ≡ some net
    → (codec.parse_ss ack).nid ≡ n.nid
    → ((codec.parse_ss ack).bodyid == ss_data) ≡ false
    → (cl' : ClientProtocol) × (s' : Server) × (n' : EasyNet) × ((client_turn codec a1
            (world cl hd s [] [])
          >>= connector_turn codec recv_buff_size fd
          >>= client_turn codec a2
          >>= connector_turn codec recv_buff_size fd
          >>= client_turn codec a3
          >>= back_end_turn codec fd ack
          >>= client_turn codec a4)
        ≡ done (world cl' hd s' [] []))
      × (cl'.session_state ≡ session_state_done)
      × (cl'.encrypt_skey ≡ bytes_of key_msg.secretkey)
      × (cl'.passport ≡ passport_of passport_msg.passport)
      × Client s' net c fd n' (record x {
        last_seq = add64 cl.seqno 1;
        sid = (codec.parse_ss ack).sid;
        state = state_ok;
      })
handshake_end_to_end codec filled reads a1 a2 a3 a4 hd cl used recv_buff_size s net c fd back bfd n
      nb x ack l st valid ch o t1 t2 fits1 fits2 room k w xst last found turn e ne apart found2 nid
      body =
    let (c1, s1, n1, run1, at1, token, next, same1, q1) =
      first_exchange codec filled reads a1 hd cl used recv_buff_size s net c fd n x l st valid ch o
        t1 fits1 k w xst last found in
    let (nb1, e1) = q1.kept back bfd nb e in
    let m = ap₂ auth_up token next in
    let (c2, s2, n2, run2, at2, key, same2, table2, works2, k2) =
      second_exchange codec filled reads a2 hd c1 used recv_buff_size s1 net c fd back bfd n1 nb1 _
        cl.seqno at1 next (omega arith) (subst (Takes codec a2) (sym m) t2)
        (subst (λ m. framed_length codec m ≤ recv_buff_size) (sym m) fits2) q1.client q1.works refl
        refl (ap (λ t. find fd t.handler_pool) q1.table ∙ found)
        (ap (λ b. (take_back_end b).0) q1.turns ∙ turn) e1 ne apart in
    let (c3, s3, run3, finished, key3, pass, k3) =
      last_exchange codec filled reads a3 a4 hd c2 (used + framed_length codec key_msg) s2 net c fd
        n2 _ ack at2 room k2 works2 refl
        (ap (λ t. find (codec.parse_ss ack).fd t.handler_pool) (table2 ∙ q1.table) ∙ found2)
        (nid ∙ sym (same2 ∙ same1)) body in
    (
      c3,
      s3,
      n2,
      rw (run1, run2) run3,
      finished,
      key3 ∙ key,
      pass,
      subst
          (λ i.
            Client s3 net c fd n2
              (record x { last_seq = i; sid = (codec.parse_ss ack).sid; state = state_ok }))
          next k3,
    )
