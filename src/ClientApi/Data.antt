-- ===== src/ClientApi/Data.antt =====
-- Data between a client and a back end, once the handshake is done.
use rapidapp.Base.{
  ℕ, ◌+◌, ◌%◌, ◌^◌, ◌≤◌, ◌≡◌, refl, ◌∙◌, ap, ap₂, true, some, List, ◌∷◌, ◌++◌, length, drop, pos,
  success, failure, if◌then◌else◌, arith, inr, add64, ◌==◌,
}
use rapidapp.Base.Run.{done}
use rapidapp.Wire.{frame}
use rapidapp.Socket.{received, TcpSocketUtil}
use rapidapp.Socket.Online.{Online, size, recv_frame, take_frame}
use rapidapp.Net.{EasyNet, find}
use rapidapp.Connector.State.{
  Server, ConnectorSession, state_ok, Codec, bytes_of, ss_data, cs_data_transparent,
}
use rapidapp.Connector.Session.{take_back_end, up_data_msg, down_msg}
use rapidapp.Connector.Sends.{Established, AllWork, framed, sent_on}
use rapidapp.Connector.Clients.{Client, Expected, sent-sent_on}
use rapidapp.Connector.Steps.{NeverEmpty}
use rapidapp.Connector.Forward.{forwards_up, forwards_down}
use rapidapp.Connector.{on_recv_front_end, on_recv_back_end}
use rapidapp.ClientApi.State.{
  session_state_done, ClientProtocol, Answers, empty_msg, tell, on_incoming,
}
use rapidapp.ClientApi.Protocol.{Coded, data_up, write_up}
use rapidapp.ClientApi.Calls.{
  update, update_in, report, check_incoming, told_incoming, push_message, peek_message, peek_packet,
  show_data, pop_message,
}
use rapidapp.ClientApi.Exchange.{says, parse_down-frame}
use rapidapp.ClientApi.Steps.{said, At, Takes, update-in}
use rapidapp.ClientApi.Network.{arrives, arrives-frame, on_socket, new_bytes}
use rapidapp.ClientApi.Rounds.{alone, ReadsBack, framed_length, not_empty}

show_data-data :
    (c : ClientProtocol) (bytes : List ℕ)
    → c.down_msg.bodyid ≡ cs_data_transparent
    → bytes_of c.down_msg.data_bytes ≡ bytes
    → show_data c ≡ done (success, some bytes, c)
unfolding show_data
show_data-data c bytes h e = ground arith

if_data :
    (c : ClientProtocol)
    → c.down_msg.bodyid ≡ cs_data_transparent
    → ◌≡◌ {A = Coded}
        (done (if c.down_msg.bodyid == cs_data_transparent then (success, c) else (failure, c)))
        (done (success, c))
if_data c h = ground arith

module _ (codec : Codec) (filled : NeverEmpty codec) (reads : ReadsBack codec) where
  data_is_due :
      (bytes : List ℕ) (seqno : ℕ) (x : ConnectorSession)
      → seqno ≡ add64 x.last_seq 1
      → Expected x (codec.parse_cs (codec.cs_bytes (data_up bytes seqno)))
  unfolding data_up empty_msg
  data_is_due bytes seqno x e =
      let m = data_up bytes seqno in
      (ap (λ m. m.magic) (reads m), inr (ap (λ m. m.sequence) (reads m) ∙ e))

  data_body :
      (bytes : List ℕ) (seqno : ℕ)
      → (codec.parse_cs (codec.cs_bytes (data_up bytes seqno))).bodyid ≡ cs_data_transparent
  unfolding data_up empty_msg
  data_body bytes seqno = ap (λ m. m.bodyid) (reads (data_up bytes seqno))

  data_sequence :
      (bytes : List ℕ) (seqno : ℕ)
      → (codec.parse_cs (codec.cs_bytes (data_up bytes seqno))).sequence ≡ seqno
  unfolding data_up empty_msg
  data_sequence bytes seqno = ap (λ m. m.sequence) (reads (data_up bytes seqno))

  data_content :
      (bytes : List ℕ) (seqno : ℕ)
      → bytes_of (codec.parse_cs (codec.cs_bytes (data_up bytes seqno))).data_bytes ≡ bytes
  unfolding data_up empty_msg bytes_of
  data_content bytes seqno = ap (λ m. bytes_of m.data_bytes) (reads (data_up bytes seqno))

  -- Data, one byte at least, that a client pushes goes to the system as one frame, and the message
  -- in it is passed on by the connector: to the back end whose turn it is, under the session's
  -- numbers, with just these bytes. This supposes that the client's next number is the one that
  -- the session is due, that the system takes the frame, that the writes work, that the back end's
  -- connection is up, and that protocol buffers read back what they write and write no message as
  -- no bytes.
  pub pushed_data_is_forwarded :
      (a : Answers) (cl : ClientProtocol) (used b : ℕ) (bs : List ℕ) (s : Server)
      (net c fd back bfd : ℕ) (n nb : EasyNet) (x : ConnectorSession)
      → Online cl.tcp_sock used
      → Takes codec a (data_up (b ∷ bs) cl.seqno)
      → Client s net c fd n x
      → AllWork s
      → x.state ≡ state_ok
      → cl.seqno ≡ add64 x.last_seq 1
      → (take_back_end s.back_ends).0 ≡ some back
      → Established s back bfd nb
      → (sock : TcpSocketUtil) × (push_message codec a (some (b ∷ bs)) cl
          ≡ done (success, said codec (data_up (b ∷ bs)) cl sock))
        × Online sock used
        × (s' : Server) × (on_recv_front_end codec net
              (codec.cs_bytes (data_up (b ∷ bs) cl.seqno))
              s
            ≡ done (some success, s'))
        × (s'.sent
            ≡ s.sent
              ++ framed bfd
                  (codec.ss_bytes (up_data_msg cl.seqno (fd % 2 ^ 32, n.nid) x.sid (b ∷ bs))))
  unfolding push_message write_up
  pushed_data_is_forwarded a cl used b bs s net c fd back bfd n nb x o (small, e) k w st due turn
        up =
      let bytes = b ∷ bs in
      let (sock, run, o') = says codec a (write_up (data_up bytes) cl) used o small e in
      let (s', run', out) =
        forwards_up codec filled s net c fd back bfd n nb x
          (codec.cs_bytes (data_up bytes cl.seqno)) k w st (data_is_due bytes cl.seqno x due)
          (data_body bytes cl.seqno) turn up in
      (
        sock,
        rw run refl,
        o',
        s',
        run',
        out
            ∙ ap₂
                (λ q l.
                  s.sent
                  ++ framed bfd (codec.ss_bytes (up_data_msg q (fd % 2 ^ 32, n.nid) x.sid l)))
                (data_sequence bytes cl.seqno) (data_content bytes cl.seqno),
      )

  -- A data message to a client whose handshake is done, and which knows that: it is told, is shown
  -- just the bytes, and takes the message away.
  pub reads_data :
      (a : Answers) (cl : ClientProtocol) (used sequence b : ℕ) (bs : List ℕ)
      → At cl session_state_done used
      → used + framed_length codec (down_msg sequence (b ∷ bs)) ≤ size
      → a.recv_answer ≡ received (frame (codec.cs_bytes (down_msg sequence (b ∷ bs))))
      → (c1 c2 c3 : ClientProtocol) × (update codec a true cl
          ≡ done (pos 1, true, tell on_incoming c1))
        × (peek_message codec true a (tell on_incoming c1) ≡ done (success, some (b ∷ bs), c2))
        × (pop_message c2 ≡ done (success, c3))
        × At c3 session_state_done (used + framed_length codec (down_msg sequence (b ∷ bs)))
  unfolding update_in report check_incoming told_incoming peek_message peek_packet pop_message tell
      down_msg bytes_of
  reads_data a cl used sequence b bs at room e =
      let m = codec.cs_bytes (down_msg sequence (b ∷ bs)) in
      let (s1, got, full) = recv_frame m cl.tcp_sock used at.online room in
      let (has, s2, shown, s3, taken, o) =
        take_frame a.now m s1 used full (not_empty m (filled.0 (down_msg sequence (b ∷ bs))))
          (omega arith) in
      let body : (codec.parse_cs m).bodyid ≡ cs_data_transparent =
        ap (λ m. m.bodyid) (reads (down_msg sequence (b ∷ bs))) in
      let content : bytes_of (codec.parse_cs m).data_bytes ≡ b ∷ bs =
        ap (λ m. bytes_of m.data_bytes) (reads (down_msg sequence (b ∷ bs))) in
      let c1 = record cl { tcp_sock = s1 } in
      let c2 = record (tell on_incoming c1) { tcp_sock = s2; down_msg = codec.parse_cs m } in
      let c3 = record c2 { tcp_sock = s3 } in
      (
        c1,
        c2,
        c3,
        update-in codec a true cl session_state_done _ at.listens at.in_state refl
            ∙ rw (e, got, has) refl,
        rw (has, shown, parse_down-frame codec m) (show_data-data c2 (b ∷ bs) body content),
        rw taken (if_data c3 body),
        record { listens = at.listens; in_state = at.in_state; online = o },
      )

  -- Data of a back end that names a ready session by the client's socket, connection number and
  -- session number: what the connector then writes to the socket, brought to a client whose
  -- handshake is done and which knows that, is shown to it as just the back end's bytes, and taken
  -- away. This supposes that the connector's writes work, that there is room, and that protocol
  -- buffers read back what they write and write no message as no bytes.
  pub back_end_data_is_read :
      (a : Answers) (cl : ClientProtocol) (used : ℕ) (s : Server) (net c fd : ℕ) (n : EasyNet)
      (x : ConnectorSession) (msg : List ℕ) (b : ℕ) (bs : List ℕ)
      → Client s net c fd n x
      → AllWork s
      → x.state ≡ state_ok
      → find (codec.parse_ss msg).fd s.frontends.handler_pool ≡ some net
      → (codec.parse_ss msg).nid ≡ n.nid
      → (codec.parse_ss msg).sid ≡ x.sid
      → (codec.parse_ss msg).bodyid ≡ ss_data
      → bytes_of (codec.parse_ss msg).data_bytes ≡ b ∷ bs
      → At cl session_state_done used
      → used + framed_length codec (down_msg (codec.parse_ss msg).sequence (b ∷ bs)) ≤ size
      → (s' : Server) × (on_recv_back_end codec msg s ≡ done (success, s'))
        × (c1 c2 c3 : ClientProtocol) × (update codec
              (record a { recv_answer = arrives (on_socket fd (drop (length s.sent) s'.sent)) })
              true
              cl
            ≡ done (pos 1, true, c1))
        × (peek_message codec true a c1 ≡ done (success, some (b ∷ bs), c2))
        × (pop_message c2 ≡ done (success, c3))
        × At c3 session_state_done
            (used + framed_length codec (down_msg (codec.parse_ss msg).sequence (b ∷ bs)))
  unfolding peek_message
  back_end_data_is_read a cl used s net c fd n x msg b bs k w st found nid sid body bytes at room =
      let m = down_msg (codec.parse_ss msg).sequence (b ∷ bs) in
      let out = codec.cs_bytes m in
      let s' = sent_on fd out s in
      let wrote =
        ap (on_socket fd) (new_bytes s.sent s'.sent (framed fd out) (sent-sent_on s fd out))
        ∙ alone fd out in
      let came = ap arrives wrote ∙ arrives-frame out in
      let (c1, c2, c3, run, shown, taken, o) =
        reads_data
          (record a { recv_answer = arrives (on_socket fd (drop (length s.sent) s'.sent)) }) cl used
          (codec.parse_ss msg).sequence b bs at room came in
      (
        s',
        forwards_down codec filled s net c fd n x msg b bs k w st found nid sid body bytes,
        tell on_incoming c1,
        c2,
        c3,
        run,
        shown,
        taken,
        o,
      )
