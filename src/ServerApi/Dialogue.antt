-- ===== src/ServerApi/Dialogue.antt =====
-- The connector and a back end that uses the library understand each other.
use rapidapp.Base.{
  ℕ, ◌%◌, ◌^◌, ◌≡◌, ◌≢◌, refl, sym, ◌∙◌, ap, subst, Option, some, List, [], ◌∷◌, success, ◌==◌,
}
use rapidapp.Base.Run.{done}
use rapidapp.Net.{EasyNet, find}
use rapidapp.Connector.State.{
  SsMsg, Codec, Server, ConnectorSession, state_ok, state_synack, bytes_of, ss_data,
}
use rapidapp.Connector.Session.{syn_msg, up_data_msg, down_msg, start_msg}
use rapidapp.Connector.Sends.{AllWork, framed, sent_on}
use rapidapp.Connector.Clients.{Client}
use rapidapp.Connector.Steps.{NeverEmpty, Reached}
use rapidapp.Connector.Forward.{forwards_down}
use rapidapp.Connector.Handshake.{back_end_acks}
use rapidapp.Connector.{on_recv_back_end}
use rapidapp.ServerApi.{
  ConnListener, dispatch, switch, answer, handshake_to_conn, send_data_to_conn, ack_msg, data_msg,
}

-- Protocol buffers: a message that was written is read back.
abbrev pub ReadsBack : Codec → (List ℕ → Option SsMsg) → Type 0
ReadsBack codec parse =
    (m : SsMsg) → (parse (codec.ss_bytes m) ≡ some m) × (codec.parse_ss (codec.ss_bytes m) ≡ m)

module _ {S : Type 0} (codec : Codec) (parse : List ℕ → Option SsMsg) (filled : NeverEmpty codec)
    (reads : ReadsBack codec parse) where
  dispatch-switch :
      (l : ConnListener S) (net : Option ℕ) (m : SsMsg) (s : S)
      → dispatch parse (some l) net (codec.ss_bytes m) s ≡ done (success, switch l net m s)
  unfolding dispatch
  dispatch-switch l net m s = go (codec.ss_bytes m) (filled.1 m) ((reads m).0)
    where
      go :
          (bytes : List ℕ)
          → bytes ≢ []
          → parse bytes ≡ some m
          → dispatch parse (some l) net bytes s ≡ done (success, switch l net m s)
      go [] ne e = absurd (ne refl)
      go (b ∷ bs) ne e = rw (dispatch, e)

  -- If protocol buffers read back what they write, what the connector sends reaches the listener:
  -- the start of a session as a start, with the client's socket and connection number, and data as
  -- data, with the session number and its bytes.
  pub listener_understands :
      (l : ConnListener S) (net : Option ℕ) (fd nid sid sequence : ℕ) (bytes : List ℕ) (s : S)
      → (dispatch parse (some l) net (codec.ss_bytes (syn_msg (fd, nid) sid)) s
          ≡ done (success, l.on_conn_start net fd nid s))
        × (dispatch parse (some l) net (codec.ss_bytes (up_data_msg sequence (fd, nid) sid bytes)) s
            ≡ done (success, l.on_data net fd nid sid bytes s))
  unfolding switch syn_msg up_data_msg bytes_of
  listener_understands l net fd nid sid sequence bytes s = (
    dispatch-switch l net (syn_msg (fd, nid) sid) s,
    dispatch-switch l net (up_data_msg sequence (fd, nid) sid bytes) s,
  )

  -- The back end's answer to the start of a session is handed to the connection, and at the
  -- connector it makes the waiting session ready, under the number that the back end gave it. This
  -- supposes that protocol buffers read back what they write, that the client's socket is in the
  -- table, and that the writes work.
  pub answer_makes_ready :
      (l : ConnListener S) (a : ℕ) (t : S) (s : Server) (net c fd sid : ℕ) (n : EasyNet)
      (x : ConnectorSession)
      → Client s net c fd n x
      → AllWork s
      → x.state ≡ state_synack
      → find (fd % 2 ^ 32) s.frontends.handler_pool ≡ some net
      → (bytes : List ℕ) × (handshake_to_conn codec (some l) (some a) (fd % 2 ^ 32) n.nid sid t
          ≡ done (l.send_to_conn a bytes t))
        × (s' : Server) × (on_recv_back_end codec bytes s ≡ done (success, s'))
        × Reached s s' net c fd n
            (record x { sid = sid; state = state_ok })
            (framed fd (codec.cs_bytes start_msg))
            s.back_ends
  unfolding handshake_to_conn answer ack_msg
  answer_makes_ready l a t s net c fd sid n x k w st found =
      let m = ack_msg (fd % 2 ^ 32) n.nid sid in
      let back = (reads m).1 in
      let (s', run, r) =
        back_end_acks codec filled s net c fd n x (codec.ss_bytes m) k w st
          (subst (λ m. find m.fd s.frontends.handler_pool ≡ some net) (sym back) found)
          (ap (λ m. m.nid) back) (ap (λ m. m.bodyid == ss_data) back) in
      (
        codec.ss_bytes m,
        refl,
        s',
        run,
        subst
            (λ i.
              Reached s s' net c fd n (record x { sid = i; state = state_ok })
                (framed fd (codec.cs_bytes start_msg)) s.back_ends)
            (ap (λ m. m.sid) back) r,
      )

  -- Data, one byte at least, that the back end sends under the numbers of a ready session is
  -- handed to the connection, and the connector passes just its bytes on to the client's socket.
  -- This supposes that protocol buffers read back what they write, that the client's socket is in
  -- the table, and that the writes work.
  pub data_is_passed_on :
      (l : ConnListener S) (a : ℕ) (t : S) (s : Server) (net c fd : ℕ) (n : EasyNet)
      (x : ConnectorSession) (b : ℕ) (bs : List ℕ)
      → Client s net c fd n x
      → AllWork s
      → x.state ≡ state_ok
      → find (fd % 2 ^ 32) s.frontends.handler_pool ≡ some net
      → (bytes : List ℕ) × (send_data_to_conn codec
            (some l)
            (some a)
            (fd % 2 ^ 32)
            n.nid
            x.sid
            (b ∷ bs)
            t
          ≡ done (l.send_to_conn a bytes t))
        × (on_recv_back_end codec bytes s
            ≡ done (success, sent_on fd (codec.cs_bytes (down_msg 0 (b ∷ bs))) s))
  unfolding send_data_to_conn answer data_msg bytes_of
  data_is_passed_on l a t s net c fd n x b bs k w st found =
      let m = data_msg (fd % 2 ^ 32) n.nid x.sid (b ∷ bs) in
      let back = (reads m).1 in
      (
        codec.ss_bytes m,
        refl,
        forwards_down codec filled s net c fd n x (codec.ss_bytes m) b bs k w st
              (subst (λ m. find m.fd s.frontends.handler_pool ≡ some net) (sym back) found)
              (ap (λ m. m.nid) back) (ap (λ m. m.sid) back) (ap (λ m. m.bodyid) back)
              (ap (λ m. bytes_of m.data_bytes) back)
            ∙ ap (λ q. done (success, sent_on fd (codec.cs_bytes (down_msg q (b ∷ bs))) s))
                (ap (λ m. m.sequence) back),
      )
