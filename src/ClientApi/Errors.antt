-- ===== src/ClientApi/Errors.antt =====
-- What a client makes of errors: those that the connector reports, and those of its own buffer.
use rapidapp.Base.{
  ℕ, ◌+◌, ◌-◌, ◌%◌, ◌^◌, ◌≤◌, ◌<◌, ◌≡◌, ◌≢◌, refl, sym, ◌∙◌, ap, Bool, some, List, [], ◌∷◌, length,
  pos, failure, arith, inl, inr, add64,
}
use rapidapp.Base.Run.{done}
use rapidapp.Wire.{frame, htonl}
use rapidapp.Wire.Codec.{length-frame}
use rapidapp.Socket.{received, TcpSocketUtil, send_buff_full, pushv_to_send_q}
use rapidapp.Socket.Flow.{IsValid}
use rapidapp.Socket.Vectors.{pushv_lem, joined}
use rapidapp.Socket.Online.{size, entries, joined-entries}
use rapidapp.Net.{EasyNet}
use rapidapp.Connector.State.{Server, ConnectorSession, Codec, cs_error}
use rapidapp.Connector.Clients.{Client, Expected}
use rapidapp.Connector.Refused.{out_of_turn_is_refused}
use rapidapp.Connector.{on_recv_front_end}
use rapidapp.ClientApi.State.{
  ClientState, session_state_inited, session_state_tcp_syning, session_state_done,
  session_state_fini, session_state_key_syning, session_state_authing, session_state_ready,
  ClientProtocol, Answers, empty_msg,
}
use rapidapp.ClientApi.Protocol.{
  data_up, write_up, handshake_try_ack, handshake_try_ready, handshake_try_done, take_key,
  take_step, serialize_and_send_to_peer, if_pushed, iov_of,
}
use rapidapp.ClientApi.Calls.{update, update_in, report, after_ack, push_message}
use rapidapp.ClientApi.Exchange.{hears_error}
use rapidapp.ClientApi.Steps.{At, update-in, heard}
use rapidapp.ClientApi.Rounds.{ReadsBack}

-- The states in which the client waits for a message of the handshake.
abbrev pub Waits : ClientState → Type 0
Waits session_state_key_syning = Unit {0}
Waits session_state_authing = Unit {0}
Waits session_state_ready = Unit {0}
Waits _ = ⊥

module _ (codec : Codec) (a : Answers) (hd : Bool) (c : ClientProtocol) (used : ℕ)
    (m : List ℕ) where
  -- An error that the connector reports during the handshake is taken for the absence of a
  -- message: the call returns 0, the state stays, and the listener is not told. The error arrives
  -- whole, and there is room for it.
  pub error_is_ignored :
      (state : ClientState)
      → Waits state
      → At c state used
      → 0 < length m
      → used + (length m + 4) ≤ size
      → a.recv_answer ≡ received (frame m)
      → (codec.parse_cs m).bodyid ≡ cs_error
      → (sock : TcpSocketUtil) × (update codec a hd c ≡ done (pos 0, hd, heard codec m c sock))
        × At (heard codec m c sock) state (used + (length m + 4))
  unfolding update_in handshake_try_ack take_key after_ack handshake_try_ready handshake_try_done
      take_step report
  error_is_ignored session_state_inited w at h k e same = elim w [ ]
  error_is_ignored session_state_tcp_syning w at h k e same = elim w [ ]
  error_is_ignored session_state_done w at h k e same = elim w [ ]
  error_is_ignored session_state_fini w at h k e same = elim w [ ]
  error_is_ignored session_state_key_syning w at h k e same =
      let (s, run, o) = hears_error codec a c used m at.online h k e same in
      (
        s,
        update-in codec a hd c session_state_key_syning _ at.listens at.in_state refl ∙ rw run refl,
        record { listens = at.listens; in_state = at.in_state; online = o },
      )
  error_is_ignored session_state_authing w at h k e same =
      let (s, run, o) = hears_error codec a c used m at.online h k e same in
      (
        s,
        update-in codec a hd c session_state_authing _ at.listens at.in_state refl ∙ rw run refl,
        record { listens = at.listens; in_state = at.in_state; online = o },
      )
  error_is_ignored session_state_ready w at h k e same =
      let (s, run, o) = hears_error codec a c used m at.online h k e same in
      (
        s,
        update-in codec a hd c session_state_ready _ at.listens at.in_state refl ∙ rw run refl,
        record { listens = at.listens; in_state = at.in_state; online = o },
      )

module _ (codec : Codec) (reads : ReadsBack codec) where
  after_next : (last seqno : ℕ) → seqno ≡ add64 last 1 → add64 seqno 1 ≢ add64 last 1
  after_next last seqno e h = omega arith

  not_due :
      (bytes : List ℕ) (seqno : ℕ) (x : ConnectorSession)
      → x.last_seq ≢ 0
      → seqno ≡ add64 x.last_seq 1
      → Expected x (codec.parse_cs (codec.cs_bytes (data_up bytes (add64 seqno 1))))
      → ⊥
  unfolding data_up empty_msg
  not_due bytes seqno x ne e (_, inl z) = ne z
  not_due bytes seqno x ne e (_, inr q) =
      after_next x.last_seq seqno e
        (sym (ap (λ m. m.sequence) (reads (data_up bytes (add64 seqno 1)))) ∙ q)

  full_buffer :
      (now : ℕ) (m : List ℕ) (s : TcpSocketUtil)
      → IsValid s
      → length m + 4 < 2 ^ 31
      → s.send_buf.buff_size - s.send_buf.end < length m + 4
      → pushv_to_send_q now (iov_of m) s ≡ done (send_buff_full, s)
  unfolding iov_of
  full_buffer now m s v small h =
      let long : length (joined (entries m)) ≡ length m + 4 =
        ap length (joined-entries m) ∙ length-frame m in
      elim (pushv_lem now (some (htonl ((length m + 4) % 2 ^ 32))) (some m ∷ []) s v
        (omega arith)) [ inl (fits, _) ↦ absurd (omega arith) | inr (_, run) ↦ run ]

  -- A push that finds no room in the send buffer returns -1 and sends nothing, and uses up a
  -- number all the same. The connector refuses the next message, whatever its data, and stays as
  -- it is: that message is not the one due. This supposes that the session had seen a message,
  -- that the refused push had the number that was due, and that protocol buffers read back what
  -- they write.
  pub lost_push_breaks_session :
      (a : Answers) (cl : ClientProtocol) (b : ℕ) (bs : List ℕ) (s : Server) (net c fd : ℕ)
      (n : EasyNet) (x : ConnectorSession)
      → IsValid cl.tcp_sock
      → length (codec.cs_bytes (data_up (b ∷ bs) cl.seqno)) + 4 < 2 ^ 31
      → cl.tcp_sock.send_buf.buff_size - cl.tcp_sock.send_buf.end
        < length (codec.cs_bytes (data_up (b ∷ bs) cl.seqno)) + 4
      → Client s net c fd n x
      → x.last_seq ≢ 0
      → cl.seqno ≡ add64 x.last_seq 1
      → (cl' : ClientProtocol) × (push_message codec a (some (b ∷ bs)) cl ≡ done (failure, cl'))
        × (cl'.tcp_sock ≡ cl.tcp_sock)
        × (cl'.wire ≡ cl.wire)
        × ((bytes : List ℕ)
            → on_recv_front_end codec net (codec.cs_bytes (data_up bytes cl'.seqno)) s
              ≡ done (some failure, s))
  unfolding push_message write_up serialize_and_send_to_peer if_pushed
  lost_push_breaks_session a cl b bs s net c fd n x v small h k ne e = (
    write_up (data_up (b ∷ bs)) cl,
    rw (full_buffer a.now (codec.cs_bytes (data_up (b ∷ bs) cl.seqno)) cl.tcp_sock v small h) refl,
    refl,
    refl,
    λ bytes.
        out_of_turn_is_refused codec s net c fd n x
          (codec.cs_bytes (data_up bytes (add64 cl.seqno 1))) k (not_due bytes cl.seqno x ne e),
  )
