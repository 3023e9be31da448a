-- ===== src/Socket/Sending.antt =====
-- `Send` and `PushToSendQ`: no call leaves the send buffer's memory.
use native.Mathlib.Decide.{dec_lt}
use rapidapp.Base.{
  ℕ, ◌-◌, ◌^◌, ◌≤◌, ◌<◌, ◌≡◌, refl, sym, ◌⊎◌, inl, inr, List, [], length, take, arith, append-nil,
  Bool-cases, ltb, ◌==◌, if◌then◌else◌, to_int-lt,
}
use rapidapp.Base.Run.{done}
use rapidapp.RingBuffer.{read_at}
use rapidapp.RingBuffer.Laws.{
  contents, avaiable_lem, datalen_lem, append_lem, recycle_lem, consume, consume-Inv,
  take-contents-consume,
}
use rapidapp.Socket.{
  TcpSocketUtil, NetState, Sent, send_would_block, send_error, sent, normal, send_buff_full,
  send_uncompleted, advance, after_send, send_waiting, send_in, send, push_to_send_q,
}
use rapidapp.Socket.Flow.{IsValid, Flow, idle, Moves}

-- `send` takes no more than it is offered.
abbrev pub SentFits : Sent → TcpSocketUtil → Type 0
SentFits (sent n) s = n ≤ s.send_buf.end - s.send_buf.begin
SentFits _ s = Unit {0}

pub advance_lem :
    (n : ℕ) (s : TcpSocketUtil)
    → IsValid s
    → n ≤ s.send_buf.end - s.send_buf.begin
    → (s' : TcpSocketUtil) × (advance n s ≡ done s')
      × Flow s s' [] (take n (contents s.send_buf)) [] []
unfolding advance
advance_lem n s v h =
    let b = consume n s.send_buf in
    let (b', eq, ok, _, _, same) = recycle_lem b (consume-Inv n s.send_buf v.send_ok h) in
    (
      record s { send_buf = b' },
      rw eq,
      record {
        valid = record { send_ok = ok; recv_ok = v.recv_ok };
        outgoing = rw (append-nil, same) (sym (take-contents-consume n s.send_buf v.send_ok h));
        incoming = append-nil (contents s.recv_buf);
        parser_kept = refl;
      },
    )

after_send_lem :
    (answer : Sent) (s : TcpSocketUtil)
    → IsValid s
    → SentFits answer s
    → Moves (after_send answer (contents s.send_buf) s) (λ wire s'. Flow s s' [] wire [] [])
unfolding after_send
after_send_lem send_would_block s v h = (_, _, _, refl, idle s _ v refl refl refl)
after_send_lem send_error s v h = (_, _, _, refl, idle s _ v refl refl refl)
after_send_lem (sent n) s v h = elim (Bool-cases (n == 0)) [
  | inl z ↦ rw z (normal, [], s, refl, idle s s v refl refl refl)
  | inr nz ↦
      let (s', eq, flow) = advance_lem n s v h in
      let code = if ltb n (length (contents s.send_buf)) then send_uncompleted else normal in
      (code, take n (contents s.send_buf), s', rw (nz, eq), flow)
]

pub send_waiting_eq :
    (answer : Sent) (s : TcpSocketUtil)
    → IsValid s
    → send_waiting answer s ≡ (
        if s.send_buf.end - s.send_buf.begin == 0
        then done (normal, [], s)
        else after_send answer (contents s.send_buf) s)
unfolding send_waiting read_at
send_waiting_eq answer s v = ground (arith, datalen_lem s.send_buf v.send_ok, v.send_ok)

send_waiting_lem :
    (answer : Sent) (s : TcpSocketUtil)
    → IsValid s
    → SentFits answer s
    → Moves (send_waiting answer s) (λ wire s'. Flow s s' [] wire [] [])
send_waiting_lem answer s v h = elim (Bool-cases (s.send_buf.end - s.send_buf.begin == 0)) [
  | inl z ↦ rw (send_waiting_eq answer s v, z) (normal, [], s, refl, idle s s v refl refl refl)
  | inr nz ↦ rw (send_waiting_eq answer s v, nz) (after_send_lem answer s v h)
]

send_in_lem :
    (state : NetState) (answer : Sent) (s : TcpSocketUtil)
    → IsValid s
    → SentFits answer s
    → Moves (send_in state answer s) (λ wire s'. Flow s s' [] wire [] [])
unfolding send_in
send_in_lem NetState.net_connected answer s v h = send_waiting_lem answer s v h
send_in_lem NetState.net_recv_failed answer s v h = send_waiting_lem answer s v h
send_in_lem NetState.net_peer_closed answer s v h = send_waiting_lem answer s v h
send_in_lem NetState.net_assert_fail answer s v h = (_, _, _, refl, idle s _ v refl refl refl)
send_in_lem NetState.net_send_failed answer s v h = (_, _, _, refl, idle s _ v refl refl refl)
send_in_lem _ answer s v h = (_, _, _, refl, idle s _ v refl refl refl)

-- On a valid socket, if the system accepts no more bytes than wait, `Send` takes the bytes that it
-- accepted from the front of the send buffer.
pub send_lem :
    (answer : Sent) (s : TcpSocketUtil)
    → IsValid s
    → SentFits answer s
    → Moves (send answer s) (λ wire s'. Flow s s' [] wire [] [])
unfolding send
send_lem answer s v h = send_in_lem s.socket_state answer s v h

-- On a valid socket, `PushToSendQ` takes all bytes, fewer than 2 ^ 31, or none: none exactly if
-- they do not fit behind the last byte.
pub push_lem :
    (now : ℕ) (bytes : List ℕ) (s : TcpSocketUtil)
    → IsValid s
    → length bytes < 2 ^ 31
    → ((length bytes ≤ s.send_buf.buff_size - s.send_buf.end)
        × ((s' : TcpSocketUtil) × (push_to_send_q now bytes s ≡ done (normal, s'))
            × Flow s s' bytes [] [] []))
      ⊎ ((s.send_buf.buff_size - s.send_buf.end < length bytes)
          × (push_to_send_q now bytes s ≡ done (send_buff_full, s)))
unfolding push_to_send_q
push_lem now bytes s v small =
    elim (dec_lt (s.send_buf.buff_size - s.send_buf.end) (length bytes)) [
      | yes full ↦
          inr (full, ground (arith, avaiable_lem s.send_buf v.send_ok, to_int-lt (length bytes)))
      | no room ↦
          let (b, eq, ok, _, _, kept) = append_lem bytes s.send_buf v.send_ok (omega arith) in
          inl (
            omega arith,
            (
              record s { send_buf = b; last_request_timestamp = now },
              ground (arith, eq, avaiable_lem s.send_buf v.send_ok, to_int-lt (length bytes)),
              record {
                valid = record { send_ok = ok; recv_ok = v.recv_ok };
                outgoing = sym kept;
                incoming = append-nil (contents s.recv_buf);
                parser_kept = refl;
              },
            ),
          )
    ]
