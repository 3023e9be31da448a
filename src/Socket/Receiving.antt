-- ===== src/Socket/Receiving.antt =====
-- `Recv`: no call leaves the receive buffer's memory.
use native.Mathlib.Decide.{dec_lt}
use rapidapp.Base.{
  ℕ, ◌-◌, ◌≤◌, ◌≡◌, refl, sym, ap, subst, eqb_ℤ, ◌∙◌, inl, inr, [], ◌∷◌, length, pos, arith,
  append-nil, Bool-cases, ◌==◌, if◌then◌else◌, true, false,
}
use rapidapp.Base.Run.{done}
use rapidapp.RingBuffer.{RingBuffer, recycle, avaiable}
use rapidapp.RingBuffer.Laws.{Inv, contents, length-contents, avaiable_lem, append_lem, recycle_lem}
use rapidapp.Socket.{
  TcpSocketUtil, NetState, Received, recv_would_block, recv_error, received, normal, after_recv,
  recv_recycled, recv_room, recv_in, recv,
}
use rapidapp.Socket.Flow.{IsValid, Flow, idle, Moves, Flow-start}

-- The room that `recv` is called with: what is left behind the last byte, or, if there is nothing,
-- what moving the bytes to the front makes.
abbrev pub recv_space : RingBuffer → ℕ
recv_space b =
    if b.buff_size - b.end == 0 then b.buff_size - (b.end - b.begin) else b.buff_size - b.end

abbrev pub ReceivedFits : Received → TcpSocketUtil → Type 0
ReceivedFits (received bytes) s = length bytes ≤ recv_space s.recv_buf
ReceivedFits _ s = Unit {0}

abbrev FitsIn : Received → ℕ → Type 0
FitsIn (received bytes) n = length bytes ≤ n
FitsIn _ n = Unit {0}

after_recv_lem :
    (answer : Received) (s : TcpSocketUtil)
    → IsValid s
    → FitsIn answer (s.recv_buf.buff_size - s.recv_buf.end)
    → Moves (after_recv answer s) (λ bytes s'. Flow s s' [] [] bytes [])
unfolding after_recv
after_recv_lem recv_would_block s v h = (_, _, _, refl, idle s _ v refl refl refl)
after_recv_lem recv_error s v h = (_, _, _, refl, idle s _ v refl refl refl)
after_recv_lem (received []) s v h = (_, _, _, refl, idle s _ v refl refl refl)
after_recv_lem (received (c ∷ bytes)) s v h =
    let (b, eq, ok, _, _, kept) = append_lem (c ∷ bytes) s.recv_buf v.recv_ok h in
    (
      normal,
      c ∷ bytes,
      record s { recv_buf = b },
      rw eq,
      record {
        valid = record { send_ok = v.send_ok; recv_ok = ok };
        outgoing = append-nil (contents s.send_buf);
        incoming = sym kept;
        parser_kept = refl;
      },
    )

recycled_recv_lem :
    (answer : Received) (s : TcpSocketUtil) (b : RingBuffer)
    → IsValid s
    → Inv b
    → b.buff_size ≡ s.recv_buf.buff_size
    → b.begin ≡ 0
    → contents b ≡ contents s.recv_buf
    → recycle s.recv_buf ≡ done b
    → FitsIn answer (s.recv_buf.buff_size - (s.recv_buf.end - s.recv_buf.begin))
    → Moves (recv_recycled answer s) (λ bytes s'. Flow s s' [] [] bytes [])
unfolding recv_recycled
recycled_recv_lem answer s b v ok size front same eq h =
    let s₁ = record s { recv_buf = b } in
    let v₁ : IsValid s₁ = record { send_ok = v.send_ok; recv_ok = ok } in
    let long : b.end - b.begin ≡ s.recv_buf.end - s.recv_buf.begin =
      sym (length-contents b ok) ∙ ap length same ∙ length-contents s.recv_buf v.recv_ok in
    elim (dec_lt 0 (b.buff_size - b.end)) [
      | no full ↦
          let stop : eqb_ℤ (avaiable b) (pos 0) ≡ true = ground (arith, avaiable_lem b ok) in
          rw (eq, stop)
            (
              normal,
              [],
              s₁,
              refl,
              Flow-start s s₁ s₁ [] [] [] [] refl (sym same) refl (idle s₁ s₁ v₁ refl refl refl),
            )
      | yes room ↦
          let go_on : eqb_ℤ (avaiable b) (pos 0) ≡ false = ground (arith, avaiable_lem b ok) in
          let fits : FitsIn answer (b.buff_size - b.end) = subst (FitsIn answer) (omega arith) h in
          let (code, bytes, s', e, flow) = after_recv_lem answer s₁ v₁ fits in
          rw (eq, go_on)
            (code, bytes, s', e, Flow-start s s₁ s' [] [] bytes [] refl (sym same) refl flow)
    ]

recv_recycled_lem :
    (answer : Received) (s : TcpSocketUtil)
    → IsValid s
    → FitsIn answer (s.recv_buf.buff_size - (s.recv_buf.end - s.recv_buf.begin))
    → Moves (recv_recycled answer s) (λ bytes s'. Flow s s' [] [] bytes [])
recv_recycled_lem answer s v h =
    let (b, eq, ok, size, front, same) = recycle_lem s.recv_buf v.recv_ok in
    recycled_recv_lem answer s b v ok size front same eq h

FitsIn-recv :
    (answer : Received) (s : TcpSocketUtil)
    → ReceivedFits answer s
    → FitsIn answer (recv_space s.recv_buf)
FitsIn-recv recv_would_block s h = tt
FitsIn-recv recv_error s h = tt
FitsIn-recv (received bytes) s h = h

pub recv_room_eq :
    (answer : Received) (s : TcpSocketUtil)
    → IsValid s
    → recv_room answer s ≡ (
        if s.recv_buf.buff_size - s.recv_buf.end == 0
        then recv_recycled answer s
        else after_recv answer s)
unfolding recv_room
recv_room_eq answer s v = ground (arith, avaiable_lem s.recv_buf v.recv_ok, v.recv_ok)

recv_room_lem :
    (answer : Received) (s : TcpSocketUtil)
    → IsValid s
    → FitsIn answer (recv_space s.recv_buf)
    → Moves (recv_room answer s) (λ bytes s'. Flow s s' [] [] bytes [])
recv_room_lem answer s v h = elim (Bool-cases (s.recv_buf.buff_size - s.recv_buf.end == 0)) [
  | inl z ↦ rw (recv_room_eq answer s v, z) (recv_recycled_lem answer s v (rw z at h))
  | inr nz ↦ rw (recv_room_eq answer s v, nz) (after_recv_lem answer s v (rw nz at h))
]

recv_in_lem :
    (state : NetState) (answer : Received) (s : TcpSocketUtil)
    → IsValid s
    → FitsIn answer (recv_space s.recv_buf)
    → Moves (recv_in state answer s) (λ bytes s'. Flow s s' [] [] bytes [])
unfolding recv_in
recv_in_lem NetState.net_connected answer s v h = recv_room_lem answer s v h
recv_in_lem NetState.net_send_failed answer s v h = recv_room_lem answer s v h
recv_in_lem NetState.net_assert_fail answer s v h = (_, _, _, refl, idle s _ v refl refl refl)
recv_in_lem NetState.net_recv_failed answer s v h = (_, _, _, refl, idle s _ v refl refl refl)
recv_in_lem NetState.net_peer_closed answer s v h = (_, _, _, refl, idle s _ v refl refl refl)
recv_in_lem _ answer s v h = (_, _, _, refl, idle s _ v refl refl refl)

-- On a valid socket, if the system gives no more bytes than there is room for, `Recv` puts them
-- behind the bytes of the receive buffer.
pub recv_lem :
    (answer : Received) (s : TcpSocketUtil)
    → IsValid s
    → ReceivedFits answer s
    → Moves (recv answer s) (λ bytes s'. Flow s s' [] [] bytes [])
unfolding recv
recv_lem answer s v h = recv_in_lem s.socket_state answer s v (FitsIn-recv answer s h)
