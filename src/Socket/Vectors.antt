-- ===== src/Socket/Vectors.antt =====
-- `PushvToSendQ`: a vector of byte strings is pushed as one.
use native.Mathlib.Decide.{dec_lt}
use rapidapp.Base.{
  ℕ, ◌-◌, ◌^◌, ◌≤◌, ◌<◌, ◌≡◌, refl, sym, ap, ◌∙◌, ◌⊎◌, inl, inr, Option, none, some, List, [], ◌∷◌,
  ◌++◌, length, arith, append-nil, append_assoc, length-append, to_int-lt,
}
use rapidapp.Base.Run.{done}
use rapidapp.RingBuffer.{RingBuffer}
use rapidapp.RingBuffer.Laws.{Inv, contents, avaiable_lem, append_lem}
use rapidapp.Socket.{TcpSocketUtil, normal, send_buff_full, total_len, pushv, pushv_to_send_q}
use rapidapp.Socket.Flow.{IsValid, Flow}

-- The bytes of a vector.
unfoldable pub joined : List (Option (List ℕ)) → List ℕ
joined [] = []
joined (none ∷ iov) = joined iov
joined (some bytes ∷ iov) = bytes ++ joined iov

pub length-joined : (iov : List (Option (List ℕ))) → length (joined iov) ≡ total_len iov
unfolding joined total_len
length-joined [] = refl
length-joined (none ∷ iov) = length-joined iov
length-joined (some bytes ∷ iov) =
    omega (arith, length-append bytes (joined iov), length-joined iov)

pub pushv_all :
    (iov : List (Option (List ℕ))) (b : RingBuffer)
    → Inv b
    → length (joined iov) ≤ b.buff_size - b.end
    → (b' : RingBuffer) × (pushv iov b ≡ done b')
      × Inv b'
      × (b'.buff_size ≡ b.buff_size)
      × (contents b' ≡ contents b ++ joined iov)
unfolding pushv joined
pushv_all [] b v h = (b, refl, v, refl, sym (append-nil (contents b)))
pushv_all (none ∷ iov) b v h = pushv_all iov b v h
pushv_all (some [] ∷ iov) b v h = pushv_all iov b v h
pushv_all (some (c ∷ bytes) ∷ iov) b v h =
    let long = length-append (c ∷ bytes) (joined iov) in
    let (b₁, eq, ok, size, last, kept) = append_lem (c ∷ bytes) b v (omega arith) in
    let (b₂, eq', ok', size', kept') = pushv_all iov b₁ ok (omega arith) in
    (
      b₂,
      rw (eq, eq'),
      ok',
      size' ∙ size,
      kept' ∙ ap (λ l. l ++ joined iov) kept ∙ append_assoc (contents b) (c ∷ bytes) (joined iov),
    )

-- On a valid socket, a vector that is not empty, of fewer than 2 ^ 31 bytes, is pushed whole, as
-- its bytes in their order, or not at all: not at all exactly if they do not fit behind the last
-- byte. Entries without bytes do not matter.
pub pushv_lem :
    (now : ℕ) (e : Option (List ℕ)) (iov : List (Option (List ℕ))) (s : TcpSocketUtil)
    → IsValid s
    → length (joined (e ∷ iov)) < 2 ^ 31
    → ((length (joined (e ∷ iov)) ≤ s.send_buf.buff_size - s.send_buf.end)
        × ((s' : TcpSocketUtil) × (pushv_to_send_q now (e ∷ iov) s ≡ done (normal, s'))
            × Flow s s' (joined (e ∷ iov)) [] [] []))
      ⊎ ((s.send_buf.buff_size - s.send_buf.end < length (joined (e ∷ iov)))
          × (pushv_to_send_q now (e ∷ iov) s ≡ done (send_buff_full, s)))
unfolding pushv_to_send_q
pushv_lem now e iov s v small =
    let long = length-joined (e ∷ iov) in
    elim (dec_lt (s.send_buf.buff_size - s.send_buf.end) (length (joined (e ∷ iov)))) [
      | yes full ↦ inr (
        full,
        ground (arith, long, avaiable_lem s.send_buf v.send_ok, to_int-lt (total_len (e ∷ iov))),
      )
      | no room ↦
          let (b, eq, ok, _, kept) = pushv_all (e ∷ iov) s.send_buf v.send_ok (omega arith) in
          inl (
            omega arith,
            (
              record s { send_buf = b; last_request_timestamp = now },
              ground (
                arith,
                long,
                eq,
                avaiable_lem s.send_buf v.send_ok,
                to_int-lt (total_len (e ∷ iov)),
              ),
              record {
                valid = record { send_ok = ok; recv_ok = v.recv_ok };
                outgoing = sym kept;
                incoming = append-nil (contents s.recv_buf);
                parser_kept = refl;
              },
            ),
          )
    ]
