-- ===== src/Socket/Stream.antt =====
-- A socket over any history of calls: two byte streams, in which nothing is lost or reordered.
use rapidapp.Base.{
  ℕ, ◌^◌, ◌<◌, ◌≡◌, refl, sym, ap, subst, ◌∙◌, inl, inr, Option, none, some, List, [], ◌∷◌, ◌++◌,
  length, take, arith, append_assoc, eqb_ℤ, if◌then◌else◌,
}
use rapidapp.Base.Run.{Run, done, ◌>>=◌}
use rapidapp.RingBuffer.Laws.{contents}
use rapidapp.Socket.{
  TcpSocketUtil, PkgParser, Sent, Received, normal, send, recv, push_to_send_q, peek_from_recv_q,
  pop_from_recv_q,
}
use rapidapp.Socket.Flow.{IsValid, Flow, Flow-start, idle}
use rapidapp.Socket.Sending.{SentFits, send_lem, push_lem}
use rapidapp.Socket.Receiving.{ReceivedFits, recv_lem}
use rapidapp.Socket.Packets.{HasPacket, packets}

-- The calls of a client: those on the send side, `Recv`, and the taking of a packet.
pub data Call : Type 0 where
  pushes : List ℕ → Call
  sends : Sent → Call
  receives : Received → Call
  takes : Call

-- What has passed the four ends of the two buffers.
pub record Passed : Type 0 where
  pub pushed : List ℕ
  pub wire : List ℕ
  pub arrived : List ℕ
  pub consumed : List ℕ

abbrev nothing : Passed
nothing = record { pushed = []; wire = []; arrived = []; consumed = [] }

abbrev shown_bytes : Option (List ℕ) → List ℕ
shown_bytes none = []
shown_bytes (some bytes) = bytes

-- One call, with what it moved. A packet is taken as the client does it: shown, then popped.
unfoldable pub step : ℕ → Call → TcpSocketUtil → Run (Passed × TcpSocketUtil)
step now (pushes bytes) s = push_to_send_q now bytes s >>= λ (code, s').
    done (if eqb_ℤ code normal then record nothing { pushed = bytes } else nothing, s')
step now (sends answer) s =
    send answer s >>= λ (code, bytes, s'). done (record nothing { wire = bytes }, s')
step now (receives answer) s =
    recv answer s >>= λ (code, bytes, s'). done (record nothing { arrived = bytes }, s')
step now takes s = peek_from_recv_q now s >>= λ (code, packet, s').
    pop_from_recv_q s' >>= λ (code', s'').
    done (record nothing { consumed = shown_bytes packet }, s'')

unfoldable pub append_passed : Passed → Passed → Passed
append_passed p q = record {
  pushed = p.pushed ++ q.pushed;
  wire = p.wire ++ q.wire;
  arrived = p.arrived ++ q.arrived;
  consumed = p.consumed ++ q.consumed;
}

unfoldable pub run : ℕ → List Call → TcpSocketUtil → Run (Passed × TcpSocketUtil)
run now [] s = done (nothing, s)
run now (c ∷ cs) s =
    step now c s >>= λ (p, s'). run now cs s' >>= λ (q, s''). done (append_passed p q, s'')

-- What the system answers keeps its contract, and no push is of 2 GB or more.
abbrev pub Fits : Call → TcpSocketUtil → Type 0
Fits (pushes bytes) s = length bytes < 2 ^ 31
Fits (sends answer) s = SentFits answer s
Fits (receives answer) s = ReceivedFits answer s
Fits takes s = Unit {0}

abbrev pub After : Run (Passed × TcpSocketUtil) → (TcpSocketUtil → Type 0) → Type 0
After (done (p, s)) P = P s
After _ P = Unit {0}

-- Each call of the history fits the state that the calls before it lead to.
abbrev pub AllFit : ℕ → List Call → TcpSocketUtil → Type 0
AllFit now [] s = Unit {0}
AllFit now (c ∷ cs) s = Fits c s × After (step now c s) (λ s'. AllFit now cs s')

abbrev pub Flows : TcpSocketUtil → Passed → TcpSocketUtil → Type 0
Flows s p s' = Flow s s' p.pushed p.wire p.arrived p.consumed

-- Two packets at the front of the same bytes are of one length.
same_length :
    (parser : PkgParser) (s : TcpSocketUtil) (m n : ℕ)
    → HasPacket parser s m
    → HasPacket parser s n
    → m ≡ n
same_length parser s m n h k = ground arith

take_lem :
    (now : ℕ) (parser : PkgParser) (s : TcpSocketUtil)
    → IsValid s
    → s.tcp_pkg_parser_imp ≡ some parser
    → (p : Passed) × (s' : TcpSocketUtil) × (step now takes s ≡ done (p, s')) × Flows s p s'
unfolding step
take_lem now parser s v e =
    let seen = record s { last_response_timestamp = now } in
    let seen_ok : IsValid seen = record { send_ok = v.send_ok; recv_ok = v.recv_ok } in
    elim (packets parser s now v e) [
      | inr p ↦ (nothing, p.after, rw (p.shown, p.taken), p.flow)
      | inl (n, w) ↦ elim (packets parser seen now seen_ok e) [
        | inr p ↦ absurd (p.no_packet n w.packet)
        | inl (m, w') ↦
            let same : take m (contents s.recv_buf) ≡ take n (contents s.recv_buf) =
              ap (λ k. take k (contents s.recv_buf))
                (same_length parser s m n w'.packet w.packet) in
            (
              record nothing { consumed = take n (contents s.recv_buf) },
              w'.after,
              rw (w.shown, w'.taken),
              Flow-start s seen w'.after [] [] [] (take n (contents s.recv_buf)) refl refl refl
                  (subst (λ bytes. Flow seen w'.after [] [] [] bytes) same w'.flow),
            )
      ]
    ]

step_lem :
    (now : ℕ) (c : Call) (parser : PkgParser) (s : TcpSocketUtil)
    → IsValid s
    → s.tcp_pkg_parser_imp ≡ some parser
    → Fits c s
    → (p : Passed) × (s' : TcpSocketUtil) × (step now c s ≡ done (p, s')) × Flows s p s'
unfolding step
step_lem now (pushes bytes) parser s v e h = elim (push_lem now bytes s v h) [
  | inl (_, (s', eq, flow)) ↦ (record nothing { pushed = bytes }, s', rw eq, flow)
  | inr (_, eq) ↦ (nothing, s, rw eq, idle s s v refl refl refl)
]
step_lem now (sends answer) parser s v e h =
    let (code, bytes, s', eq, flow) = send_lem answer s v h in
    (record nothing { wire = bytes }, s', rw eq, flow)
step_lem now (receives answer) parser s v e h =
    let (code, bytes, s', eq, flow) = recv_lem answer s v h in
    (record nothing { arrived = bytes }, s', rw eq, flow)
step_lem now takes parser s v e h = take_lem now parser s v e

flow_trans :
    (a p w b q x c : List ℕ) → a ++ p ≡ w ++ b → b ++ q ≡ x ++ c → a ++ (p ++ q) ≡ (w ++ x) ++ c
flow_trans a p w b q x c e f =
    sym (append_assoc a p q)
    ∙ ap (λ l. l ++ q) e
    ∙ append_assoc w b q
    ∙ ap (◌++◌ w) f
    ∙ sym (append_assoc w x c)

Flows-append :
    (s s' s'' : TcpSocketUtil) (p q : Passed)
    → Flows s p s'
    → Flows s' q s''
    → Flows s (append_passed p q) s''
unfolding append_passed
Flows-append s s' s'' p q f g = record {
  valid = g.valid;
  outgoing = flow_trans _ p.pushed p.wire _ q.pushed q.wire _ f.outgoing g.outgoing;
  incoming = flow_trans _ p.arrived p.consumed _ q.arrived q.consumed _ f.incoming g.incoming;
  parser_kept = g.parser_kept ∙ f.parser_kept;
}

-- On a valid socket with a parser, any history of calls that fits (the system takes and gives no
-- more bytes than it is offered or has room for, and no push is of 2 GB or more) ends without a
-- fault and keeps the buffers valid. The bytes that were pushed are those that went to the system
-- and those that wait, in that order; likewise those that arrived are those that were taken as
-- packets and those that wait.
pub run_streams :
    (now : ℕ) (cs : List Call) (parser : PkgParser) (s : TcpSocketUtil)
    → IsValid s
    → s.tcp_pkg_parser_imp ≡ some parser
    → AllFit now cs s
    → (p : Passed) × (s' : TcpSocketUtil) × (run now cs s ≡ done (p, s')) × Flows s p s'
unfolding run
run_streams now [] parser s v e h = (nothing, s, refl, idle s s v refl refl refl)
run_streams now (c ∷ cs) parser s v e h =
    let (p, s', eq, flow) = step_lem now c parser s v e h.0 in
    let (q, s'', eq', flow') =
      run_streams now cs parser s' flow.valid (flow.parser_kept ∙ e)
        (subst (λ r. After r (λ t. AllFit now cs t)) eq h.1) in
    (append_passed p q, s'', rw (eq, eq'), Flows-append s s' s'' p q flow flow')
