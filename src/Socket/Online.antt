-- ===== src/Socket/Online.antt =====
-- A connected socket with nothing waiting in its buffers, as a client's is between two messages: how
-- it says one message and hears one.
use rapidapp.Base.{
  ℕ, ◌+◌, ◌-◌, ◌%◌, ◌^◌, ◌≤◌, ◌<◌, ◌≡◌, refl, sym, ◌∙◌, ap, true, Option, some, List, [], ◌∷◌, ◌++◌,
  length, take, drop, pos, arith, drop_all, take_all, append-nil, to_int-lt,
}
use rapidapp.Base.Run.{done}
use rapidapp.RingBuffer.{RingBuffer, append, recycle}
use rapidapp.RingBuffer.Laws.{
  contents, length-contents, append_lem, recycle_lem, consume, consume-Inv, contents-consume,
  avaiable_lem,
}
use rapidapp.Wire.{htonl, frame, get_pkg_len}
use rapidapp.Socket.{
  Sent, Received, recv_in, recv_room, after_recv, send_in, send_waiting, whole_pkg, pkg_len,
  is_whole, pop_pkg, peek_pkg, after_send, advance, TcpSocketUtil, net_connected, normal, sent,
  received, send, recv, pushv_to_send_q, total_len, has_new_pkg, peek_from_recv_q, pop_from_recv_q,
}
use rapidapp.Socket.Flow.{IsValid}
use rapidapp.Socket.Sending.{send_waiting_eq}
use rapidapp.Socket.Receiving.{recv_room_eq}
use rapidapp.Socket.Packets.{pkg_len_lem, peek_packet}
use rapidapp.Socket.Vectors.{joined, length-joined, pushv_all}
use rapidapp.Wire.Codec.{length-frame, get_pkg_len-frame}

-- The size of a buffer.
abbrev pub size : ℕ
size = 2097152

pub record Online (s : TcpSocketUtil) (used : ℕ) : Type 0 where
  pub valid : IsValid s
  pub connected : s.socket_state ≡ net_connected
  pub parser : s.tcp_pkg_parser_imp ≡ some get_pkg_len
  pub unsent : s.send_buf.begin ≡ 0
  pub drained : s.send_buf.end ≡ 0
  pub send_size : s.send_buf.buff_size ≡ size
  pub unread : s.recv_buf.begin ≡ used
  pub stored : s.recv_buf.end ≡ used
  pub recv_size : s.recv_buf.buff_size ≡ size

-- The two entries of the vector.
abbrev pub entries : List ℕ → List (Option (List ℕ))
entries m = some (htonl ((length m + 4) % 2 ^ 32)) ∷ some m ∷ []

pub joined-entries : (m : List ℕ) → joined (entries m) ≡ frame m
unfolding joined frame
joined-entries m = ap (◌++◌ (htonl ((length m + 4) % 2 ^ 32))) (append-nil m)

-- A state in which the message waits, with its length field.
pub record Loaded (s : TcpSocketUtil) (used : ℕ) (m : List ℕ) : Type 0 where
  valid : IsValid s
  connected : s.socket_state ≡ net_connected
  parser : s.tcp_pkg_parser_imp ≡ some get_pkg_len
  waits : contents s.send_buf ≡ frame m
  send_size : s.send_buf.buff_size ≡ size
  unread : s.recv_buf.begin ≡ used
  stored : s.recv_buf.end ≡ used
  recv_size : s.recv_buf.buff_size ≡ size

nothing_waits : (s : TcpSocketUtil) (used : ℕ) → Online s used → contents s.send_buf ≡ []
nothing_waits s used o = rw (o.unsent, o.drained) refl

pub push_entries :
    (now : ℕ) (m : List ℕ) (s : TcpSocketUtil) (used : ℕ)
    → Online s used
    → length m + 4 ≤ size
    → (s' : TcpSocketUtil) × (pushv_to_send_q now (entries m) s ≡ done (normal, s'))
      × Loaded s' used m
unfolding pushv_to_send_q
push_entries now m s used o h =
    let long = length-joined (entries m) in
    let same : length (joined (entries m)) ≡ length m + 4 =
      ap length (joined-entries m) ∙ length-frame m in
    let (b, eq, ok, sz, kept) = pushv_all (entries m) s.send_buf o.valid.send_ok (omega arith) in
    (
      record s { send_buf = b; last_request_timestamp = now },
      ground (
        arith,
        long,
        same,
        eq,
        avaiable_lem s.send_buf o.valid.send_ok,
        to_int-lt (total_len (entries m)),
      ),
      record {
        valid = record { send_ok = ok; recv_ok = o.valid.recv_ok };
        connected = o.connected;
        parser = o.parser;
        waits = kept ∙ rw (nothing_waits s used o) (joined-entries m);
        send_size = sz ∙ o.send_size;
        unread = o.unread;
        stored = o.stored;
        recv_size = o.recv_size;
      },
    )

after_send_all :
    (bytes : List ℕ) (n : ℕ) (s : TcpSocketUtil) (b : RingBuffer)
    → length bytes ≡ n
    → 0 < n
    → recycle (consume n s.send_buf) ≡ done b
    → after_send (sent n) bytes s ≡ done (normal, bytes, record s { send_buf = b })
unfolding after_send advance
after_send_all bytes n s b h k e = ground (arith, take_all n bytes)

send_waiting_all :
    (n : ℕ) (s : TcpSocketUtil)
    → IsValid s
    → s.send_buf.end - s.send_buf.begin ≡ n
    → 0 < n
    → send_waiting (sent n) s ≡ after_send (sent n) (contents s.send_buf) s
send_waiting_all n s v h k = ground (arith, send_waiting_eq (sent n) s v)

send-connected :
    (answer : Sent) (s : TcpSocketUtil)
    → s.socket_state ≡ net_connected
    → send answer s ≡ send_waiting answer s
unfolding send send_in
send-connected answer s e = ap (λ t. send_in t answer s) e

recv-connected :
    (answer : Received) (s : TcpSocketUtil)
    → s.socket_state ≡ net_connected
    → recv answer s ≡ recv_room answer s
unfolding recv recv_in
recv-connected answer s e = ap (λ t. recv_in t answer s) e

pub send_entries :
    (m : List ℕ) (s : TcpSocketUtil) (used : ℕ)
    → Loaded s used m
    → (s' : TcpSocketUtil) × (send (sent (length m + 4)) s ≡ done (normal, frame m, s'))
      × Online s' used
send_entries m s used o =
    let v = o.valid in
    let n = length m + 4 in
    let long : s.send_buf.end - s.send_buf.begin ≡ n =
      sym (length-contents s.send_buf v.send_ok) ∙ ap length o.waits ∙ length-frame m in
    let b = consume n s.send_buf in
    let ok = consume-Inv n s.send_buf v.send_ok (omega arith) in
    let (b', eq, ok', sz, front, same) = recycle_lem b ok in
    let nothing : contents b' ≡ [] =
      same
      ∙ contents-consume n s.send_buf v.send_ok (omega arith)
      ∙ drop_all n (contents s.send_buf) (omega (arith, length-contents s.send_buf v.send_ok)) in
    (
      record s { send_buf = b' },
      send-connected (sent n) s o.connected
          ∙ (send_waiting_all n s v long (omega arith)
              ∙ after_send_all (contents s.send_buf) n s b'
                  (length-contents s.send_buf v.send_ok ∙ long) (omega arith) eq
              ∙ ap (λ bytes. done (normal, bytes, record s { send_buf = b' })) o.waits),
      record {
        valid = record { send_ok = ok'; recv_ok = v.recv_ok };
        connected = o.connected;
        parser = o.parser;
        unsent = front;
        drained = omega (arith, length-contents b' ok', ap length nothing);
        send_size = sz ∙ o.send_size;
        unread = o.unread;
        stored = o.stored;
        recv_size = o.recv_size;
      },
    )

-- Received, and not yet taken: the message with its length field.
pub record Filled (s : TcpSocketUtil) (used : ℕ) (m : List ℕ) : Type 0 where
  valid : IsValid s
  connected : s.socket_state ≡ net_connected
  parser : s.tcp_pkg_parser_imp ≡ some get_pkg_len
  unsent : s.send_buf.begin ≡ 0
  drained : s.send_buf.end ≡ 0
  send_size : s.send_buf.buff_size ≡ size
  waits : contents s.recv_buf ≡ frame m
  unread : s.recv_buf.begin ≡ used
  stored : s.recv_buf.end ≡ used + (length m + 4)
  recv_size : s.recv_buf.buff_size ≡ size

after_recv_all :
    (bytes : List ℕ) (s : TcpSocketUtil) (b : RingBuffer)
    → 0 < length bytes
    → append bytes s.recv_buf ≡ done b
    → after_recv (received bytes) s ≡ done (normal, bytes, record s { recv_buf = b })
unfolding after_recv
after_recv_all [] s b h e = absurd (omega arith)
after_recv_all (c ∷ bytes) s b h e = rw e refl

contents-nil : (b : RingBuffer) → b.end - b.begin ≡ 0 → contents b ≡ []
contents-nil b e = ap (λ k. take k (drop b.begin b.buff)) e

pub recv_frame :
    (m : List ℕ) (s : TcpSocketUtil) (used : ℕ)
    → Online s used
    → used + (length m + 4) ≤ size
    → (s' : TcpSocketUtil) × (recv (received (frame m)) s ≡ done (normal, frame m, s'))
      × Filled s' used m
recv_frame m s used o h =
    let v = o.valid in
    let long = length-frame m in
    let (b, eq, ok, sz, last, kept) = append_lem (frame m) s.recv_buf v.recv_ok (omega arith) in
    let nothing : contents s.recv_buf ≡ [] = contents-nil s.recv_buf (omega arith) in
    let all : contents b ≡ frame m = kept ∙ ap (λ l. l ++ frame m) nothing in
    (
      record s { recv_buf = b },
      recv-connected (received (frame m)) s o.connected
          ∙ (ground (arith, recv_room_eq (received (frame m)) s v, o.stored, o.recv_size))
          ∙ after_recv_all (frame m) s b (omega arith) eq,
      record {
        valid = record { send_ok = v.send_ok; recv_ok = ok };
        connected = o.connected;
        parser = o.parser;
        unsent = o.unsent;
        drained = o.drained;
        send_size = o.send_size;
        waits = all;
        unread = omega (arith, length-contents b ok, ap length all, last);
        stored = omega (arith, last);
        recv_size = sz ∙ o.recv_size;
      },
    )

whole_frame :
    (m : List ℕ) (n : ℕ)
    → 0 < length m
    → length m + 4 ≤ size
    → n ≡ length m + 4
    → whole_pkg (get_pkg_len (frame m)) (pos n) ≡ some n
unfolding whole_pkg
whole_frame m n h k e = ground (arith, get_pkg_len-frame m)

-- The packet is reported, shown and taken.
pub take_frame :
    (now : ℕ) (m : List ℕ) (s : TcpSocketUtil) (used : ℕ)
    → Filled s used m
    → 0 < length m
    → length m + 4 ≤ size
    → (has_new_pkg s ≡ done (true, s))
      × (shown : TcpSocketUtil) × (peek_from_recv_q now s ≡ done (normal, some (frame m), shown))
      × (s' : TcpSocketUtil) × (pop_from_recv_q shown ≡ done (normal, s'))
      × Online s' (used + (length m + 4))
unfolding has_new_pkg peek_from_recv_q pop_from_recv_q is_whole pop_pkg
take_frame now m s used o h k =
    let v = o.valid in
    let n = length m + 4 in
    let long : s.recv_buf.end - s.recv_buf.begin ≡ n = omega arith in
    let whole : pkg_len get_pkg_len s.recv_buf ≡ done (some n) =
      pkg_len_lem get_pkg_len s.recv_buf v.recv_ok
      ∙ ap (λ p. done (whole_pkg (get_pkg_len p) (pos (s.recv_buf.end - s.recv_buf.begin)))) o.waits
      ∙ ap (λ k. done (whole_pkg (get_pkg_len (frame m)) (pos k))) long
      ∙ ap done (whole_frame m n h k refl) in
    let all : take n (contents s.recv_buf) ≡ frame m =
      ap (take n) o.waits ∙ take_all n (frame m) (omega (arith, length-frame m)) in
    let shown : peek_pkg now s (some n)
        ≡ done (normal, some (frame m), record s { last_response_timestamp = now }) =
      peek_packet now n s v (omega arith)
      ∙ ap (λ p. done (normal, some p, record s { last_response_timestamp = now })) all in
    (
      ground (arith, whole),
      record s { last_response_timestamp = now },
      ground (arith, whole, shown),
      record s { last_response_timestamp = now; recv_buf = consume n s.recv_buf },
      ground (arith, whole),
      record {
        valid = record {
          send_ok = v.send_ok;
          recv_ok = consume-Inv n s.recv_buf v.recv_ok (omega arith);
        };
        connected = o.connected;
        parser = o.parser;
        unsent = o.unsent;
        drained = o.drained;
        send_size = o.send_size;
        unread = omega arith;
        stored = o.stored;
        recv_size = o.recv_size;
      },
    )
