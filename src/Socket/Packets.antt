-- ===== src/Socket/Packets.antt =====
-- Packets at the front of the receive buffer: `HasNewPkg`, `PeekFromRecvQ` and `PopFromRecvQ`.
use rapidapp.Base.{
  ℕ, ◌-◌, ◌≤◌, ◌<◌, ◌≡◌, refl, sym, ◌⊎◌, inl, inr, none, some, [], length, take, drop, take-take, ℤ,
  pos, negsuc, arith, append-nil, true, false, Option-cases,
}
use rapidapp.Base.Run.{done}
use rapidapp.RingBuffer.{RingBuffer, read_at}
use rapidapp.RingBuffer.Laws.{
  Inv, contents, length-contents, datalen_lem, recycle_lem, consume, consume-Inv,
  take-contents-consume,
}
use rapidapp.Socket.{
  TcpSocketUtil, PkgParser, normal, whole_pkg, pkg_len, is_whole, has_new_pkg, peek_pkg,
  peek_from_recv_q, pop_pkg, pop_from_recv_q,
}
use rapidapp.Socket.Flow.{IsValid, Flow}

pub pkg_len_lem :
    (parser : PkgParser) (b : RingBuffer)
    → Inv b
    → pkg_len parser b ≡ done (whole_pkg (parser (contents b)) (pos (b.end - b.begin)))
unfolding pkg_len read_at
pkg_len_lem parser b v = ground (arith, datalen_lem b v)

-- A length that is accepted is positive and not more than what waits.
whole_pkg-some :
    (len : ℤ) (waiting n : ℕ)
    → whole_pkg len (pos waiting) ≡ some n
    → (len ≡ pos n) × (0 < n) × (n ≤ waiting)
unfolding whole_pkg
whole_pkg-some (pos k) waiting n h = ground arith
whole_pkg-some (negsuc k) waiting n h = ground arith

whole_pkg-none :
    (len : ℤ) (waiting n : ℕ)
    → whole_pkg len (pos waiting) ≡ none
    → len ≡ pos n
    → (n ≡ 0) ⊎ (waiting < n)
unfolding whole_pkg
whole_pkg-none len waiting n h e = ground arith

-- The receive buffer begins with a whole packet of `n` bytes.
abbrev pub HasPacket : PkgParser → TcpSocketUtil → ℕ → Type 0
HasPacket parser s n =
    (parser (contents s.recv_buf) ≡ pos n) × (0 < n) × (n ≤ length (contents s.recv_buf))

pub peek_packet :
    (now n : ℕ) (s : TcpSocketUtil)
    → IsValid s
    → n ≤ s.recv_buf.end - s.recv_buf.begin
    → peek_pkg now s (some n)
      ≡ done
          (normal, some (take n (contents s.recv_buf)), record s { last_response_timestamp = now })
unfolding peek_pkg read_at
peek_packet now n s v h = ground (
  arith,
  v.recv_ok,
  take-take n (s.recv_buf.end - s.recv_buf.begin) (drop s.recv_buf.begin s.recv_buf.buff),
)

popped : ℕ → TcpSocketUtil → TcpSocketUtil
popped n s = record s { recv_buf = consume n s.recv_buf }

pop_Flow :
    (n : ℕ) (s : TcpSocketUtil)
    → IsValid s
    → n ≤ s.recv_buf.end - s.recv_buf.begin
    → Flow s (popped n s) [] [] [] (take n (contents s.recv_buf))
unfolding popped
pop_Flow n s v h = record {
  valid = record { send_ok = v.send_ok; recv_ok = consume-Inv n s.recv_buf v.recv_ok h };
  outgoing = append-nil (contents s.send_buf);
  incoming = rw append-nil (sym (take-contents-consume n s.recv_buf v.recv_ok h));
  parser_kept = refl;
}

module _ (parser : PkgParser) (s : TcpSocketUtil) where
  -- What the three calls answer where a packet waits: it is reported, shown as the first `n` bytes,
  -- and taken away.
  pub record Whole (now n : ℕ) : Type 0 where
    pub packet : HasPacket parser s n
    pub reported : has_new_pkg s ≡ done (true, s)
    pub shown :
        peek_from_recv_q now s
        ≡ done (
          normal,
          some (take n (contents s.recv_buf)),
          record s { last_response_timestamp = now },
        )
    pub after : TcpSocketUtil
    pub taken : pop_from_recv_q s ≡ done (normal, after)
    pub flow : Flow s after [] [] [] (take n (contents s.recv_buf))

  -- Where none waits: nothing is reported or shown, and no byte is lost.
  pub record Partial (now : ℕ) : Type 0 where
    pub no_packet : (n : ℕ) → ¬ HasPacket parser s n
    pub reported : has_new_pkg s ≡ done (false, s)
    pub shown : peek_from_recv_q now s ≡ done (normal, none, s)
    pub after : TcpSocketUtil
    pub taken : pop_from_recv_q s ≡ done (normal, after)
    pub flow : Flow s after [] [] [] []

  whole :
      (now n : ℕ)
      → IsValid s
      → s.tcp_pkg_parser_imp ≡ some parser
      → whole_pkg (parser (contents s.recv_buf)) (pos (s.recv_buf.end - s.recv_buf.begin)) ≡ some n
      → Whole now n
  unfolding has_new_pkg peek_from_recv_q pop_from_recv_q is_whole pop_pkg popped
  whole now n v p e =
      let len = pkg_len_lem parser s.recv_buf v.recv_ok in
      let (a, b, c) =
        whole_pkg-some (parser (contents s.recv_buf)) (s.recv_buf.end - s.recv_buf.begin) n e in
      record {
        packet = (a, b, rw (length-contents s.recv_buf v.recv_ok) c);
        reported = ground (arith, len);
        shown = ground (arith, len, peek_packet now n s v c);
        after = popped n s;
        taken = ground (arith, len);
        flow = pop_Flow n s v c;
      }

  partial :
      (now : ℕ)
      → IsValid s
      → s.tcp_pkg_parser_imp ≡ some parser
      → whole_pkg (parser (contents s.recv_buf)) (pos (s.recv_buf.end - s.recv_buf.begin)) ≡ none
      → Partial now
  unfolding has_new_pkg peek_from_recv_q pop_from_recv_q is_whole pop_pkg peek_pkg
  partial now v p e =
      let len = pkg_len_lem parser s.recv_buf v.recv_ok in
      let (b, eq, ok, _, _, same) = recycle_lem s.recv_buf v.recv_ok in
      let s' = record s { recv_buf = b } in
      record {
        no_packet = λ n h. ground (
          arith,
          length-contents s.recv_buf v.recv_ok,
          whole_pkg-none (parser (contents s.recv_buf)) (s.recv_buf.end - s.recv_buf.begin) n e h.0,
        );
        reported = ground (arith, len);
        shown = ground (arith, len);
        after = s';
        taken = ground (arith, len, eq);
        flow = record {
          valid = record { send_ok = v.send_ok; recv_ok = ok };
          outgoing = append-nil (contents s.send_buf);
          incoming = rw (append-nil, same) refl;
          parser_kept = refl;
        };
      }

  -- On a valid socket, for every parser: either the buffer begins with a whole packet, and then it
  -- is reported, shown and taken away, or it does not, and then all bytes stay.
  pub packets :
      (now : ℕ)
      → IsValid s
      → s.tcp_pkg_parser_imp ≡ some parser
      → ((n : ℕ) × Whole now n) ⊎ Partial now
  packets now v p =
      elim (Option-cases
        (whole_pkg (parser (contents s.recv_buf)) (pos (s.recv_buf.end - s.recv_buf.begin)))) [
          | inl e ↦ inr (partial now v p e)
          | inr (n, e) ↦ inl (n, whole now n v p e)
        ]
