-- ===== src/Socket/Flow.antt =====
-- What a call of a socket does to its two buffers: the bytes in them change only as the call's
-- result says.
use rapidapp.Base.{◌∙◌, ℕ, ◌≡◌, sym, ap, List, [], ◌++◌, ℤ, append-nil}
use rapidapp.Base.Run.{done}
use rapidapp.RingBuffer.Laws.{Inv, contents}
use rapidapp.Socket.{TcpSocketUtil, Transfer}

pub record IsValid (s : TcpSocketUtil) : Type 0 where
  pub send_ok : Inv s.send_buf
  pub recv_ok : Inv s.recv_buf

-- The bytes behind what waited are `pushed` and `arrived`; those before what waits now are `wire`
-- and `consumed`.
pub record Flow (s s' : TcpSocketUtil) (pushed wire arrived consumed : List ℕ) : Type 0 where
  pub valid : IsValid s'
  pub outgoing : contents s.send_buf ++ pushed ≡ wire ++ contents s'.send_buf
  pub incoming : contents s.recv_buf ++ arrived ≡ consumed ++ contents s'.recv_buf
  pub parser_kept : s'.tcp_pkg_parser_imp ≡ s.tcp_pkg_parser_imp

pub idle :
    (s s' : TcpSocketUtil)
    → IsValid s
    → s'.send_buf ≡ s.send_buf
    → s'.recv_buf ≡ s.recv_buf
    → s'.tcp_pkg_parser_imp ≡ s.tcp_pkg_parser_imp
    → Flow s s' [] [] [] []
idle s s' v e f p = record {
  valid = record { send_ok = rw e v.send_ok; recv_ok = rw f v.recv_ok };
  outgoing = rw append-nil (ap contents (sym e));
  incoming = rw append-nil (ap contents (sym f));
  parser_kept = p;
}

-- The result of a call that moves bytes.
abbrev pub Moves : Transfer → (List ℕ → TcpSocketUtil → Type 0) → Type 0
Moves r P =
    (ret : ℤ) × (bytes : List ℕ) × (s' : TcpSocketUtil) × (r ≡ done (ret, bytes, s')) × P bytes s'

pub Flow-start :
    (s s₁ s' : TcpSocketUtil) (pushed wire arrived consumed : List ℕ)
    → contents s.send_buf ≡ contents s₁.send_buf
    → contents s.recv_buf ≡ contents s₁.recv_buf
    → s₁.tcp_pkg_parser_imp ≡ s.tcp_pkg_parser_imp
    → Flow s₁ s' pushed wire arrived consumed
    → Flow s s' pushed wire arrived consumed
Flow-start s s₁ s' pushed wire arrived consumed e f k flow = record {
  valid = flow.valid;
  outgoing = rw e flow.outgoing;
  incoming = rw f flow.incoming;
  parser_kept = flow.parser_kept ∙ k;
}
