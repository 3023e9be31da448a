-- ===== src/Socket/Tests.antt =====
-- Runs of a socket with buffers of a few bytes, and the theorems at such inputs.
use rapidapp.Base.{ℕ, ◌≡◌, refl, ◌⊎◌, some, List, [], ◌∷◌, pos, arith}
use rapidapp.Base.Run.{done}
use rapidapp.RingBuffer.{
  RingBuffer, append, write_at, recycle, compacted, read_at, avaiable, datalen,
}
use rapidapp.Socket.{
  TcpSocketUtil, PkgParser, NetState, sent, received, send, recv, push_to_send_q, send_in,
  send_waiting, after_send, advance, peek_from_recv_q, pop_from_recv_q, pkg_len, peek_pkg, pop_pkg,
  whole_pkg, recv_in, recv_room, after_recv,
}
use rapidapp.Socket.Flow.{IsValid}
use rapidapp.Socket.Packets.{Whole, Partial, packets}
use rapidapp.Socket.Stream.{
  Passed, pushes, sends, receives, takes, run, step, Call, AllFit, run_streams, Flows,
}

-- The first byte is the length of the packet.
first_byte : PkgParser
first_byte [] = pos 0
first_byte (n ∷ bytes) = pos n

abbrev half_full : RingBuffer
half_full = record { buff_size = 6; buff = 9 ∷ 2 ∷ 5 ∷ 3 ∷ 0 ∷ 0 ∷ []; begin = 1; end = 4 }

abbrev connected : TcpSocketUtil
connected = record {
  socket_state = NetState.net_connected;
  url = [];
  fd = pos 3;
  last_request_timestamp = 0;
  last_response_timestamp = 0;
  tcp_pkg_parser_imp = some first_byte;
  send_buf = half_full;
  recv_buf = half_full;
}

connected-IsValid : IsValid connected
connected-IsValid = omega arith

packets_example : ((n : ℕ) × Whole first_byte connected 50 n) ⊎ Partial first_byte connected 50
packets_example = packets first_byte connected 50 connected-IsValid refl

abbrev history : List Call
history = pushes (7 ∷ []) ∷ sends (sent 3) ∷ takes ∷ receives (received (4 ∷ [])) ∷ []

history-AllFit : AllFit 50 history connected
unfolding step push_to_send_q send send_in send_waiting after_send advance append write_at recycle
    compacted read_at avaiable datalen peek_from_recv_q pop_from_recv_q pkg_len peek_pkg pop_pkg
    whole_pkg first_byte recv recv_in recv_room after_recv
history-AllFit = omega arith

run_streams_example :
    (p : Passed) × (s' : TcpSocketUtil) × (run 50 history connected ≡ done (p, s'))
    × Flows connected p s'
run_streams_example =
    run_streams 50 history first_byte connected connected-IsValid refl history-AllFit
