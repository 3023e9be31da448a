-- ===== src/Socket.antt =====
-- `TcpSocketUtil` of utils/tsocket_util.{h,cpp}: a TCP socket with a send and a receive buffer, of
-- which sdk/tsocket_util.{h,cpp} are copies. What the operating system answers is an argument of
-- each call. A byte string stands for a pointer and a length, and `none` for a null pointer.
pub mod Flow
pub mod Online
pub mod Sending
pub mod Receiving
pub mod Vectors
pub mod Stream
pub mod Packets
mod Tests
use rapidapp.Base.{
  ℕ, suc, ◌+◌, ◌-◌, Bool, true, false, ◌&&◌, ◌||◌, not, Option, none, some, List, [], ◌∷◌, ◌++◌,
  length, take, ℤ, pos, negsuc, failure, ltb_ℤ, eqb_ℤ, to_int, to_size, pos_part, ltb, ◌==◌,
  if◌then◌else◌,
}
use rapidapp.Base.Run.{Run, done, fault, ◌>>=◌}
use rapidapp.RingBuffer.{RingBuffer, read_at, malloc, free, avaiable, datalen, recycle, append}
use rapidapp.RingBuffer

pub data NetState : Type 0 where
  net_inited net_connecting net_connected net_send_failed net_recv_failed : NetState
  net_peer_closed net_assert_fail : NetState

-- The return codes.
abbrev pub normal : ℤ
normal = pos 0

abbrev pub invld_argument : ℤ
invld_argument = negsuc 0

abbrev pub malloc_failed : ℤ
malloc_failed = negsuc 2

abbrev pub send_buff_full : ℤ
send_buff_full = negsuc 49

abbrev pub connect_failed : ℤ
connect_failed = negsuc 100

abbrev pub not_connected : ℤ
not_connected = negsuc 101

abbrev pub send_failed : ℤ
send_failed = negsuc 200

abbrev pub send_uncompleted : ℤ
send_uncompleted = negsuc 201

abbrev pub recv_failed : ℤ
recv_failed = negsuc 300

abbrev pub peer_closed : ℤ
peer_closed = negsuc 301

abbrev pub assert_failed : ℤ
assert_failed = negsuc 999

-- `ITcpPkgParser::GetPkgLen`, of the bytes that it is shown.
abbrev pub PkgParser : Type 0
PkgParser = List ℕ → ℤ

pub record TcpSocketUtil : Type 0 where
  pub socket_state : NetState
  pub url : List ℕ
  pub fd : ℤ
  pub last_request_timestamp : ℕ
  pub last_response_timestamp : ℕ
  pub tcp_pkg_parser_imp : Option PkgParser
  pub send_buf : RingBuffer
  pub recv_buf : RingBuffer

unfoldable pub new : TcpSocketUtil
unfolding RingBuffer.new
new = record {
  socket_state = net_inited;
  url = [];
  fd = failure;
  last_request_timestamp = 0;
  last_response_timestamp = 0;
  tcp_pkg_parser_imp = none;
  send_buf = RingBuffer.new;
  recv_buf = RingBuffer.new;
}

-- What `send` and `recv` answer: no room or no data now, another error, the number of bytes taken,
-- the bytes received (none when the peer has closed).
pub data Sent : Type 0 where
  send_would_block send_error : Sent
  sent : ℕ → Sent

pub data Received : Type 0 where
  recv_would_block recv_error : Received
  received : List ℕ → Received

-- The two allocations of `Init`, with what `calloc` answers.
unfoldable pub init_buffers : Bool × Bool → ℕ → TcpSocketUtil → ℤ × TcpSocketUtil
init_buffers (false, second) buff_size s =
    (malloc_failed, record s { send_buf = (malloc false buff_size s.send_buf).1 })
init_buffers (true, second) buff_size s =
    let b = record ((malloc true buff_size s.send_buf).1) { buff_size = buff_size } in
    let r = (malloc second buff_size s.recv_buf).1 in
    if second
    then (normal, record s { send_buf = b; recv_buf = record r { buff_size = buff_size } })
    else (malloc_failed, record s { send_buf = free b; recv_buf = r })

unfoldable pub init : Bool × Bool → Option PkgParser → ℕ → TcpSocketUtil → ℤ × TcpSocketUtil
init allocs none buff_size s = (invld_argument, s)
init allocs (some parser) buff_size s =
    if buff_size == 0
    then (invld_argument, s)
    else init_buffers allocs buff_size (record s { tcp_pkg_parser_imp = some parser })

unfoldable pub reset : TcpSocketUtil → TcpSocketUtil
reset s = record s {
  last_request_timestamp = 0;
  last_response_timestamp = 0;
  send_buf = record (s.send_buf) { begin = 0; end = 0 };
  recv_buf = record (s.recv_buf) { begin = 0; end = 0 };
  socket_state = net_inited;
}

-- `Close` gives the descriptor back and resets.
unfoldable pub close : TcpSocketUtil → TcpSocketUtil
unfolding reset
close s =
    reset
      (record s { fd = if ltb_ℤ s.fd (pos 0) then s.fd else failure; socket_state = net_inited })

unfoldable pub fini : TcpSocketUtil → TcpSocketUtil
unfolding close
fini s = close (record s { recv_buf = free s.recv_buf; send_buf = free s.send_buf })

-- `opened` is the answer of `tcpsocket_connect_nonblock`.
unfoldable pub connect_nonblock : ℤ → List ℕ → TcpSocketUtil → ℤ × TcpSocketUtil
connect_nonblock opened url s =
    if ltb_ℤ opened (pos 0)
    then (connect_failed, record s { fd = opened })
    else (normal, record s { fd = opened; socket_state = net_connecting; url = url })

-- `checked` is the answer of `tcpsocket_check_connect`.
unfoldable pub check_nonblock : ℤ → TcpSocketUtil → ℤ × TcpSocketUtil
unfolding close
check_nonblock checked s =
    if ltb_ℤ s.fd (pos 0)
    then (assert_failed, record s { socket_state = net_assert_fail })
    else if eqb_ℤ checked (pos 0)
    then (normal, record s { socket_state = net_connected })
    else if ltb_ℤ checked (pos 0)
    then (connect_failed, close s)
    else (normal, s)

-- `opened` is the answer of `tcpsocket_connect`.
unfoldable pub connect : ℤ → Option (List ℕ) → TcpSocketUtil → ℤ × TcpSocketUtil
connect opened none s = (invld_argument, s)
connect opened (some url) s =
    if ltb_ℤ opened (pos 0)
    then (connect_failed, record s { fd = opened })
    else (normal, record s { fd = opened; socket_state = net_connected; url = url })

-- A call that moves bytes: its code, the bytes that the system took or gave, the new state.
abbrev pub Transfer : Type 0
Transfer = Run (ℤ × List ℕ × TcpSocketUtil)

-- `begin += len; Recycle_ATOMIC()`
unfoldable pub advance : ℕ → TcpSocketUtil → Run TcpSocketUtil
advance len s = recycle (record (s.send_buf) { begin = s.send_buf.begin + len }) >>= λ b.
    done (record s { send_buf = b })

-- What `Send` does with the answer of `send` for the waiting bytes.
unfoldable pub after_send : Sent → List ℕ → TcpSocketUtil → Transfer
after_send send_would_block bytes s = done (send_uncompleted, [], s)
after_send send_error bytes s = done (send_failed, [], record s { socket_state = net_send_failed })
after_send (sent len) bytes s =
    if len == 0
    then done (normal, [], s)
    else advance len s >>= (λ s'.
      done (if ltb len (length bytes) then send_uncompleted else normal, take len bytes, s'))

-- `Send` on a connection in a state in which it sends.
unfoldable pub send_waiting : Sent → TcpSocketUtil → Transfer
send_waiting answer s =
    let n = datalen s.send_buf in
    if ltb_ℤ n (pos 0)
    then done (assert_failed, [], record s { socket_state = net_assert_fail })
    else if eqb_ℤ n (pos 0)
    then done (normal, [], s)
    else read_at s.send_buf.buff s.send_buf.begin (pos_part n)
      >>= (λ bytes. after_send answer bytes s)

unfoldable pub send_in : NetState → Sent → TcpSocketUtil → Transfer
send_in net_assert_fail answer s = done (assert_failed, [], s)
send_in net_send_failed answer s = done (normal, [], s)
send_in net_connected answer s = send_waiting answer s
send_in net_recv_failed answer s = send_waiting answer s
send_in net_peer_closed answer s = send_waiting answer s
send_in _ answer s = done (not_connected, [], s)

unfoldable pub send : Sent → TcpSocketUtil → Transfer
send answer s = send_in s.socket_state answer s

-- What `Recv` does with the answer of `recv`; the middle part of the result is what was received.
unfoldable pub after_recv : Received → TcpSocketUtil → Transfer
after_recv recv_would_block s = done (normal, [], s)
after_recv recv_error s = done (recv_failed, [], record s { socket_state = net_recv_failed })
after_recv (received []) s = done (peer_closed, [], record s { socket_state = net_peer_closed })
after_recv (received (c ∷ bytes)) s =
    append (c ∷ bytes) s.recv_buf >>= λ b. done (normal, c ∷ bytes, record s { recv_buf = b })

-- Where no room is left, `Recv` makes some.
unfoldable pub recv_recycled : Received → TcpSocketUtil → Transfer
recv_recycled answer s = recycle s.recv_buf >>= λ b.
    if eqb_ℤ (avaiable b) (pos 0)
    then done (normal, [], record s { recv_buf = b })
    else after_recv answer (record s { recv_buf = b })

unfoldable pub recv_room : Received → TcpSocketUtil → Transfer
recv_room answer s =
    let n = avaiable s.recv_buf in
    if ltb_ℤ n (pos 0)
    then done (assert_failed, [], record s { socket_state = net_assert_fail })
    else if eqb_ℤ n (pos 0)
    then recv_recycled answer s
    else after_recv answer s

unfoldable pub recv_in : NetState → Received → TcpSocketUtil → Transfer
recv_in net_assert_fail answer s = done (assert_failed, [], s)
recv_in net_recv_failed answer s = done (normal, [], s)
recv_in net_peer_closed answer s = done (normal, [], s)
recv_in net_connected answer s = recv_room answer s
recv_in net_send_failed answer s = recv_room answer s
recv_in _ answer s = done (not_connected, [], s)

unfoldable pub recv : Received → TcpSocketUtil → Transfer
recv answer s = recv_in s.socket_state answer s

unfoldable pub push_to_send_q : (now : ℕ) → List ℕ → TcpSocketUtil → Run (ℤ × TcpSocketUtil)
push_to_send_q now buf s =
    if ltb_ℤ (avaiable s.send_buf) (to_int (length buf))
    then done (send_buff_full, s)
    else append buf s.send_buf
      >>= (λ b. done (normal, record s { send_buf = b; last_request_timestamp = now }))

-- The two loops of `PushvToSendQ`: an entry with no base or no length is passed over.
unfoldable pub total_len : List (Option (List ℕ)) → ℕ
total_len [] = 0
total_len (none ∷ iov) = total_len iov
total_len (some bytes ∷ iov) = length bytes + total_len iov

unfoldable pub pushv : List (Option (List ℕ)) → RingBuffer → Run RingBuffer
pushv [] b = done b
pushv (none ∷ iov) b = pushv iov b
pushv (some [] ∷ iov) b = pushv iov b
pushv (some (c ∷ bytes) ∷ iov) b = append (c ∷ bytes) b >>= λ b'. pushv iov b'

-- The argument of null stands for an empty vector: both are refused.
unfoldable pub pushv_to_send_q :
    (now : ℕ) → List (Option (List ℕ)) → TcpSocketUtil → Run (ℤ × TcpSocketUtil)
pushv_to_send_q now [] s = done (invld_argument, s)
pushv_to_send_q now (e ∷ iov) s =
    if ltb_ℤ (avaiable s.send_buf) (to_int (total_len (e ∷ iov)))
    then done (send_buff_full, s)
    else pushv (e ∷ iov) s.send_buf
      >>= (λ b. done (normal, record s { send_buf = b; last_request_timestamp = now }))

-- The length that the parser reports of the waiting bytes, if they begin with a whole packet.
unfoldable pub whole_pkg : ℤ → ℤ → Option ℕ
whole_pkg len waiting =
    if ltb_ℤ (pos 0) len && not (ltb_ℤ waiting len) then some (pos_part len) else none

unfoldable pub pkg_len : PkgParser → RingBuffer → Run (Option ℕ)
pkg_len parser b = read_at b.buff b.begin (to_size (datalen b)) >>= λ bytes.
    done (whole_pkg (parser bytes) (datalen b))

unfoldable pub is_whole : TcpSocketUtil → Option ℕ → Bool × TcpSocketUtil
is_whole s none = (false, s)
is_whole s (some n) = (true, s)

unfoldable pub has_new_pkg : TcpSocketUtil → Run (Bool × TcpSocketUtil)
has_new_pkg s = elim s.tcp_pkg_parser_imp [
  | none ↦ done (false, record s { socket_state = net_assert_fail })
  | some parser ↦ pkg_len parser s.recv_buf >>= λ len. done (is_whole s len)
]

unfoldable pub peek_pkg : ℕ → TcpSocketUtil → Option ℕ → Run (ℤ × Option (List ℕ) × TcpSocketUtil)
peek_pkg now s none = done (normal, none, s)
peek_pkg now s (some n) = read_at s.recv_buf.buff s.recv_buf.begin n >>= λ bytes.
    done (normal, some bytes, record s { last_response_timestamp = now })

-- The caller's two out arguments are valid pointers; a packet is returned as its bytes.
unfoldable pub peek_from_recv_q :
    (now : ℕ) → TcpSocketUtil → Run (ℤ × Option (List ℕ) × TcpSocketUtil)
peek_from_recv_q now s = elim s.tcp_pkg_parser_imp [
  | none ↦ done (assert_failed, none, record s { socket_state = net_assert_fail })
  | some parser ↦ pkg_len parser s.recv_buf >>= peek_pkg now s
]

unfoldable pub pop_pkg : TcpSocketUtil → Option ℕ → Run (ℤ × TcpSocketUtil)
pop_pkg s none = recycle s.recv_buf >>= λ b. done (normal, record s { recv_buf = b })
pop_pkg s (some n) =
    done (normal, record s { recv_buf = record (s.recv_buf) { begin = s.recv_buf.begin + n } })

unfoldable pub pop_from_recv_q : TcpSocketUtil → Run (ℤ × TcpSocketUtil)
pop_from_recv_q s = elim s.tcp_pkg_parser_imp [
  | none ↦ done (assert_failed, record s { socket_state = net_assert_fail })
  | some parser ↦ pkg_len parser s.recv_buf >>= pop_pkg s
]
