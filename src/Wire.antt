-- ===== src/Wire.antt =====
-- Messages on a TCP stream: a 32-bit length in network order, which counts its own four bytes, and
-- the message. `EasyNet::Send` (framework/rapidapp_easy_net.cpp) and `SerializeAndSendToPeer`
-- (server/connector/client_api/connector_client_api_imp.cpp) write it; `GetMsgLength` and the loops
-- of `OnFrontEndMsg` and `OnBackEndMsg` (framework/rapidapp_framework_imp.{h,cpp}) read it, and so
-- does `ConnectorPkgParser` of the client.
pub mod Codec
pub mod Frames
pub mod Loop
mod Tests
use rapidapp.Base.{
  ℕ, zero, suc, ◌+◌, ◌-◌, ◌*◌, ◌/◌, ◌%◌, ◌^◌, Bool, true, false, ◌||◌, List, [], ◌∷◌, ◌++◌, length,
  take, drop, ℤ, pos, to_int, to_size, sub64, ltb, leb, ◌==◌, if◌then◌else◌, Option, none, some,
}
use rapidapp.Base.Run.{Run, done, exhausted, ◌>>=◌}

-- `htonl` of a `uint32_t`, as the bytes in memory.
unfoldable pub htonl : ℕ → List ℕ
htonl n = n / 2 ^ 24 % 256 ∷ n / 2 ^ 16 % 256 ∷ n / 2 ^ 8 % 256 ∷ n % 256 ∷ []

-- `ntohl` of the four bytes at the front.
unfoldable pub ntohl : List ℕ → ℕ
ntohl (a ∷ b ∷ c ∷ d ∷ rest) = a * 2 ^ 24 + b * 2 ^ 16 + c * 2 ^ 8 + d
ntohl _ = 0

-- A message with its length field. The length is a `size_t` cut to 32 bits.
unfoldable pub frame : List ℕ → List ℕ
unfolding htonl
frame msg = htonl ((length msg + 4) % 2 ^ 32) ++ msg

-- `GetMsgLength`: its `int` result becomes the `size_t` that the loops compare.
unfoldable pub get_msg_length : List ℕ → ℕ
get_msg_length buff = if ltb (length buff) 4 then 0 else to_size (to_int (ntohl buff))

-- `ConnectorPkgParser::GetPkgLen`
unfoldable pub get_pkg_len : List ℕ → ℤ
unfolding ntohl
get_pkg_len buf = if leb (length buf) 4 then pos 0 else to_int (ntohl buf)

-- What follows a message: the next one, or a closed connection.
pub data Next (S : Type 0) : Type 0 where
  go_on : S → Next S
  close : S → Next S

-- What the loop does with that: it goes on, or the whole function returns -1 and drains nothing.
unfoldable pub resume : {S : Type 0} → (S → Run (Option ℕ × S)) → Next S → Run (Option ℕ × S)
resume rest (go_on s) = rest s
resume rest (close s) = done (none, s)

-- The loop of `OnFrontEndMsg` and `OnBackEndMsg` over the bytes copied out, from `elapsed_msglen`
-- on. `on_msg` is handed the place and the size of a message in the buffer.
unfoldable pub dispatch :
    {S : Type 0} → ℕ → (ℕ → ℕ → S → Run (Next S)) → List ℕ → ℕ → S → Run (Option ℕ × S)
unfolding resume
dispatch zero on_msg buf elapsed s = exhausted
dispatch (suc fuel) on_msg buf elapsed s = elim (ltb elapsed (length buf)) [
  | false ↦ done (some elapsed, s)
  | true ↦
      let msglen = get_msg_length (drop elapsed buf) in
      elim (msglen == 0 || ltb (length buf - elapsed) msglen) [
        | true ↦ done (some elapsed, s)
        | false ↦ on_msg (elapsed + 4) (sub64 msglen 4) s >>= λ n.
            resume (λ s'. dispatch fuel on_msg buf (elapsed + msglen) s') n
      ]
]

-- `evbuffer_drain`, and what the connection's input holds then.
unfoldable pub drain : {S : Type 0} → List ℕ → Option ℕ × S → List ℕ × S
drain input (none, s) = (input, s)
drain input (some n, s) = (drop n input, s)

-- A message event whose connection is known: as much of the input as the receive buffer takes is
-- copied out and walked. Every round uses up a byte at least, and one more round ends the loop.
unfoldable pub on_input :
    {S : Type 0} → ℕ → (List ℕ → ℕ → ℕ → S → Run (Next S)) → List ℕ → S → Run (List ℕ × S)
unfolding drain
on_input recv_buff_size on_msg input s =
    let buf = take recv_buff_size input in
    dispatch (suc (length buf)) (on_msg buf) buf 0 s >>= λ r. done (drain input r)
