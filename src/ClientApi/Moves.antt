-- ===== src/ClientApi/Moves.antt =====
-- What the steps of the client leave alone, whatever the system answers and the peer sends.
use rapidapp.Base.{if_case, ℕ, ◌≡◌, refl, not, ◌&&◌, List, ◌++◌, ℤ, eqb_ℤ, ◌==◌}
use rapidapp.Base.Run.{Ensures, Ensures-any}
use rapidapp.Socket.{TcpSocketUtil, normal, send_uncompleted, assert_failed}
use rapidapp.Socket
use rapidapp.Connector.State.{Codec, cs_error}
use rapidapp.ClientApi.State.{ClientProtocol, Answers}
use rapidapp.ClientApi.Protocol.{
  Coded, send_now, if_pushed, serialize_and_send_to_peer, try_to_recv_from_peer_and_parse,
  if_new_pkg, peek_down, pop_down, parse_down, iov_of,
}

-- What a call leaves alone: the state and the calls of the listener; the key; the last message
-- of each side.
abbrev pub Kept : ClientProtocol → ClientProtocol → Type 0
Kept c c' = (c'.session_state ≡ c.session_state) × (c'.told ≡ c.told)

abbrev pub KeptAll : ClientProtocol → ClientProtocol → Type 0
KeptAll c c' =
    Kept c c'
    × (c'.encrypt_skey ≡ c.encrypt_skey)
    × (c'.down_msg ≡ c.down_msg)
    × (c'.up_msg ≡ c.up_msg)

abbrev pub KeepsAll : ClientProtocol → Coded → Type 0
KeepsAll c = Ensures (λ r. KeptAll c r.1)

abbrev pub Keeps : ClientProtocol → Coded → Type 0
Keeps c = Ensures (λ r. Kept c r.1)

all_kept :
    (c : ClientProtocol) (s : TcpSocketUtil) (w : List ℕ)
    → KeptAll c (record c { tcp_sock = s; wire = w })
all_kept c s w = ((refl, refl), refl, refl, refl)

pub send_now-KeepsAll : (answer : Socket.Sent) (c : ClientProtocol) → KeepsAll c (send_now answer c)
unfolding send_now
send_now-KeepsAll answer c = Ensures-any _ (Socket.send answer c.tcp_sock) _ (λ (r, bytes, sock).
    if_case (λ (p : ℤ × ClientProtocol). KeptAll c p.1)
      (not (eqb_ℤ r normal) && not (eqb_ℤ r send_uncompleted)) _ _
      (all_kept c sock (c.wire ++ bytes)) (all_kept c sock (c.wire ++ bytes)))

if_pushed-KeepsAll :
    (answer : Socket.Sent) (c : ClientProtocol) (r : ℤ) (sock : TcpSocketUtil)
    → KeepsAll c (if_pushed answer c (r, sock))
unfolding if_pushed
if_pushed-KeepsAll answer c r sock =
    if_case (KeepsAll c) (eqb_ℤ r normal) _ _
      (send_now-KeepsAll answer (record c { tcp_sock = sock })) (all_kept c sock c.wire)

pop_down-Keeps : (c : ClientProtocol) → Keeps c (pop_down c)
unfolding pop_down
pop_down-Keeps c = Ensures-any _ (Socket.pop_from_recv_q c.tcp_sock) _ (λ (r, sock).
    if_case (λ (p : ℤ × ClientProtocol). Kept c p.1) (eqb_ℤ r assert_failed) _ _ (refl, refl)
      (if_case (λ (p : ℤ × ClientProtocol). Kept c p.1) (c.down_msg.bodyid == cs_error) _ _
        (refl, refl) (refl, refl)))

module _ (codec : Codec) (a : Answers) where
  pub serialize-KeepsAll : (c : ClientProtocol) → KeepsAll c (serialize_and_send_to_peer codec a c)
  unfolding serialize_and_send_to_peer
  serialize-KeepsAll c =
      Ensures-any _ (Socket.pushv_to_send_q a.now (iov_of (codec.cs_bytes c.up_msg)) c.tcp_sock) _
        (λ (r, sock). if_pushed-KeepsAll a.send_answer c r sock)

  peek_down-Keeps : (c : ClientProtocol) → Keeps c (peek_down codec a c)
  unfolding peek_down
  peek_down-Keeps c =
      Ensures-any _ (Socket.peek_from_recv_q a.now c.tcp_sock) _ (λ (r, packet, sock).
        if_case (Keeps c) (eqb_ℤ r assert_failed) _ _ (refl, refl)
          (Ensures-any _ (parse_down codec packet) _
            (λ m. pop_down-Keeps (record c { tcp_sock = sock; down_msg = m }))))

  pub receive-Keeps : (c : ClientProtocol) → Keeps c (try_to_recv_from_peer_and_parse codec a c)
  unfolding try_to_recv_from_peer_and_parse if_new_pkg
  receive-Keeps c = Ensures-any _ (Socket.recv a.recv_answer c.tcp_sock) _ (λ (r, got, sock).
      if_case (Keeps c) (eqb_ℤ r normal) _ _
        (Ensures-any _ (Socket.has_new_pkg sock) _ (λ (has, sock').
          if_case (Keeps c) has _ _ (peek_down-Keeps (record c { tcp_sock = sock' })) (refl, refl)))
        (refl, refl))
