-- ===== src/ClientApi/Opening.antt =====
-- `Start` on a new client, where the system gives it memory and a socket.
use rapidapp.Base.{
  ℕ, ◌^◌, ◌<◌, ◌≡◌, refl, ◌∙◌, ap, true, false, some, List, [], ◌∷◌, replicate, length-replicate, ℤ,
  pos, success, arith, ltb_ℤ,
}
use rapidapp.Base.Run.{done}
use rapidapp.RingBuffer.{malloc}
use rapidapp.RingBuffer.Laws.{Inv}
use rapidapp.Wire.{get_pkg_len}
use rapidapp.Socket.{
  TcpSocketUtil, net_connected, net_connecting, normal, init, init_buffers, connect_nonblock,
}
use rapidapp.Socket
use rapidapp.Socket.Online.{Online, size}
use rapidapp.ClientApi.State.{
  session_state_tcp_syning, ClientProtocol, Settings, new_client, on_get_settings,
}
use rapidapp.ClientApi.Protocol.{start, start_on}

-- The socket after `Init` with `n` bytes.
abbrev opened_socket : ℕ → TcpSocketUtil → TcpSocketUtil
opened_socket n s = record s {
  tcp_pkg_parser_imp = some get_pkg_len;
  send_buf = record s.send_buf { buff = replicate n 0; buff_size = n };
  recv_buf = record s.recv_buf { buff = replicate n 0; buff_size = n };
}

init-works :
    (n : ℕ) (s : TcpSocketUtil)
    → 0 < n
    → init (true, true) (some get_pkg_len) n s ≡ (normal, opened_socket n s)
unfolding init init_buffers malloc
init-works n s h = ground arith

pub empty-Inv :
    (n : ℕ) → n < 2 ^ 31 → Inv (record { buff_size = n; buff = replicate n 0; begin = 0; end = 0 })
empty-Inv n h = record {
  ordered = omega arith;
  within = omega arith;
  backed = length-replicate n 0;
  small = h;
}

abbrev dialling : ℤ → List ℕ → TcpSocketUtil → TcpSocketUtil
dialling opened url s = record s { fd = opened; socket_state = net_connecting; url = url }

connect-works :
    (opened : ℤ) (url : List ℕ) (s : TcpSocketUtil)
    → ltb_ℤ opened (pos 0) ≡ false
    → connect_nonblock opened url s ≡ (normal, dialling opened url s)
unfolding connect_nonblock
connect-works opened url s h = ground arith

-- A client that has its settings, waits for its connection, and has buffers of 2 MB with nothing in
-- them; the listener was asked once.
pub record Opened (set : Settings) (c : ClientProtocol) : Type 0 where
  pub listens : c.protocol_event_listener ≡ true
  pub in_state : c.session_state ≡ session_state_tcp_syning
  pub valid : ltb_ℤ c.tcp_sock.fd (pos 0) ≡ false
  pub online : Online (record c.tcp_sock { socket_state = net_connected }) 0
  pub first : c.seqno ≡ 1
  pub appid : c.appid ≡ set.appid
  pub openid : c.openid ≡ set.openid
  pub token : c.token ≡ set.token
  pub asked : c.told ≡ on_get_settings ∷ []

-- The client after `Start`, with buffers of `n` bytes.
abbrev pub dialled : ℕ → ℤ → Settings → ClientProtocol
dialled n opened set = record new_client {
  protocol_event_listener = true;
  appid = set.appid;
  openid = set.openid;
  token = set.token;
  encrypt_mode = set.encrypt_mode;
  auth_type = set.auth_type;
  server_uri = set.server_uri;
  tcp_sock = dialling opened set.server_uri (opened_socket n Socket.new);
  session_state = session_state_tcp_syning;
  told = on_get_settings ∷ [];
}

dialled-Opened :
    (n : ℕ) (opened : ℤ) (set : Settings)
    → n ≡ size
    → ltb_ℤ opened (pos 0) ≡ false
    → Opened set (dialled n opened set)
unfolding new_client Socket.new
dialled-Opened n opened set e h = record {
  listens = refl;
  in_state = refl;
  valid = h;
  online = record {
    valid = record { send_ok = empty-Inv n (omega arith); recv_ok = empty-Inv n (omega arith) };
    connected = refl;
    parser = refl;
    unsent = refl;
    drained = refl;
    send_size = e;
    unread = refl;
    stored = refl;
    recv_size = e;
  };
  first = refl;
  appid = refl;
  openid = refl;
  token = refl;
  asked = refl;
}

start_on_dials :
    (n : ℕ) (opened : ℤ) (set : Settings)
    → ltb_ℤ opened (pos 0) ≡ false
    → start_on opened set new_client (normal, opened_socket n Socket.new)
      ≡ done (success, dialled n opened set)
unfolding start_on new_client
start_on_dials n opened set h =
    rw (connect-works opened set.server_uri (opened_socket n Socket.new) h) refl

-- `Start` on a new client leads there, if the system gives it memory and a socket.
pub start_ready :
    (opened : ℤ) (set : Settings)
    → ltb_ℤ opened (pos 0) ≡ false
    → (start (true, true) opened (some set) new_client ≡ done (success, dialled size opened set))
      × Opened set (dialled size opened set)
unfolding start new_client
start_ready opened set h = (
  ap (start_on opened set new_client) (init-works size Socket.new (omega arith))
      ∙ start_on_dials size opened set h,
  dialled-Opened size opened set refl h,
)
