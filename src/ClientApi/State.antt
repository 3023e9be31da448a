-- ===== src/ClientApi/State.antt =====
-- The state of `ConnectorClientProtocolImp` (server/connector/client_api/connector_client_api_imp.h)
-- and the codes of connector_client_api.h. sdk/connector_client_api_imp.{h,cpp} are copies.
use rapidapp.Base.{ℕ, Bool, false, none, List, [], ◌++◌, ◌∷◌, ℤ, pos, negsuc}
use rapidapp.Socket.{TcpSocketUtil, Sent, Received}
use rapidapp.Socket
use rapidapp.Connector.State.{CsMsg, magic_cs_v1}

pub data ClientState : Type 0 where
  session_state_inited : ClientState
  session_state_tcp_syning : ClientState
  session_state_key_syning : ClientState
  session_state_authing : ClientState
  session_state_ready : ClientState
  session_state_done : ClientState
  session_state_fini : ClientState

abbrev pub is_done : ClientState → Bool
is_done session_state_done = Bool.true
is_done _ = false

abbrev pub k_max_pkg_size : ℕ
k_max_pkg_size = 1048576

abbrev pub connector_err_no_more_pkg : ℤ
connector_err_no_more_pkg = negsuc 0

-- What `OnGetSettings` fills in.
pub record Settings : Type 0 where
  pub appid : List ℕ
  pub openid : List ℕ
  pub token : List ℕ
  pub encrypt_mode : ℤ
  pub auth_type : ℤ
  pub server_uri : List ℕ

-- A call of the listener, `IProtocolEventListener`.
pub data Notice : Type 0 where
  on_get_settings : Notice
  on_handshake_succeed : Notice
  on_handshake_failed : Notice
  on_server_close : Notice
  on_incoming : Notice

-- `protocol_event_listener` says whether the pointer is set. `told` are the calls of the listener,
-- `wire` the bytes that the system has taken, the earliest first.
pub record ClientProtocol : Type 0 where
  pub protocol_event_listener : Bool
  pub appid : List ℕ
  pub openid : List ℕ
  pub token : List ℕ
  pub server_uri : List ℕ
  pub encrypt_mode : ℤ
  pub auth_type : ℤ
  pub encrypt_skey : List ℕ
  pub passport : ℕ
  pub tcp_sock : TcpSocketUtil
  pub session_state : ClientState
  pub seqno : ℕ
  pub up_msg : CsMsg
  pub down_msg : CsMsg
  pub told : List Notice
  pub wire : List ℕ

-- A message with the default values of its fields.
unfoldable pub empty_msg : CsMsg
empty_msg = record {
  magic = magic_cs_v1;
  sequence = 0;
  bodyid = 0;
  secretkey = none;
  passport = none;
  start = none;
  syn = none;
  auth = none;
  error = none;
  data_bytes = none;
}

-- The constructor. `NOT_ENCRYPT` and `NONE_AUTHENTICATION` are 0.
unfoldable pub new_client : ClientProtocol
unfolding Socket.new empty_msg
new_client = record {
  protocol_event_listener = false;
  appid = [];
  openid = [];
  token = [];
  server_uri = [];
  encrypt_mode = pos 0;
  auth_type = pos 0;
  encrypt_skey = [];
  passport = 0;
  tcp_sock = Socket.new;
  session_state = session_state_inited;
  seqno = 1;
  up_msg = empty_msg;
  down_msg = empty_msg;
  told = [];
  wire = [];
}

unfoldable pub tell : Notice → ClientProtocol → ClientProtocol
tell notice c = record c { told = c.told ++ (notice ∷ []) }

-- What the system answers in one call of the client: to `connect`, to the check of a connection
-- that is being made, to `recv` and to `send`; and the time.
pub record Answers : Type 0 where
  pub opened : ℤ
  pub checked : ℤ
  pub recv_answer : Received
  pub send_answer : Sent
  pub now : ℕ
