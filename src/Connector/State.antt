-- ===== src/Connector/State.antt =====
-- The connector's data: the messages of client.proto and server.proto as far as it reads or writes
-- them, the session of connector_session.h, the set of back ends, and the server around them.
use rapidapp.Base.{ℕ, Bool, true, false, Option, none, some, List, [], ℤ, negsuc, ◌^◌, ◌-◌}
use rapidapp.Net.{Heap, NetHandlerMgr, store}

pub data SessionState : Type 0 where
  state_init : SessionState
  state_auth : SessionState
  state_syning : SessionState
  state_synack : SessionState
  state_ok : SessionState

abbrev pub is_state : SessionState → SessionState → Bool
is_state state_init state_init = true
is_state state_auth state_auth = true
is_state state_syning state_syning = true
is_state state_synack state_synack = true
is_state state_ok state_ok = true
is_state _ _ = false

-- `frame_stub` says whether the pointer is set; there is one framework.
pub record ConnectorSession : Type 0 where
  pub state : SessionState
  pub net_stub : Option ℕ
  pub channel_id : ℤ
  pub sid : ℕ
  pub frame_stub : Bool
  pub last_seq : ℕ

-- The constructor: -1 for a `uint32_t` is its largest value.
unfoldable pub new_session : ConnectorSession
new_session = record {
  state = state_init;
  net_stub = none;
  channel_id = negsuc 0;
  sid = 2 ^ 32 - 1;
  frame_stub = false;
  last_seq = 0;
}

-- A message between client and connector; `syn` holds the names of the application and of the user,
-- `error` its code and description. Sequences are the 64 bits of an `int64`.
pub record CsMsg : Type 0 where
  pub magic : ℕ
  pub sequence : ℕ
  pub bodyid : ℕ
  pub secretkey : Option (List ℕ)
  pub passport : Option ℕ
  pub start : Option ℕ
  pub syn : Option (List ℕ × List ℕ)
  pub auth : Option (List ℕ)
  pub error : Option (ℤ × List ℕ)
  pub data_bytes : Option (List ℕ)

abbrev pub magic_cs_v1 : ℕ
magic_cs_v1 = 13124

abbrev pub cs_syn : ℕ
cs_syn = 1

abbrev pub cs_synack : ℕ
cs_synack = 2

abbrev pub cs_authentication : ℕ
cs_authentication = 3

abbrev pub cs_passport : ℕ
cs_passport = 4

abbrev pub cs_start_app : ℕ
cs_start_app = 5

abbrev pub cs_data_transparent : ℕ
cs_data_transparent = 16

abbrev pub cs_error : ℕ
cs_error = 100

-- A message between connector and back end, with the session that it is about.
pub record SsMsg : Type 0 where
  pub magic : ℕ
  pub sequence : ℕ
  pub bodyid : ℕ
  pub fd : ℕ
  pub nid : ℕ
  pub sid : ℕ
  pub data_bytes : Option (List ℕ)
  pub syn : Option ℕ
  pub ack : Option ℕ
  pub fin : Option ℕ

abbrev pub magic_ss_v1 : ℕ
magic_ss_v1 = 13379

abbrev pub ss_syn : ℕ
ss_syn = 1

abbrev pub ss_ack : ℕ
ss_ack = 2

abbrev pub ss_fin : ℕ
ss_fin = 4

abbrev pub ss_data : ℕ
ss_data = 5

-- A field of type `bytes` that is not there reads as empty.
unfoldable pub bytes_of : Option (List ℕ) → List ℕ
bytes_of none = []
bytes_of (some bytes) = bytes

-- Protocol buffers: what a message is written as, and what bytes are parsed into. The connector does
-- not look at the result of `ParseFromArray`.
pub record Codec : Type 0 where
  pub cs_bytes : CsMsg → List ℕ
  pub parse_cs : List ℕ → CsMsg
  pub ss_bytes : SsMsg → List ℕ
  pub parse_ss : List ℕ → SsMsg

-- An entry of `backends` is a pointer, null where none was added.
pub record BackEndSet : Type 0 where
  pub backends : ℕ → Option ℕ
  pub backend_pos : ℕ
  pub backend_used : ℕ

-- `write_results` are the outcomes of the writes to come, `sent` the socket and the bytes of those
-- that went well, the earliest first.
pub record Server : Type 0 where
  pub heap : Heap ConnectorSession
  pub frontends : NetHandlerMgr
  pub back_ends : BackEndSet
  pub write_results : ℕ → Bool
  pub sent : List (ℕ × List ℕ)
  pub now : ℕ

unfoldable pub put_session : ℕ → ConnectorSession → Server → Server
put_session c x s = record s {
  heap = record s.heap { contexts = store c (some x) s.heap.contexts };
}
