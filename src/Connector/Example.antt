-- ===== src/Connector/Example.antt =====
-- A server with one client and one back end, and a way to write messages.
use rapidapp.Base.{
  ℕ, ◌≡◌, refl, Bool, true, false, Option, none, some, List, [], ◌∷◌, negsuc, pos, ◌==◌,
  if◌then◌else◌,
}
use rapidapp.Net.{EasyNet, at_end, net_established, find}
use rapidapp.Connector.State.{
  Server, ConnectorSession, SessionState, state_init, state_ok, CsMsg, SsMsg, Codec,
}
use rapidapp.Connector.Sends.{Established}
use rapidapp.Connector.Clients.{Client}
use rapidapp.Connector.Steps.{NeverEmpty}
use rapidapp.Connector.Dangling.{InTable}

-- Messages as their numbers one after another.
abbrev pub read_cs : List ℕ → CsMsg
read_cs (magic ∷ sequence ∷ bodyid ∷ rest) = record {
  magic = magic;
  sequence = sequence;
  bodyid = bodyid;
  secretkey = none;
  passport = none;
  start = none;
  syn = none;
  auth = none;
  error = none;
  data_bytes = some rest;
}
read_cs _ = record {
  magic = 0;
  sequence = 0;
  bodyid = 0;
  secretkey = none;
  passport = none;
  start = none;
  syn = none;
  auth = none;
  error = none;
  data_bytes = none;
}

abbrev pub read_ss : List ℕ → SsMsg
read_ss (magic ∷ sequence ∷ bodyid ∷ fd ∷ nid ∷ sid ∷ rest) = record {
  magic = magic;
  sequence = sequence;
  bodyid = bodyid;
  fd = fd;
  nid = nid;
  sid = sid;
  data_bytes = some rest;
  syn = none;
  ack = none;
  fin = none;
}
read_ss _ = record {
  magic = 0;
  sequence = 0;
  bodyid = 0;
  fd = 0;
  nid = 0;
  sid = 0;
  data_bytes = none;
  syn = none;
  ack = none;
  fin = none;
}

abbrev pub bytes_in : Option (List ℕ) → List ℕ
bytes_in none = []
bytes_in (some bytes) = bytes

abbrev pub plain : Codec
plain = record {
  cs_bytes = λ m. m.magic ∷ m.sequence ∷ m.bodyid ∷ bytes_in m.data_bytes;
  parse_cs = read_cs;
  ss_bytes = λ m. m.magic ∷ m.sequence ∷ m.bodyid ∷ m.fd ∷ m.nid ∷ m.sid ∷ bytes_in m.data_bytes;
  parse_ss = read_ss;
}

pub plain-NeverEmpty : NeverEmpty plain
plain-NeverEmpty = (λ m e. cc, λ m e. cc)

-- The client: socket 7, number 3, context at 100. The back end: socket 9, number 1.
abbrev pub client_net : EasyNet
client_net = record {
  hevent = some 7;
  net_type = pos 0;
  nid = 3;
  state = net_established;
  last_active_timestamp = 0;
  prev_pkg_count = 0;
  curr_pkg_count = 0;
  prev_traffic_bytes = 0;
  curr_traffic_bytes = 0;
  user_context = some 100;
}

abbrev pub back_net : EasyNet
back_net = record {
  hevent = some 9;
  net_type = pos 0;
  nid = 1;
  state = net_established;
  last_active_timestamp = 0;
  prev_pkg_count = 0;
  curr_pkg_count = 0;
  prev_traffic_bytes = 0;
  curr_traffic_bytes = 0;
  user_context = none;
}

abbrev pub session_in : SessionState → ℕ → ℕ → ConnectorSession
session_in state sid last_seq = record {
  state = state;
  net_stub = some 1;
  channel_id = negsuc 0;
  sid = sid;
  frame_stub = true;
  last_seq = last_seq;
}

abbrev pub server_with : ConnectorSession → (ℕ → Bool) → Server
server_with x writes = record {
  heap = record {
    nets = λ a. if a == 1 then some client_net else if a == 2 then some back_net else none;
    contexts = λ a. if a == 100 then some x else none;
  };
  frontends = record { handler_pool = (7, 1) ∷ []; it_cursor = at_end };
  back_ends = record {
    backends = λ i. if i == 0 then some 2 else none;
    backend_pos = 1;
    backend_used = 1;
  };
  write_results = writes;
  sent = [];
  now = 1000;
}

abbrev pub all_work : ℕ → Bool
all_work i = true

abbrev pub none_work : ℕ → Bool
none_work i = false

abbrev pub new_client : Server
new_client = server_with (session_in state_init 0 0) all_work

abbrev pub ready_client : Server
ready_client = server_with (session_in state_ok 42 5) all_work

pub Client-of :
    (x : ConnectorSession) (writes : ℕ → Bool)
    → x.net_stub ≡ some 1
    → x.frame_stub ≡ true
    → Client (server_with x writes) 1 100 7 client_net x
Client-of x writes stub frame = record {
  established = record { alive = refl; socket = refl; state = refl };
  context = refl;
  session = refl;
  stub = stub;
  frame = frame;
}

pub back_end_of :
    (x : ConnectorSession) (writes : ℕ → Bool) → Established (server_with x writes) 2 9 back_net
back_end_of x writes = record { alive = refl; socket = refl; state = refl }

pub table_of : (x : ConnectorSession) (writes : ℕ → Bool) → InTable (server_with x writes) 1 7
unfolding find
table_of x writes = record { found = refl; cursor = λ e. cc }
