-- ===== src/Connector/Clients.antt =====
-- A client whose connection and session are in place, and what a step leaves of them.
use rapidapp.Base.{
  ℕ, ◌%◌, ◌^◌, ◌≡◌, ◌≢◌, ◌∙◌, true, false, not, ◌&&◌, ◌||◌, some, List, [], ◌++◌, success, arith,
  append_assoc, ◌⊎◌, add64, ◌==◌,
}
use rapidapp.Base.Run.{done}
use rapidapp.Net.{EasyNet}
use rapidapp.Net.Release.{store_at, store_other}
use rapidapp.Connector.Frame.{get_net_ids}
use rapidapp.Connector.State.{
  Server, ConnectorSession, SessionState, CsMsg, Codec, put_session, magic_cs_v1,
}
use rapidapp.Connector.Session.{
  set_state, then_state, serialize_and_send_to_front_end, destroy_unless_sent,
  check_up_side_message,
}
use rapidapp.Connector.Sends.{
  Established, AllWork, sent_on, framed, marked, send_to_front_end-works,
}

pub record Client (s : Server) (net c fd : ℕ) (n : EasyNet) (x : ConnectorSession) : Type 0 where
  pub established : Established s net fd n
  pub context : n.user_context ≡ some c
  pub session : s.heap.contexts c ≡ some x
  pub stub : x.net_stub ≡ some net
  pub frame : x.frame_stub ≡ true

-- The session of a client is written over.
pub put_session-Client :
    (s : Server) (net c fd : ℕ) (n : EasyNet) (x x' : ConnectorSession)
    → Client s net c fd n x
    → x'.net_stub ≡ some net
    → x'.frame_stub ≡ true
    → Client (put_session c x' s) net c fd n x'
unfolding put_session
put_session-Client s net c fd n x x' k p q = record {
  established = record {
    alive = k.established.alive;
    socket = k.established.socket;
    state = k.established.state;
  };
  context = k.context;
  session = store_at c (some x') s.heap.contexts;
  stub = p;
  frame = q;
}

pub sent_on-Client :
    (s : Server) (net c fd : ℕ) (n : EasyNet) (x : ConnectorSession) (to : ℕ) (bytes : List ℕ)
    → Client s net c fd n x
    → Client (sent_on to bytes s) net c fd n x
sent_on-Client s net c fd n x to bytes k = record {
  established = record {
    alive = k.established.alive;
    socket = k.established.socket;
    state = k.established.state;
  };
  context = k.context;
  session = k.session;
  stub = k.stub;
  frame = k.frame;
}

pub sent-sent_on :
    (s : Server) (to : ℕ) (bytes : List ℕ) → (sent_on to bytes s).sent ≡ s.sent ++ framed to bytes
sent-sent_on s to bytes = append_assoc s.sent _ _

pub serialize_and_send-works :
    (codec : Codec) (s : Server) (net c fd : ℕ) (n : EasyNet) (x : ConnectorSession) (msg : CsMsg)
    → Client s net c fd n x
    → AllWork s
    → codec.cs_bytes msg ≢ []
    → serialize_and_send_to_front_end codec c msg s
      ≡ done (success, sent_on fd (codec.cs_bytes msg) s)
unfolding serialize_and_send_to_front_end destroy_unless_sent
serialize_and_send-works codec s net c fd n x msg k w ne = rw (
  k.session,
  k.stub,
  k.frame,
  send_to_front_end-works s net fd n (codec.cs_bytes msg) k.established w ne,
)

-- A state is set.
pub then_state-works :
    (s : Server) (net c fd : ℕ) (n : EasyNet) (x : ConnectorSession) (state : SessionState)
    → Client s net c fd n x
    → then_state c state (success, s) ≡ done (success, put_session c (record x { state = state }) s)
unfolding then_state set_state
then_state-works s net c fd n x state k = rw k.session

-- The sequence that a session takes next: any as long as it has seen only zero, then one more.
abbrev pub Expected : ConnectorSession → CsMsg → Type 0
Expected x m = (m.magic ≡ magic_cs_v1) × ((x.last_seq ≡ 0) ⊎ (m.sequence ≡ add64 x.last_seq 1))

expected_test :
    (magic seq last : ℕ)
    → magic ≡ magic_cs_v1
    → (last ≡ 0) ⊎ (seq ≡ add64 last 1)
    → (not (magic == magic_cs_v1) || (not (last == 0) && not (seq == add64 last 1))) ≡ false
expected_test magic seq last h k = ground arith

pub check-works :
    (s : Server) (net c fd : ℕ) (n : EasyNet) (x : ConnectorSession) (m : CsMsg)
    → Client s net c fd n x
    → Expected x m
    → check_up_side_message c m s
      ≡ done (success, put_session c (record x { last_seq = m.sequence }) s)
unfolding check_up_side_message
check-works s net c fd n x m k (h, e) =
    rw (k.session, expected_test m.magic m.sequence x.last_seq h e)

-- Another connection is marked active.
pub marked-Client :
    (s : Server) (net c fd : ℕ) (n : EasyNet) (x : ConnectorSession) (back : ℕ) (nb : EasyNet)
    → Client s net c fd n x
    → net ≢ back
    → Client (marked back nb s) net c fd n x
marked-Client s net c fd n x back nb k ne = record {
  established = record {
    alive =
        store_other back net (some (record nb { last_active_timestamp = s.now })) s.heap.nets ne
        ∙ k.established.alive;
    socket = k.established.socket;
    state = k.established.state;
  };
  context = k.context;
  session = k.session;
  stub = k.stub;
  frame = k.frame;
}

-- The two numbers by which a back end knows a client.
pub get_net_ids-Client :
    (s : Server) (net c fd : ℕ) (n : EasyNet) (x : ConnectorSession)
    → Client s net c fd n x
    → get_net_ids x.net_stub s ≡ done (fd % 2 ^ 32, n.nid)
unfolding get_net_ids
get_net_ids-Client s net c fd n x k = rw (k.stub, k.established.alive, k.established.socket)
