-- ===== src/Connector/Accepted.antt =====
-- A client that is accepted gets a connection in the table and a new session.
use rapidapp.Base.{ℕ, ◌≡◌, ◌≢◌, refl, ◌∙◌, ap, Bool, true, none, some, List, pos, success, ==_refl}
use rapidapp.Base.Run.{done, ◌>>=◌}
use rapidapp.Net.{EasyNet, NetHandlerMgr, store, find, init, add_handler_to_map}
use rapidapp.Net.Release.{store_at, store_other}
use rapidapp.Net.Pool.{Distinct}
use rapidapp.Net.Add.{Places}
use rapidapp.Connector.State.{Server, ConnectorSession, new_session, put_session}
use rapidapp.Connector.Frame.{get_user_context}
use rapidapp.Connector.Clients.{Client}
use rapidapp.Connector.{on_front_end_connect}
use rapidapp.Connector.Events.{Accepts, blank_session, with_context, create_context, on_accept}

-- The session after `OnFrontEndConnect`.
abbrev pub first_session : ℕ → ConnectorSession
first_session net = record new_session { net_stub = some net; frame_stub = true }

abbrev first_net : (fd nid c now : ℕ) → EasyNet
first_net fd nid c now = record (init fd (pos 0) nid) {
  user_context = some c;
  last_active_timestamp = now;
}

added_pool :
    (place : List (ℕ × ℕ) → ℕ × ℕ → List (ℕ × ℕ) × Bool) (fd net : ℕ) (m : NetHandlerMgr)
    → find fd m.handler_pool ≡ none
    → (add_handler_to_map place fd net m).handler_pool ≡ (place m.handler_pool (fd, net)).0
unfolding add_handler_to_map
added_pool place fd net m h = rw (add_handler_to_map, h) refl

connects :
    (net c : ℕ) (n : EasyNet) (s : Server)
    → s.heap.nets net ≡ some n
    → n.user_context ≡ some c
    → (x : ConnectorSession) → s.heap.contexts c ≡ some x
    → on_front_end_connect (some net) s ≡ done (success, put_session c (first_session net) s)
unfolding on_front_end_connect get_user_context
connects net c n s h u x k = rw (h, u, k) refl

accepts :
    (a : Accepts) (nid fd net c : ℕ) (s : Server)
    → a.new_net ≡ some net
    → a.new_event ≡ true
    → a.new_context ≡ some c
    → (s1 : Server) × (on_accept a nid fd s ≡ done (success, put_session c (first_session net) s1))
      × (s1.heap.nets net ≡ some (first_net fd nid c s.now))
      × (s1.frontends ≡ add_handler_to_map a.place fd net s.frontends)
      × (s1.sent ≡ s.sent)
      × ((b : ℕ) → b ≢ net → s1.heap.nets b ≡ s.heap.nets b)
unfolding on_accept create_context with_context
accepts a nid fd net c s e1 e2 e3 =
    let s1 : Server = record s {
      heap = record {
        nets =
            store net (some (first_net fd nid c s.now))
              (store net (some (init fd (pos 0) nid)) s.heap.nets);
        contexts = store c (some blank_session) s.heap.contexts;
      };
      frontends = add_handler_to_map a.place fd net s.frontends;
    } in
    let there : s1.heap.nets net ≡ some (first_net fd nid c s.now) = rw (==_refl net) refl in
    (
      s1,
      rw (e1, e2, e3, ==_refl net)
          (ap (λ m. m >>= (λ r. done (success, r.1)))
            (connects net c (first_net fd nid c s.now) s1 there refl blank_session
              (store_at c (some blank_session) s.heap.contexts))),
      there,
      refl,
      refl,
      λ b ne.
          store_other net b (some (first_net fd nid c s.now))
            (store net (some (init fd (pos 0) nid)) s.heap.nets) ne
          ∙ store_other net b (some (init fd (pos 0) nid)) s.heap.nets ne,
    )

-- An accepted client, on a socket that is not in the table, which has each socket once: its
-- connection has the number that is next, its socket leads to it, its context holds a new session
-- that knows the connection, and nothing is sent. Every other socket leads where it did, and every
-- other connection is as it was. This supposes that the memory and the bufferevent are had, and
-- that the hash table holds what is put in.
pub accepted_is_new_client :
    (a : Accepts) (nid fd net c : ℕ) (s : Server)
    → Places a.place
    → Distinct s.frontends.handler_pool
    → find fd s.frontends.handler_pool ≡ none
    → a.new_net ≡ some net
    → a.new_event ≡ true
    → a.new_context ≡ some c
    → (s' : Server) × (n : EasyNet) × (on_accept a nid fd s ≡ done (success, s'))
      × Client s' net c fd n (first_session net)
      × (n.nid ≡ nid)
      × (find fd s'.frontends.handler_pool ≡ some net)
      × (s'.sent ≡ s.sent)
      × ((k : ℕ) → k ≢ fd → find k s'.frontends.handler_pool ≡ find k s.frontends.handler_pool)
      × ((b : ℕ) → b ≢ net → s'.heap.nets b ≡ s.heap.nets b)
unfolding put_session init
accepted_is_new_client a nid fd net c s places d absent e1 e2 e3 =
    let (s1, run, alive, table, quiet, kept) = accepts a nid fd net c s e1 e2 e3 in
    let (_, found, others) = places s.frontends.handler_pool fd net absent d in
    let pool = ap (λ m. m.handler_pool) table ∙ added_pool a.place fd net s.frontends absent in
    (
      put_session c (first_session net) s1,
      first_net fd nid c s.now,
      run,
      record {
        established = record { alive = alive; socket = refl; state = refl };
        context = refl;
        session = store_at c (some (first_session net)) s1.heap.contexts;
        stub = refl;
        frame = refl;
      },
      refl,
      ap (find fd) pool ∙ found,
      quiet,
      λ k ne. ap (find k) pool ∙ others k ne,
      kept,
    )
