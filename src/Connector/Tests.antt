-- ===== src/Connector/Tests.antt =====
-- The theorems about the connector at a server with one client and one back end.
use rapidapp.Base.{
  ℕ, ◌≡◌, ◌≢◌, refl, Bool, false, ==_refl, true, none, some, List, [], ◌∷◌, ◌++◌, success, failure,
  inl, inr, ◌==◌, if◌then◌else◌, arith, ◌↔◌,
}
use rapidapp.Base.Run.{done, fault, ◌>>=◌}
use rapidapp.Net.{net_connecting, find}
use rapidapp.Connector.State.{Server, state_init, state_auth, state_synack, state_ok}
use rapidapp.Connector.Session.{take_back_end, start_msg}
use rapidapp.Connector.Sends.{framed}
use rapidapp.Connector.Clients.{Client}
use rapidapp.Connector.Steps.{Reached}
use rapidapp.Connector.Handshake.{handshake_completes, handshake_frames}
use rapidapp.Connector.Forward.{stale_is_dropped}
use rapidapp.Connector.Sequence.{all_pass, all_pass_iff, Numbered}
use rapidapp.Connector.Dangling.{stop_notify_faults, first_answer_faults}
use rapidapp.Connector.{on_recv_front_end, on_recv_back_end, front_end_round}
use rapidapp.Connector.Example.{
  read_cs, plain, plain-NeverEmpty, client_net, back_net, session_in, server_with, all_work,
  none_work, new_client, ready_client, Client-of, back_end_of, table_of,
}
use rapidapp.Net.Add.{Places}
use rapidapp.Connector.Accepted.{accepted_is_new_client, first_session}
use rapidapp.Connector.Events.{Accepts, on_accept}
use rapidapp.Net.{EasyNet}
use rapidapp.Connector.Refused.{out_of_turn_is_refused, wrong_session_is_closed}
use rapidapp.Connector.Unreachable.{ready_without_back_end, closed_connection_is_counted}

abbrev waiting_client : Server
waiting_client = server_with (session_in state_synack 0 2) all_work

-- The back end is still being connected.
abbrev early_client : Server
early_client = record (server_with (session_in state_auth 0 1) all_work) {
  heap = record {
    nets = λ a.
        if a == 1
        then some client_net
        else if a == 2
        then some (record back_net { state = net_connecting })
        else none;
    contexts = λ a. if a == 100 then some (session_in state_auth 0 1) else none;
  };
}

found_7 : find 7 ((7, 1) ∷ []) ≡ some 1
unfolding find
found_7 = refl

abbrev hello : List ℕ
hello = 13124 ∷ 1 ∷ 1 ∷ []

abbrev auth : List ℕ
auth = 13124 ∷ 2 ∷ 3 ∷ []

abbrev ack : List ℕ
ack = 13379 ∷ 1 ∷ 2 ∷ 7 ∷ 3 ∷ 42 ∷ []

handshake_completes_example :
    (s' : Server) × ((on_recv_front_end plain 1 hello new_client >>= λ r.
    on_recv_front_end plain 1 auth r.1 >>= λ r. on_recv_back_end plain ack r.1)
      ≡ done (success, s'))
    × Client s' 1 100 7 client_net (session_in state_ok 42 2)
    × (s'.sent ≡ [] ++ handshake_frames plain plain-NeverEmpty 7 9 3 0)
unfolding take_back_end find
handshake_completes_example =
    handshake_completes plain plain-NeverEmpty new_client 1 100 7 2 9 client_net back_net
      (session_in state_init 0 0) hello auth ack
      (Client-of (session_in state_init 0 0) all_work refl refl) (λ i. refl) refl (refl, inl refl)
      (refl, inr refl) refl (back_end_of (session_in state_init 0 0) all_work) (λ e. omega arith)
      refl refl refl

-- The client's data, numbered 6 after 5.
abbrev up_data : List ℕ
up_data = 13124 ∷ 6 ∷ 16 ∷ 104 ∷ 105 ∷ []

-- The same data for the connection that was on socket 7 before.
abbrev stale_data : List ℕ
stale_data = 13379 ∷ 8 ∷ 5 ∷ 7 ∷ 2 ∷ 42 ∷ 111 ∷ 107 ∷ []

stale_is_dropped_example :
    on_recv_back_end plain stale_data ready_client ≡ done (failure, ready_client)
unfolding find
stale_is_dropped_example =
    stale_is_dropped plain plain-NeverEmpty ready_client 1 client_net stale_data refl refl
      (λ e. omega arith)

all_pass_iff_example :
    (all_pass 100 (read_cs up_data ∷ []) ready_client ≡ done true)
    ↔ Numbered 5 (read_cs up_data ∷ [])
all_pass_iff_example =
    all_pass_iff 100 (read_cs up_data ∷ []) ready_client (session_in state_ok 42 5) refl

-- The back end stops the session.
abbrev stop : List ℕ
stop = 13379 ∷ 1 ∷ 4 ∷ 7 ∷ 3 ∷ 42 ∷ []

stop_notify_faults_example : on_recv_back_end plain stop ready_client ≡ fault
stop_notify_faults_example =
    stop_notify_faults plain plain-NeverEmpty ready_client 1 100 7 client_net
      (session_in state_ok 42 5) stop (Client-of (session_in state_ok 42 5) all_work refl refl)
      (table_of (session_in state_ok 42 5) all_work) refl refl refl refl

first_answer_faults_example :
    on_recv_front_end plain 1 hello (server_with (session_in state_init 0 0) none_work) ≡ fault
first_answer_faults_example =
    first_answer_faults plain plain-NeverEmpty (server_with (session_in state_init 0 0) none_work) 1
      100 7 client_net (session_in state_init 0 0) hello
      (Client-of (session_in state_init 0 0) none_work refl refl)
      (table_of (session_in state_init 0 0) none_work) refl (refl, inl refl) refl

ready_without_back_end_example :
    (s' : Server) × (on_recv_front_end plain 1 (13124 ∷ 3 ∷ 99 ∷ []) waiting_client
      ≡ done (none, s'))
    × Reached waiting_client s' 1 100 7 client_net
        (session_in state_ok 0 3)
        (framed 7 (plain.cs_bytes start_msg))
        waiting_client.back_ends
ready_without_back_end_example =
    ready_without_back_end plain plain-NeverEmpty waiting_client 1 100 7 client_net
      (session_in state_synack 0 2) (13124 ∷ 3 ∷ 99 ∷ [])
      (Client-of (session_in state_synack 0 2) all_work refl refl) (λ i. refl) refl (refl, inr refl)

closed_connection_is_counted_example : front_end_round plain 1 auth early_client ≡ fault
unfolding take_back_end
closed_connection_is_counted_example =
    closed_connection_is_counted plain plain-NeverEmpty early_client 1 100 7 2 9 client_net
      (record back_net { state = net_connecting }) (session_in state_auth 0 1) auth
      (record {
        established = record { alive = refl; socket = refl; state = refl };
        context = refl;
        session = refl;
        stub = refl;
        frame = refl;
      })
      (record { found = found_7; cursor = λ e. cc }) (λ i. refl) refl (refl, inr refl) refl refl
      refl refl

-- A message numbered 9 where 6 is due.
abbrev late_data : List ℕ
late_data = 13124 ∷ 9 ∷ 16 ∷ 104 ∷ []

out_of_turn_is_refused_example :
    on_recv_front_end plain 1 late_data ready_client ≡ done (some failure, ready_client)
out_of_turn_is_refused_example =
    out_of_turn_is_refused plain ready_client 1 100 7 client_net (session_in state_ok 42 5)
      late_data (Client-of (session_in state_ok 42 5) all_work refl refl) (λ e. omega (arith, e))

-- Data under session number 43.
abbrev other_session : List ℕ
other_session = 13379 ∷ 8 ∷ 5 ∷ 7 ∷ 3 ∷ 43 ∷ 111 ∷ []

wrong_session_is_closed_example :
    (s' : Server) × (on_recv_back_end plain other_session ready_client ≡ done (failure, s'))
    × (s'.heap.nets 1 ≡ none)
    × (s'.heap.contexts 100 ≡ none)
    × (s'.sent ≡ ready_client.sent)
wrong_session_is_closed_example =
    wrong_session_is_closed plain ready_client 1 100 7 client_net (session_in state_ok 42 5)
      other_session (Client-of (session_in state_ok 42 5) all_work refl refl)
      (table_of (session_in state_ok 42 5) all_work) refl refl refl (inr (λ e. omega arith))

-- A second client comes, on the socket 8.
abbrev in_front : List (ℕ × ℕ) → ℕ × ℕ → List (ℕ × ℕ) × Bool
in_front pool e = (e ∷ pool, false)

in_front-Places : Places in_front
unfolding find
in_front-Places pool fd net absent d =
    ((absent, d), rw (==_refl fd) refl, λ k ne. rw (not_equal fd k ne) refl)
  where
    not_equal : (fd k : ℕ) → k ≢ fd → (fd == k) ≡ false
    not_equal fd k ne = ground arith

abbrev second : Accepts
second = record { new_net = some 5; new_event = true; place = in_front; new_context = some 200 }

accepted_is_new_client_example :
    (s' : Server) × (n : EasyNet) × (on_accept second 4 8 ready_client ≡ done (success, s'))
    × Client s' 5 200 8 n (first_session 5)
    × (n.nid ≡ 4)
    × (find 8 s'.frontends.handler_pool ≡ some 5)
    × (s'.sent ≡ [])
    × ((k : ℕ)
        → k ≢ 8
        → find k s'.frontends.handler_pool ≡ find k ready_client.frontends.handler_pool)
    × ((b : ℕ) → b ≢ 5 → s'.heap.nets b ≡ ready_client.heap.nets b)
unfolding find
accepted_is_new_client_example =
    accepted_is_new_client second 4 8 5 200 ready_client in_front-Places (refl, tt) refl refl refl
      refl
