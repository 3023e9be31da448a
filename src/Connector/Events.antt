-- ===== src/Connector/Events.antt =====
-- The socket events of `AppFrameWork` (framework/rapidapp_framework_imp.cpp) with the connector as its
-- application, which does not bind its back ends to remote procedure calls and is not started as a
-- service of these. A bufferevent is named by its socket; `input` is what it holds.
use rapidapp.Base.{
  ℕ, suc, Bool, true, false, Option, none, some, List, length, take, drop, ℤ, pos, success, failure,
  add64, if◌then◌else◌,
}
use rapidapp.Base.Run.{Run, done, ◌>>=◌, deref}
use rapidapp.Wire.{Next, go_on, dispatch}
use rapidapp.Net.{
  NetState, net_established, net_failed, net_been_closed, NetHandlerMgr, store, init,
  add_handler_to_map, get_handler_by_event, remove_handler_by_event, remove_handler,
  change_net_state_by_event,
}
use rapidapp.Connector.State.{Server, ConnectorSession, state_init, Codec}
use rapidapp.Connector.{on_front_end_connect, on_front_end_close, on_recv_back_end, front_end_round}

-- The flags of an event.
pub record Events : Type 0 where
  pub error : Bool
  pub connected : Bool
  pub timeout : Bool
  pub eof : Bool

-- What an accepted connection meets: the addresses that `new` and `calloc` give, whether the
-- bufferevent is made, and where the table puts the entry.
pub record Accepts : Type 0 where
  pub new_net : Option ℕ
  pub new_event : Bool
  pub place : List (ℕ × ℕ) → ℕ × ℕ → List (ℕ × ℕ) × Bool
  pub new_context : Option ℕ

-- `calloc`ed memory, before the session is constructed in it.
unfoldable pub blank_session : ConnectorSession
blank_session = record {
  state = state_init;
  net_stub = none;
  channel_id = pos 0;
  sid = 0;
  frame_stub = false;
  last_seq = 0;
}

-- `CreateUserContext` and `set_active_time` on a connection that has just been added.
unfoldable pub with_context : ℕ → ℕ → Server → Run (ℤ × Server)
unfolding blank_session
with_context net c s = deref (s.heap.nets net) >>= λ n.
    on_front_end_connect (some net) (record s {
      heap = record {
        nets =
            store net (some (record n { user_context = some c; last_active_timestamp = s.now }))
              s.heap.nets;
        contexts = store c (some blank_session) s.heap.contexts;
      };
    })
    >>= λ r. done (success, r.1)

unfoldable pub create_context : Option ℕ → ℕ → Server → Run (ℤ × Server)
unfolding with_context
create_context none net s = remove_handler (some net) s.heap s.frontends >>= λ r.
    done (failure, record s { heap = r.1; frontends = r.2 })
create_context (some c) net s = with_context net c s

-- `AppFrameWork::OnFrontEndConnect` of a valid socket, with `AddHandlerBySocket` and `Init`; `nid` is
-- the connection's number, the next of `nid_seed`. The uri is only logged, and "address:port" is
-- never too long for it.
unfoldable pub on_accept : Accepts → (nid sock : ℕ) → Server → Run (ℤ × Server)
unfolding create_context
on_accept a nid sock s = elim a.new_net [
  | none ↦ done (failure, s)
  | some net ↦ elim a.new_event [
    | false ↦ done (failure, s)
    | true ↦ create_context a.new_context net (record s {
      heap = record s.heap { nets = store net (some (init sock (pos 0) nid)) s.heap.nets };
      frontends = add_handler_to_map a.place sock net s.frontends;
    })
  ]
]

-- What the loop has done is drained and counted.
unfoldable pub account : ℕ → List ℕ → Option ℕ × Server → Run (ℤ × List ℕ × Server)
account net input (none, s) = done (failure, input, s)
account net input (some elapsed, s) = deref (s.heap.nets net) >>= λ n. done (
  success,
  drop elapsed input,
  record s {
    heap = record s.heap {
      nets =
          store net
            (some (record n {
              curr_traffic_bytes = add64 n.curr_traffic_bytes elapsed;
              last_active_timestamp = s.now;
            }))
            s.heap.nets;
    };
  },
)

-- The connection's socket goes.
unfoldable pub remove_front_end : ℕ → Server → Run (ℤ × Server)
remove_front_end fd s = remove_handler_by_event (some fd) s.heap s.frontends >>= λ r.
    done (success, record s { heap = r.1; frontends = r.2 })

-- After an error: the application is told, and the connection goes.
unfoldable pub front_end_gone : ℕ → Server → Run (ℤ × Server)
unfolding remove_front_end
front_end_gone fd s = elim (get_handler_by_event (some fd) s.frontends) [
  | none ↦ remove_front_end fd s
  | some net ↦ on_front_end_close (some net) s >>= λ r. remove_front_end fd r.1
]

-- At the end of the stream the uri is logged, too, after the application was told.
unfoldable pub front_end_closed : ℕ → Server → Run (ℤ × Server)
unfolding remove_front_end
front_end_closed fd s = elim (get_handler_by_event (some fd) s.frontends) [
  | none ↦ remove_front_end fd s
  | some net ↦ on_front_end_close (some net) s >>= λ r.
      deref (r.1.heap.nets net) >>= λ _. remove_front_end fd r.1
]

-- `AppFrameWork::OnFrontEndSocketEvent`
unfoldable pub on_front_end_socket_event : Events → ℕ → Server → Run (ℤ × Server)
unfolding front_end_gone front_end_closed
on_front_end_socket_event e fd s =
    if e.error
    then front_end_gone fd s
    else if e.timeout
    then done (success, s)
    else if e.eof
    then front_end_closed fd s
    else done (success, s)

unfoldable pub change_back_end : ℕ → NetState → NetHandlerMgr → Server → Run (ℤ × Server)
change_back_end fd state m s = change_net_state_by_event (some fd) state s.heap m >>= λ r.
    done (success, record s { heap = r.1 })

-- `AppFrameWork::OnBackEndSocketEvent`, on the table of back ends.
unfoldable pub on_back_end_socket_event : Events → ℕ → NetHandlerMgr → Server → Run (ℤ × Server)
unfolding change_back_end
on_back_end_socket_event e fd m s =
    if e.error
    then change_back_end fd net_failed m s
    else if e.connected
    then change_back_end fd net_established m s
    else if e.timeout
    then done (success, s)
    else if e.eof
    then change_back_end fd net_been_closed m s
    else done (success, s)

unfoldable pub drained : List ℕ → Option ℕ × Server → Run (ℤ × List ℕ × Server)
drained input (none, s) = done (failure, input, s)
drained input (some elapsed, s) = done (success, drop elapsed input, s)

module _ (codec : Codec) where
  -- `AppFrameWork::OnFrontEndMsg`: the code, the input that is left, the server.
  unfoldable pub on_front_end_msg :
      (recv_buff_size fd : ℕ) → List ℕ → Server → Run (ℤ × List ℕ × Server)
  unfolding account
  on_front_end_msg recv_buff_size fd input s =
      let buf = take recv_buff_size input in
      elim (get_handler_by_event (some fd) s.frontends) [
        | none ↦ done (failure, input, s)
        | some net ↦
            dispatch (suc (length buf))
              (λ off size s. front_end_round codec net (take size (drop off buf)) s) buf 0 s
            >>= account net input
      ]

  unfoldable pub back_end_round : List ℕ → Server → Run (Next Server)
  back_end_round msg s = on_recv_back_end codec msg s >>= λ r. done (go_on r.1)

  -- `AppFrameWork::OnBackEndMsg`
  unfoldable pub on_back_end_msg :
      (recv_buff_size fd : ℕ) → NetHandlerMgr → List ℕ → Server → Run (ℤ × List ℕ × Server)
  unfolding back_end_round drained
  on_back_end_msg recv_buff_size fd m input s =
      let buf = take recv_buff_size input in
      elim (get_handler_by_event (some fd) m) [
        | none ↦ done (failure, input, s)
        | some net ↦
            dispatch (suc (length buf)) (λ off size s. back_end_round (take size (drop off buf)) s)
              buf 0 s
            >>= drained input
      ]
