-- ===== src/Connector.antt =====
-- server/connector/connector_session.{h,cpp} and connector_app.{h,cpp}: the server that takes clients
-- through a handshake and passes messages between them and the back ends. What it calls of
-- `AppFrameWork` (framework/rapidapp_framework_imp.cpp) is in Connector/Frame, the session in
-- Connector/Session, the application's callbacks here, after `OnInit`: the framework is set.
pub mod State
pub mod Frame
pub mod Session
pub mod Sequence
pub mod RoundRobin
pub mod Sends
pub mod Clients
pub mod Steps
pub mod Handshake
pub mod Forward
pub mod Dangling
pub mod Unreachable
pub mod Refused
pub mod Events
pub mod Inputs
pub mod Accepted
pub mod Example
mod Tests
use rapidapp.Base.{
  ℕ, zero, suc, ◌+◌, ◌%◌, ◌^◌, Bool, true, false, not, ◌&&◌, Option, none, some, List, [], ◌∷◌, ℤ,
  pos, success, failure, ltb_ℤ, eqb_ℤ, ◌==◌, if◌then◌else◌, take, drop, add64,
}
use rapidapp.Base.Run.{Run, done, fault, exhausted, ◌>>=◌, deref}
use rapidapp.Wire.{Next, go_on, close}
use rapidapp.Net.{EasyNet, Heap, NetHandlerMgr, store, get_handler_by_async_ids}
use rapidapp.Connector.State.{
  SessionState, state_init, state_syning, state_synack, state_ok, is_state, ConnectorSession,
  Server, Codec, CsMsg, SsMsg, cs_data_transparent, ss_data, ss_fin, bytes_of, put_session,
  new_session,
}
use rapidapp.Connector.Frame.{destroy_front_end, get_user_context}
use rapidapp.Connector.Session.{
  drive_state_machine, forward_up_side_message, forward_down_side_message, check_up_side_message,
  set_sid,
}

-- `OnFrontEndConnect`: the session is constructed in the user context and initialised.
unfoldable pub on_front_end_connect : Option ℕ → Server → Run (ℤ × Server)
unfolding get_user_context put_session new_session
on_front_end_connect none s = done (failure, s)
on_front_end_connect (some net) s = get_user_context (some net) s >>= λ u. elim u [
  | none ↦ done (failure, s)
  | some c ↦ deref (s.heap.contexts c) >>= λ _.
      done
        (success, put_session c (record new_session { net_stub = some net; frame_stub = true }) s)
]

-- `OnFrontEndClose`: no back end is told (`StopBackEndSession` has none to tell), and the session
-- starts over.
unfoldable pub on_front_end_close : Option ℕ → Server → Run (ℤ × Server)
unfolding get_user_context put_session
on_front_end_close none s = done (failure, s)
on_front_end_close (some net) s = get_user_context (some net) s >>= λ u. elim u [
  | none ↦ done (failure, s)
  | some c ↦ deref (s.heap.contexts c) >>= λ x.
      done (success, put_session c (record x { state = state_init }) s)
]

-- The connection is closed if the state machine failed.
unfoldable pub close_if_failed : Option ℕ → ℤ × Server → Run (Bool × Server)
close_if_failed net (r, s) =
    if ltb_ℤ r (pos 0) then destroy_front_end net s >>= (λ s'. done (true, s')) else done (false, s)

module _ (codec : Codec) where
  -- The second step of the state machine, which nobody waits for: a session that is `SYNING` goes
  -- on at once. The function then flows off its end: it returns no value.
  unfoldable pub start_at_once : ℕ → ℕ → Bool × Server → Run (Option ℤ × Server)
  unfolding close_if_failed
  start_at_once net c (true, s) = done (some failure, s)
  start_at_once net c (false, s) = deref (s.heap.contexts c) >>= λ x.
      elim (is_state state_syning x.state) [
        | false ↦ done (none, s)
        | true ↦ drive_state_machine codec c s >>= close_if_failed (some net) >>= λ r.
            done (if r.0 then some failure else none, r.1)
      ]

  -- A message that has passed the check: the handshake goes on, or a ready session forwards it.
  unfoldable pub checked : ℕ → ℕ → CsMsg → ℤ × Server → Run (Option ℤ × Server)
  unfolding start_at_once close_if_failed bytes_of
  checked net c up_msg (r, s) = elim (eqb_ℤ r success) [
    | false ↦ done (some failure, s)
    | true ↦ deref (s.heap.contexts c) >>= λ x. elim (is_state state_ok x.state) [
      | false ↦ drive_state_machine codec c s >>= close_if_failed (some net) >>= start_at_once net c
      | true ↦ elim (up_msg.bodyid == cs_data_transparent) [
        | false ↦ done (some failure, s)
        | true ↦
            forward_up_side_message codec c up_msg.sequence (bytes_of up_msg.data_bytes) s >>= λ r.
            done (some r.0, r.1)
      ]
    ]
  ]

  -- `OnRecvFrontEnd`; `none` for its result is a return without a value.
  unfoldable pub on_recv_front_end : ℕ → List ℕ → Server → Run (Option ℤ × Server)
  unfolding checked
  on_recv_front_end net msg s = get_user_context (some net) s >>= λ u. elim u [
    | none ↦ done (some failure, s)
    | some c ↦
        let up_msg = codec.parse_cs msg in check_up_side_message c up_msg s >>= checked net c up_msg
  ]

  -- A message of the back end that is not data drives the handshake.
  unfoldable pub back_end_drives : ℕ → ℕ → SsMsg → Server → Run (ℤ × Server)
  unfolding close_if_failed
  back_end_drives front c down_msg s =
      drive_state_machine codec c s >>= close_if_failed (some front) >>= λ r. elim r.0 [
        | true ↦ done (failure, r.1)
        | false ↦ set_sid c down_msg.sid r.1 >>= λ s'. done (success, s')
      ]

  unfoldable pub back_end_data : ℕ → ℕ → ConnectorSession → SsMsg → Server → Run (ℤ × Server)
  unfolding bytes_of
  back_end_data front c x down_msg s = elim (is_state state_ok x.state && x.sid == down_msg.sid) [
    | false ↦ destroy_front_end (some front) s >>= λ s'. done (failure, s')
    | true ↦ forward_down_side_message codec c down_msg.sequence (bytes_of down_msg.data_bytes) s
  ]

  unfoldable pub to_session : ℕ → ℕ → SsMsg → Server → Run (ℤ × Server)
  unfolding back_end_drives back_end_data
  to_session front c down_msg s = deref (s.heap.contexts c) >>= λ x.
      elim (down_msg.bodyid == ss_data) [
        | true ↦ back_end_data front c x down_msg s
        | false ↦ elim (not (down_msg.bodyid == ss_fin) && is_state state_ok x.state) [
          | true ↦ done (success, s)
          | false ↦ back_end_drives front c down_msg s
        ]
      ]

  -- `OnRecvBackEnd`, without `_DEBUG`.
  unfoldable pub on_recv_back_end : List ℕ → Server → Run (ℤ × Server)
  unfolding to_session
  on_recv_back_end msg s =
      let down_msg = codec.parse_ss msg in
      get_handler_by_async_ids down_msg.fd down_msg.nid s.heap s.frontends >>= λ f. elim f [
        | none ↦ done (failure, s)
        | some front ↦ get_user_context (some front) s >>= λ u. elim u [
          | none ↦ done (failure, s)
          | some c ↦ to_session front c down_msg s
        ]
      ]

  -- A round of the loop of `OnFrontEndMsg`: the application's call, then `++curr_pkg_count_` of the
  -- connection.
  unfoldable pub front_end_round : ℕ → List ℕ → Server → Run (Next Server)
  front_end_round net msg s = on_recv_front_end net msg s >>= λ r.
      deref (r.1.heap.nets net) >>= λ n. done (
        go_on (record r.1 {
          heap = record r.1.heap {
            nets =
                store net (some (record n { curr_pkg_count = add64 n.curr_pkg_count 1 }))
                  r.1.heap.nets;
          };
        }))
