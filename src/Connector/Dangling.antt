-- ===== src/Connector/Dangling.antt =====
-- A session that closes its own connection is freed with it, and is written to afterwards.
use rapidapp.Base.{
  ℕ, suc, ◌≡◌, ◌≢◌, refl, ap, Bool, false, none, some, List, ◌==◌, not, ◌&&◌, arith,
}
use rapidapp.Base.Run.{done, fault, ◌>>=◌}
use rapidapp.Net.{
  EasyNet, Cursor, at, at_end, invalid, find, erase, step_off, remove_handler,
  remove_handler_by_event,
}
use rapidapp.Net.Release.{release_lem}
use rapidapp.Connector.State.{
  Server, ConnectorSession, state_init, state_ok, CsMsg, SsMsg, Codec, put_session, ss_data, ss_fin,
  is_state,
}
use rapidapp.Connector.Frame.{destroy_front_end, get_user_context}
use rapidapp.Connector.Session.{
  destroy_net_stub, destroy_unless_sent, drive_in, hand_shake_on_stop_notify, handle_key_making,
  serialize_and_send_to_front_end, key_msg,
}
use rapidapp.Connector.Sends.{send_to_front_end-fails}
use rapidapp.Connector.Clients.{Client, Expected, put_session-Client}
use rapidapp.Connector.Steps.{async_ids, recv-checks, drive-state, NeverEmpty}
use rapidapp.Connector.{on_recv_front_end, checked, on_recv_back_end, to_session, back_end_drives}

-- The connection is in the table of front ends, and the walk's cursor can be compared.
pub record InTable (s : Server) (net fd : ℕ) : Type 0 where
  pub found : find fd s.frontends.handler_pool ≡ some net
  pub cursor : s.frontends.it_cursor ≢ invalid

step_off-done :
    (fd : ℕ) (pool : List (ℕ × ℕ)) (c : Cursor)
    → c ≢ invalid
    → (c' : Cursor) × (step_off fd pool c ≡ done c')
unfolding step_off
step_off-done fd pool (at k) ne = (_, refl)
step_off-done fd pool at_end ne = (at_end, refl)
step_off-done fd pool invalid ne = absurd (ne refl)

-- `DestroyFrontEnd` on a connection of the table frees its session.
pub destroy-frees :
    (s : Server) (net c fd : ℕ) (n : EasyNet) (x : ConnectorSession)
    → Client s net c fd n x
    → InTable s net fd
    → (s' : Server) × (destroy_front_end (some net) s ≡ done s')
      × (s'.heap.nets net ≡ none)
      × (s'.heap.contexts c ≡ none)
      × (s'.sent ≡ s.sent)
unfolding destroy_front_end remove_handler remove_handler_by_event
destroy-frees s net c fd n x k t =
    let (h', run, r) = release_lem net s.heap n k.established.alive (rw k.context (x, k.session)) in
    let (cur, run2) = step_off-done fd s.frontends.handler_pool s.frontends.it_cursor t.cursor in
    (
      record s {
        heap = h';
        frontends = record { handler_pool = erase fd s.frontends.handler_pool; it_cursor = cur };
      },
      rw (k.established.alive, k.established.socket, remove_handler_by_event, t.found, run, run2),
      r.gone,
      r.context_gone c k.context,
      refl,
    )

destroy_net_stub-faults :
    (s : Server) (net c fd : ℕ) (n : EasyNet) (x : ConnectorSession)
    → Client s net c fd n x
    → InTable s net fd
    → destroy_net_stub c s ≡ fault
unfolding destroy_net_stub
destroy_net_stub-faults s net c fd n x k t =
    let (s', run, _, gone, _) = destroy-frees s net c fd n x k t in
    rw (k.session, k.stub, run, gone)

module _ (codec : Codec) (filled : NeverEmpty codec) where
  drive_stop-faults :
      (s : Server) (net c fd : ℕ) (n : EasyNet) (x : ConnectorSession) (m : SsMsg)
      → Client s net c fd n x
      → InTable s net fd
      → x.state ≡ state_ok
      → back_end_drives codec net c m s ≡ fault
  unfolding back_end_drives drive_in hand_shake_on_stop_notify
  drive_stop-faults s net c fd n x m k t st = rw (
    drive-state codec filled s c x state_ok k.session st,
    k.session,
    k.frame,
    k.stub,
    k.established.alive,
    destroy_net_stub-faults s net c fd n x k t,
  )

  -- When a back end stops a session that is ready, whose connection is in the table and the walk's
  -- cursor valid, the session is used after it was freed.
  pub stop_notify_faults :
      (s : Server) (net c fd : ℕ) (n : EasyNet) (x : ConnectorSession) (msg : List ℕ)
      → Client s net c fd n x
      → InTable s net fd
      → x.state ≡ state_ok
      → (codec.parse_ss msg).fd ≡ fd
      → (codec.parse_ss msg).nid ≡ n.nid
      → (codec.parse_ss msg).bodyid ≡ ss_fin
      → on_recv_back_end codec msg s ≡ fault
  unfolding on_recv_back_end to_session get_user_context
  stop_notify_faults s net c fd n x msg k t st for_fd for_nid fin =
      rw
        (
          async_ids (codec.parse_ss msg).fd (codec.parse_ss msg).nid s net n (rw for_fd t.found)
              k.established.alive for_nid,
          k.established.alive,
          k.context,
          k.session,
          ◌>>=◌,
          not_data (codec.parse_ss msg).bodyid fin,
          not_ignored (codec.parse_ss msg).bodyid (is_state state_ok x.state) fin,
        )
        (drive_stop-faults s net c fd n x (codec.parse_ss msg) k t st)
    where
      not_ignored : (b : ℕ) (ready : Bool) → b ≡ ss_fin → (not (b == ss_fin) && ready) ≡ false
      not_ignored b ready h = ground arith

      not_data : (b : ℕ) → b ≡ ss_fin → (b == ss_data) ≡ false
      not_data b h = ground arith

  serialize-faults :
      (s : Server) (net c fd : ℕ) (n : EasyNet) (x : ConnectorSession) (msg : CsMsg)
      → Client s net c fd n x
      → InTable s net fd
      → s.write_results 0 ≡ false
      → serialize_and_send_to_front_end codec c msg s ≡ fault
  unfolding serialize_and_send_to_front_end destroy_unless_sent
  serialize-faults s net c fd n x msg k t broken =
      let s1 = record s { write_results = λ i. s.write_results (suc i) } in
      rw (
        k.session,
        k.stub,
        k.frame,
        send_to_front_end-fails s net fd n (codec.cs_bytes msg) k.established broken (filled.0 msg),
        destroy_net_stub-faults s1 net c fd n x (after_write s k) (table_after_write s t),
      )
    where
      after_write :
          (s : Server)
          → Client s net c fd n x
          → Client (record s { write_results = λ i. s.write_results (suc i) }) net c fd n x
      after_write s k = record {
        established = record {
          alive = k.established.alive;
          socket = k.established.socket;
          state = k.established.state;
        };
        context = k.context;
        session = k.session;
        stub = k.stub;
        frame = k.frame;
      }

      table_after_write :
          (s : Server)
          → InTable s net fd
          → InTable (record s { write_results = λ i. s.write_results (suc i) }) net fd
      table_after_write s t = record { found = t.found; cursor = t.cursor }

  -- When the write of the first answer to a client fails, whose connection is in the table and the
  -- walk's cursor valid, the session is used after it was freed.
  pub first_answer_faults :
      (s : Server) (net c fd : ℕ) (n : EasyNet) (x : ConnectorSession) (msg : List ℕ)
      → Client s net c fd n x
      → InTable s net fd
      → x.state ≡ state_init
      → Expected x (codec.parse_cs msg)
      → s.write_results 0 ≡ false
      → on_recv_front_end codec net msg s ≡ fault
  unfolding checked drive_in handle_key_making put_session
  first_answer_faults s net c fd n x msg k t st ok broken =
      let x1 = record x { last_seq = (codec.parse_cs msg).sequence } in
      let s1 = put_session c x1 s in
      let k1 = put_session-Client s net c fd n x x1 k k.stub k.frame in
      let t1 : InTable s1 net fd = record { found = t.found; cursor = t.cursor } in
      rw (
        recv-checks codec filled s net c fd n x msg k ok,
        k1.session,
        ◌>>=◌,
        ap (is_state state_ok) st,
        drive-state codec filled s1 c x1 state_init k1.session st,
        serialize-faults s1 net c fd n x1 key_msg k1 t1 broken,
      )
