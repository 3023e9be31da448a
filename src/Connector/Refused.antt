-- ===== src/Connector/Refused.antt =====
-- What the connector refuses: messages of a client out of turn, and data of a back end for a session
-- that is not ready or has another number.
use rapidapp.Base.{
  ℕ, ◌≡◌, ◌≢◌, refl, Bool, true, false, ◌&&◌, none, some, List, failure, ◌==◌, arith, ◌⊎◌, inl, inr,
}
use rapidapp.Base.Run.{done, ◌>>=◌}
use rapidapp.Net.{EasyNet}
use rapidapp.Connector.State.{
  Server, ConnectorSession, SessionState, state_init, state_auth, state_syning, state_synack,
  state_ok, Codec, is_state, ss_data,
}
use rapidapp.Connector.Frame.{get_user_context}
use rapidapp.Connector.Clients.{Client, Expected}
use rapidapp.Connector.Sequence.{check_up_side_message_cases}
use rapidapp.Connector.Steps.{async_ids}
use rapidapp.Connector.Dangling.{InTable, destroy-frees}
use rapidapp.Connector.{on_recv_front_end, checked, on_recv_back_end, to_session, back_end_data}

module _ (codec : Codec) where
  -- A message of a client that has another magic, or is not the next in sequence, changes nothing
  -- and sends nothing, whatever state the session is in.
  pub out_of_turn_is_refused :
      (s : Server) (net c fd : ℕ) (n : EasyNet) (x : ConnectorSession) (msg : List ℕ)
      → Client s net c fd n x
      → (Expected x (codec.parse_cs msg) → ⊥)
      → on_recv_front_end codec net msg s ≡ done (some failure, s)
  unfolding on_recv_front_end get_user_context checked
  out_of_turn_is_refused s net c fd n x msg k unexpected =
      elim (check_up_side_message_cases c (codec.parse_cs msg) s x k.session) [
        | inl (e, _) ↦ absurd (unexpected e)
        | inr (_, run) ↦ rw (k.established.alive, k.context, run)
      ]

  -- Data of a back end for a session that is not ready, or under another session number, closes
  -- the client's connection, if that is in the table and the walk's cursor is valid, and frees its
  -- session. Nothing is sent.
  pub wrong_session_is_closed :
      (s : Server) (net c fd : ℕ) (n : EasyNet) (x : ConnectorSession) (msg : List ℕ)
      → Client s net c fd n x
      → InTable s net fd
      → (codec.parse_ss msg).fd ≡ fd
      → (codec.parse_ss msg).nid ≡ n.nid
      → (codec.parse_ss msg).bodyid ≡ ss_data
      → (x.state ≢ state_ok) ⊎ (x.sid ≢ (codec.parse_ss msg).sid)
      → (s' : Server) × (on_recv_back_end codec msg s ≡ done (failure, s'))
        × (s'.heap.nets net ≡ none)
        × (s'.heap.contexts c ≡ none)
        × (s'.sent ≡ s.sent)
  unfolding on_recv_back_end get_user_context to_session back_end_data
  wrong_session_is_closed s net c fd n x msg k t for_fd for_nid body wrong =
      let (s', run, gone, freed, out) = destroy-frees s net c fd n x k t in
      (
        s',
        rw (
          async_ids (codec.parse_ss msg).fd (codec.parse_ss msg).nid s net n (rw for_fd t.found)
              k.established.alive for_nid,
          k.established.alive,
          k.context,
          k.session,
          ◌>>=◌,
          is_data (codec.parse_ss msg).bodyid body,
          back_end_data,
          refused x.state x.sid (codec.parse_ss msg).sid wrong,
          run,
        ),
        gone,
        freed,
        out,
      )
    where
      is_data : (b : ℕ) → b ≡ ss_data → (b == ss_data) ≡ true
      is_data b h = ground arith

      not_ok : (state : SessionState) → state ≢ state_ok → is_state state_ok state ≡ false
      not_ok state_init ne = refl
      not_ok state_auth ne = refl
      not_ok state_syning ne = refl
      not_ok state_synack ne = refl
      not_ok state_ok ne = absurd (ne refl)

      not_same : (ready : Bool) (a b : ℕ) → a ≢ b → (ready && (a == b)) ≡ false
      not_same ready a b ne = ground arith

      refused :
          (state : SessionState) (a b : ℕ)
          → (state ≢ state_ok) ⊎ (a ≢ b)
          → (is_state state_ok state && (a == b)) ≡ false
      refused state a b (inl ne) = rw (not_ok state ne) refl
      refused state a b (inr ne) = not_same (is_state state_ok state) a b ne
