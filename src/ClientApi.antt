-- ===== src/ClientApi.antt =====
-- server/connector/client_api/connector_client_api_imp.{h,cpp}: the library with which a client
-- connects to the connector. ClientApi/Protocol and ClientApi/Calls are `ConnectorClientProtocolImp`;
-- `ConnectorClientProtocolThreadImp` is here. What another thread does to the client between two
-- rounds of the loop comes with each round.
pub mod State
pub mod Protocol
pub mod Calls
pub mod Exchange
pub mod Steps
pub mod Network
pub mod Rounds
pub mod Handshake
pub mod Opening
pub mod Data
pub mod Errors
pub mod Moves
pub mod Reasons
pub mod Automaton
pub mod Copying
pub mod Example
mod Tests
use rapidapp.Base.{
  ℕ, suc, Bool, true, false, not, Option, none, some, List, [], ◌∷◌, ℤ, pos, success, failure,
  ltb_ℤ, eqb_ℤ, ltb, ◌==◌, ◌&&◌, length, if◌then◌else◌,
}
use rapidapp.Base.Run.{Run, done, fault, exhausted, ◌>>=◌, deref}
use rapidapp.Connector.State.{Codec}
use rapidapp.ClientApi.State.{Settings, ClientProtocol, new_client, Answers}
use rapidapp.ClientApi.Protocol.{Coded, start}
use rapidapp.ClientApi.Calls.{update, push_message, peek_message, pop_message}

-- `told_exit` counts the calls of `OnWorkerThreadExit`. A listener's pointer is set if its settings
-- are there.
pub record ClientThread : Type 0 where
  pub ccproto : Option ClientProtocol
  pub wt_listener : Bool
  pub protocol_evtlistener : Option Settings
  pub exit : Bool
  pub told_exit : ℕ

unfoldable pub new_thread : ClientThread
new_thread = record {
  ccproto = none;
  wt_listener = false;
  protocol_evtlistener = none;
  exit = false;
  told_exit = 0;
}

-- The thread that `StartThread` creates runs `main_loop`.
unfoldable pub start_thread : Option Settings → Bool → ClientThread → ℤ × ClientThread
unfolding new_client
start_thread none thread_listener t = (failure, t)
start_thread (some s) false t = (failure, t)
start_thread (some s) true t = (
  success,
  record t { wt_listener = true; protocol_evtlistener = some s; ccproto = some new_client },
)

unfoldable pub terminate_thread : ClientThread → ℤ × ClientThread
terminate_thread t = (success, record t { exit = true })

unfoldable pub tell_exit : ClientThread → ClientThread
tell_exit t = record t { told_exit = suc t.told_exit }

-- What a round of the loop meets: the calls of the other thread since the last round, the answers
-- of the system.
pub record Round : Type 0 where
  pub meanwhile : ClientThread → ClientThread
  pub answers : Answers

-- A result with the bytes copied to the caller.
abbrev pub Copied : Type 0
Copied = Run (ℤ × List ℕ × ClientThread)

unfoldable pub copy_out : ℕ → ClientThread → ℤ × Option (List ℕ) × ClientProtocol → Copied
copy_out capacity t (r, shown, c) =
    let t' = record t { ccproto = some c } in
    if eqb_ℤ r success
    then elim shown [
      | none ↦ pop_message c >>= λ (r', c'). done (r', [], record t { ccproto = some c' })
      | some bytes ↦
          if ltb capacity (length bytes)
          then done (failure, [], t')
          else pop_message c >>= (λ (r', c'). done (r', bytes, record t { ccproto = some c' }))
    ]
    else done (failure, [], t')

module _ (codec : Codec) where
  -- The loop over the rounds; with none left it is cut off.
  unfoldable pub update_loop : List Round → Bool → ClientThread → Run (ℤ × Bool × ClientThread)
  unfolding tell_exit
  update_loop [] hd t = exhausted
  update_loop (r ∷ rs) hd t =
      let t' = r.meanwhile t in
      elim t'.exit [
        | true ↦ done (success, hd, tell_exit t')
        | false ↦ deref t'.ccproto >>= λ c. update codec r.answers hd c >>= λ (ret, hd', c').
            let t'' = record t' { ccproto = some c' } in
            elim (ltb_ℤ ret (pos 0)) [
              | true ↦ done (success, hd', tell_exit t'')
              | false ↦ update_loop rs hd' t''
            ]
      ]

  unfoldable pub if_started :
      List Round → Bool → ClientThread → ℤ × ClientProtocol → Run (ℤ × Bool × ClientThread)
  if_started rs hd t (r, c) =
      let t' = record t { ccproto = some c } in
      if eqb_ℤ r success then update_loop rs hd t' else done (failure, hd, tell_exit t')

  -- The assertions are on the pointers and on `exit_`.
  unfoldable pub main_loop :
      Bool × Bool → ℤ → List Round → Bool → ClientThread → Run (ℤ × Bool × ClientThread)
  unfolding if_started
  main_loop allocs opened rs hd t =
      if t.wt_listener && not t.exit
      then deref t.ccproto >>= (λ c.
        deref t.protocol_evtlistener >>= λ s. start allocs opened (some s) c >>= if_started rs hd t)
      else fault

  unfoldable pub push_message_to_send_q :
      Answers → Option (List ℕ) → ClientThread → Run (ℤ × ClientThread)
  push_message_to_send_q a bytes t = deref t.ccproto >>= λ c.
      push_message codec a bytes c >>= λ (r, c'). done (r, record t { ccproto = some c' })

  -- `none` for a null pointer, else the size that `*buflen_ptr` holds.
  unfoldable pub pop_message_from_recv_q : Option ℕ → Answers → ClientThread → Copied
  unfolding copy_out
  pop_message_from_recv_q none a t = done (failure, [], t)
  pop_message_from_recv_q (some capacity) a t =
      if capacity == 0
      then done (failure, [], t)
      else deref t.ccproto >>= (λ c. peek_message codec true a c >>= copy_out capacity t)
