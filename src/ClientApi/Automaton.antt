-- ===== src/ClientApi/Automaton.antt =====
-- `Update` as a step of the handshake's automaton: whatever the system answers and the peer sends, the
-- state stays or goes to the next one, and only for a reason.
pub mod Steps
use rapidapp.Base.{◌⊎◌, ◌≢◌, Bool-cases, ltb_ℤ, pos, ℕ, ap, Bool, List, ℤ, success, arith, ◌==◌}
use rapidapp.Base.Run.{Ensures-with}
use rapidapp.Socket.{TcpSocketUtil}
use rapidapp.Socket
use rapidapp.Connector.State.{Codec, CsMsg, cs_synack, cs_passport, cs_start_app, bytes_of}
use rapidapp.Connector.Steps.{==→≡}
use rapidapp.ClientApi.State.{ClientProtocol, Answers}
use rapidapp.ClientApi.Protocol.{
  serialize_and_send_to_peer, then_state, take_step, take_passport, take_start, write_up, syn_up,
  auth_up,
}
use rapidapp.ClientApi.Reasons.{
  Stands, Unread, Stall, not_dialled, syn_unsent, auth_unsent, no_passport, no_start, Edge,
}
use rapidapp.ClientApi.Moves.{Kept, KeptAll, serialize-KeepsAll, receive-Keeps}
use rapidapp.ClientApi.Automaton.Steps.{KeyRead}

module _ (codec : Codec) (a : Answers) where
  abbrev Moves : ClientProtocol → ℤ × ℕ × Bool × ClientProtocol → Type 0
  Moves c (r, busy, hd, c') = Edge codec a c c'

  abbrev Reports : ClientProtocol → ℤ × Bool × ClientProtocol → Type 0
  Reports c (r, hd, c') = Edge codec a c c'
