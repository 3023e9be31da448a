-- ===== src/ServerApi/Tests.antt =====
-- A back end that keeps what it is told, at the server of the connector's example.
use rapidapp.Base.{
  ℕ, zero, suc, ◌%◌, ◌^◌, ◌≡◌, refl, Option, none, some, List, [], ◌∷◌, ◌++◌, success,
}
use rapidapp.Base.Run.{done}
use rapidapp.Net.{find}
use rapidapp.Connector.State.{SsMsg, Codec, Server, state_ok, state_synack}
use rapidapp.Connector.Session.{syn_msg, up_data_msg, down_msg, start_msg}
use rapidapp.Connector.Sends.{framed, sent_on}
use rapidapp.Connector.Steps.{NeverEmpty, Reached}
use rapidapp.Connector.Example.{
  plain, client_net, session_in, server_with, all_work, Client-of, ready_client,
}
use rapidapp.Connector.{on_recv_back_end}
use rapidapp.ServerApi.{ConnListener, dispatch, handshake_to_conn, send_data_to_conn}
use rapidapp.ServerApi.Dialogue.{
  ReadsBack, listener_understands, answer_makes_ready, data_is_passed_on,
}

abbrev put : Option ℕ → ℕ
put none = 0
put (some n) = suc n

abbrev got : ℕ → Option ℕ
got zero = none
got (suc n) = some n

abbrev put_bytes : Option (List ℕ) → List ℕ
put_bytes none = []
put_bytes (some bytes) = 1 ∷ bytes

abbrev got_bytes : List ℕ → Option (List ℕ)
got_bytes [] = none
got_bytes (b ∷ bytes) = some bytes

got-put : (o : Option ℕ) → got (put o) ≡ o
got-put none = refl
got-put (some n) = refl

got_bytes-put_bytes : (o : Option (List ℕ)) → got_bytes (put_bytes o) ≡ o
got_bytes-put_bytes none = refl
got_bytes-put_bytes (some n) = refl

-- All fields one after another.
abbrev write : SsMsg → List ℕ
write m =
    m.magic
    ∷ m.sequence
    ∷ m.bodyid
    ∷ m.fd
    ∷ m.nid
    ∷ m.sid
    ∷ put m.syn
    ∷ put m.ack
    ∷ put m.fin
    ∷ put_bytes m.data_bytes

abbrev msg_of : (magic sequence bodyid fd nid sid syn ack fin : ℕ) → List ℕ → SsMsg
msg_of magic sequence bodyid fd nid sid syn ack fin rest = record {
  magic = magic;
  sequence = sequence;
  bodyid = bodyid;
  fd = fd;
  nid = nid;
  sid = sid;
  data_bytes = got_bytes rest;
  syn = got syn;
  ack = got ack;
  fin = got fin;
}

abbrev read : List ℕ → Option SsMsg
read (magic ∷ sequence ∷ bodyid ∷ fd ∷ nid ∷ sid ∷ syn ∷ ack ∷ fin ∷ rest) =
    some (msg_of magic sequence bodyid fd nid sid syn ack fin rest)
read _ = none

abbrev read_or_zero : List ℕ → SsMsg
read_or_zero (magic ∷ sequence ∷ bodyid ∷ fd ∷ nid ∷ sid ∷ syn ∷ ack ∷ fin ∷ rest) =
    msg_of magic sequence bodyid fd nid sid syn ack fin rest
read_or_zero _ = msg_of 0 0 0 0 0 0 0 0 0 []

abbrev lossless : Codec
lossless = record plain { ss_bytes = write; parse_ss = read_or_zero }

lossless-NeverEmpty : NeverEmpty lossless
lossless-NeverEmpty = (λ m e. cc, λ m e. cc)

lossless-ReadsBack : ReadsBack lossless read
lossless-ReadsBack m = (
  rw (got-put m.syn, got-put m.ack, got-put m.fin, got_bytes-put_bytes m.data_bytes) refl,
  rw (got-put m.syn, got-put m.ack, got-put m.fin, got_bytes-put_bytes m.data_bytes) refl,
)

-- It keeps the numbers of each call, and sends nothing really.
abbrev keeper : ConnListener (List ℕ)
keeper = record {
  on_conn_start = λ net fd nid s. 1 ∷ fd ∷ nid ∷ s;
  on_conn_stop = λ net fd nid sid s. 2 ∷ fd ∷ nid ∷ sid ∷ s;
  on_conn_resume = λ net fd nid sid s. 3 ∷ fd ∷ nid ∷ sid ∷ s;
  on_data = λ net fd nid sid bytes s. 4 ∷ fd ∷ nid ∷ sid ∷ (bytes ++ s);
  send_to_conn = λ net bytes s. (success, bytes ++ s);
}

listener_understands_example :
    (dispatch read (some keeper) (some 1) (write (syn_msg (7, 3) 42)) []
      ≡ done (success, 1 ∷ 7 ∷ 3 ∷ []))
    × (dispatch read (some keeper) (some 1) (write (up_data_msg 6 (7, 3) 42 (104 ∷ []))) []
        ≡ done (success, 4 ∷ 7 ∷ 3 ∷ 42 ∷ 104 ∷ []))
listener_understands_example =
    listener_understands lossless read lossless-NeverEmpty lossless-ReadsBack keeper (some 1) 7 3 42
      6 (104 ∷ []) []

-- The session waits for the back end.
abbrev waiting : Server
waiting = server_with (session_in state_synack 0 2) all_work

answer_makes_ready_example :
    (bytes : List ℕ) × (handshake_to_conn lossless (some keeper) (some 1) (7 % 2 ^ 32) 3 9 []
      ≡ done (keeper.send_to_conn 1 bytes []))
    × (s' : Server) × (on_recv_back_end lossless bytes waiting ≡ done (success, s'))
    × Reached waiting s' 1 100 7 client_net
        (session_in state_ok 9 2)
        (framed 7 (lossless.cs_bytes start_msg))
        waiting.back_ends
unfolding find
answer_makes_ready_example =
    answer_makes_ready lossless read lossless-NeverEmpty lossless-ReadsBack keeper 1 [] waiting 1
      100 7 9 client_net (session_in state_synack 0 2)
      (Client-of (session_in state_synack 0 2) all_work refl refl) (λ i. refl) refl refl

data_is_passed_on_example :
    (bytes : List ℕ) × (send_data_to_conn lossless
        (some keeper)
        (some 1)
        (7 % 2 ^ 32)
        3
        42
        (111 ∷ 107 ∷ [])
        []
      ≡ done (keeper.send_to_conn 1 bytes []))
    × (on_recv_back_end lossless bytes ready_client
        ≡ done (success, sent_on 7 (lossless.cs_bytes (down_msg 0 (111 ∷ 107 ∷ []))) ready_client))
unfolding find
data_is_passed_on_example =
    data_is_passed_on lossless read lossless-NeverEmpty lossless-ReadsBack keeper 1 [] ready_client
      1 100 7 client_net (session_in state_ok 42 5) 111 (107 ∷ [])
      (Client-of (session_in state_ok 42 5) all_work refl refl) (λ i. refl) refl refl
