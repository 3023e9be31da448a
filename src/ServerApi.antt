-- ===== src/ServerApi.antt =====
-- server/connector/server_api/connector_server_api.cpp: the library with which a back end takes the
-- connector's messages apart and answers them. `S` is the state of the back end's application, which
-- the listener's calls change. A connection is an address, `none` a null pointer.
pub mod Dialogue
mod Tests
use rapidapp.Base.{ℕ, Option, none, some, List, [], ◌∷◌, ℤ, success, failure, ◌==◌, if◌then◌else◌}
use rapidapp.Base.Run.{Run, done, fault, ◌>>=◌, deref}
use rapidapp.Connector.State.{SsMsg, Codec, magic_ss_v1, ss_syn, ss_ack, ss_fin, ss_data, bytes_of}

-- `connector_server::RSM`
abbrev pub ss_rsm : ℕ
ss_rsm = 3

-- `IConnListener`, which the application implements.
pub record ConnListener (S : Type 0) : Type 0 where
  pub on_conn_start : Option ℕ → (fd nid : ℕ) → S → S
  pub on_conn_stop : Option ℕ → (fd nid sid : ℕ) → S → S
  pub on_conn_resume : Option ℕ → (fd nid sid : ℕ) → S → S
  pub on_data : Option ℕ → (fd nid sid : ℕ) → List ℕ → S → S
  pub send_to_conn : ℕ → List ℕ → S → ℤ × S

unfoldable pub stop_msg : (fd nid sid : ℕ) → SsMsg
stop_msg fd nid sid = record {
  magic = magic_ss_v1;
  sequence = 0;
  bodyid = ss_fin;
  fd = fd;
  nid = nid;
  sid = sid;
  data_bytes = none;
  syn = none;
  ack = none;
  fin = some 0;
}

unfoldable pub ack_msg : (fd nid sid : ℕ) → SsMsg
ack_msg fd nid sid = record {
  magic = magic_ss_v1;
  sequence = 0;
  bodyid = ss_ack;
  fd = fd;
  nid = nid;
  sid = sid;
  data_bytes = none;
  syn = none;
  ack = some 0;
  fin = none;
}

unfoldable pub data_msg : (fd nid sid : ℕ) → List ℕ → SsMsg
data_msg fd nid sid bytes = record {
  magic = magic_ss_v1;
  sequence = 0;
  bodyid = ss_data;
  fd = fd;
  nid = nid;
  sid = sid;
  data_bytes = some bytes;
  syn = none;
  ack = none;
  fin = none;
}

module _ {S : Type 0} where
  -- `Init`: the listener that is set, and the code.
  unfoldable pub init :
      Option (ConnListener S) → Option (ConnListener S) → ℤ × Option (ConnListener S)
  init none before = (failure, before)
  init (some listener) before = (success, some listener)

  -- The switch of `Dispatch`; a body of another kind is ignored.
  unfoldable pub switch : ConnListener S → Option ℕ → SsMsg → S → S
  unfolding bytes_of
  switch l from_net m s =
      if m.bodyid == ss_syn
      then l.on_conn_start from_net m.fd m.nid s
      else if m.bodyid == ss_fin
      then l.on_conn_stop from_net m.fd m.nid m.sid s
      else if m.bodyid == ss_rsm
      then l.on_conn_resume from_net m.fd m.nid m.sid s
      else if m.bodyid == ss_data
      then l.on_data from_net m.fd m.nid m.sid (bytes_of m.data_bytes) s
      else s

  -- `Dispatch`; `parse` is `ParseFromArray`, which may fail.
  unfoldable pub dispatch :
      (List ℕ → Option SsMsg) → Option (ConnListener S) → Option ℕ → List ℕ → S → Run (ℤ × S)
  dispatch parse listener from_net [] s = done (failure, s)
  dispatch parse listener from_net (b ∷ bs) s = elim (parse (b ∷ bs)) [
    | none ↦ done (failure, s)
    | some m ↦ deref listener >>= λ l. done (success, switch l from_net m s)
  ]

  -- What the three answers have in common: both pointers are asserted, and the listener sends.
  unfoldable pub answer : Codec → Option (ConnListener S) → Option ℕ → SsMsg → S → Run (ℤ × S)
  answer codec listener net m s =
      deref net >>= λ a. deref listener >>= λ l. done (l.send_to_conn a (codec.ss_bytes m) s)

  unfoldable pub stop_conn :
      Codec → Option (ConnListener S) → Option ℕ → (fd nid sid : ℕ) → S → Run (ℤ × S)
  stop_conn codec listener net fd nid sid s = answer codec listener net (stop_msg fd nid sid) s

  unfoldable pub handshake_to_conn :
      Codec → Option (ConnListener S) → Option ℕ → (fd nid sid : ℕ) → S → Run (ℤ × S)
  handshake_to_conn codec listener net fd nid sid s =
      answer codec listener net (ack_msg fd nid sid) s

  unfoldable pub send_data_to_conn :
      Codec → Option (ConnListener S) → Option ℕ → (fd nid sid : ℕ) → List ℕ → S → Run (ℤ × S)
  send_data_to_conn codec listener net fd nid sid bytes s =
      answer codec listener net (data_msg fd nid sid bytes) s
