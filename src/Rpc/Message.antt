-- ===== src/Rpc/Message.antt =====
-- `MessageGenerator` (framework/rapidapp_message_reflection.{h,cpp}) and the envelope of
-- framework/rpc.proto, whose field `sequence` is never set. `M` are the messages of protocol buffers.
-- `SharedMessage` has no caller.
use rapidapp.Base.{
  same_name, ℕ, Bool, Option, none, some, List, [], ◌∷◌, ℤ, success, failure, length, leb, pos,
  negsuc, if◌then◌else◌,
}

abbrev pub magic_rpcstamp_v1 : ℕ
magic_rpcstamp_v1 = 33048

abbrev pub rpc_type_request : ℕ
rpc_type_request = 1

abbrev pub rpc_type_response : ℕ
rpc_type_response = 2

abbrev pub rpc_type_error : ℕ
rpc_type_error = 3

abbrev pub max_message_name : ℕ
max_message_name = 1024

-- `msg_bin` reads as empty where it is not there.
pub record RpcMessage : Type 0 where
  pub magic : ℕ
  pub msg_type : ℕ
  pub asyncid : ℕ
  pub msg_name : List ℕ
  pub msg_bin : List ℕ

-- Protocol buffers: a message's type, its bytes, and what an object becomes when bytes are parsed into
-- it; the generated types by their names; the bytes of an envelope, and what they are parsed into.
pub record Protobuf (M : Type 0) : Type 0 where
  pub type_name : M → List ℕ
  pub serialize : M → List ℕ
  pub parse_from : M → List ℕ → Bool × M
  pub prototype : List ℕ → Option M
  pub rpc_bytes : RpcMessage → List ℕ
  pub parse_rpc : List ℕ → Bool × RpcMessage

-- The static `rpc_msg_` is an argument of the calls that write it, and part of their result.
unfoldable pub unpack_to_rpc_msg :
    {M : Type 0} → Protobuf M → Option (List ℕ) → RpcMessage → ℤ × RpcMessage
unpack_to_rpc_msg pb none rpc_msg = (failure, rpc_msg)
unpack_to_rpc_msg pb (some []) rpc_msg = (failure, rpc_msg)
unpack_to_rpc_msg pb (some (b ∷ bs)) rpc_msg =
    let (ok, m) = pb.parse_rpc (b ∷ bs) in (if ok then success else failure, m)

unfoldable pub envelope : (msg_type asyncid : ℕ) (msg_name msg_bin : List ℕ) → RpcMessage
envelope msg_type asyncid msg_name msg_bin = record {
  magic = magic_rpcstamp_v1;
  msg_type = msg_type;
  asyncid = asyncid;
  msg_name = msg_name;
  msg_bin = msg_bin;
}

-- `out` is what `*out` holds, and its new contents.
unfoldable pub message_to_binary :
    {M : Type 0} → Protobuf M → (msg_type asyncid : ℕ) → Option M → List ℕ → ℤ × List ℕ
unfolding envelope
message_to_binary pb msg_type asyncid none out = (failure, out)
message_to_binary pb msg_type asyncid (some m) out =
    if leb max_message_name (length (pb.type_name m))
    then (failure, out)
    else (success, pb.rpc_bytes (envelope msg_type asyncid (pb.type_name m) (pb.serialize m)))

unfoldable pub rpc_error_to_binary : {M : Type 0} → Protobuf M → ℕ → List ℕ
unfolding envelope
rpc_error_to_binary pb asyncid = pb.rpc_bytes (envelope rpc_type_error asyncid [] [])

-- A new object with the bytes parsed into it.
unfoldable pub parsed : {M : Type 0} → Protobuf M → Option M → List ℕ → Option M
parsed pb none bytes = none
parsed pb (some object) bytes =
    let (ok, m) = pb.parse_from object bytes in if ok then some m else none

unfoldable pub spawn_from : {M : Type 0} → Protobuf M → ℤ × RpcMessage → Option M × RpcMessage
unfolding parsed
spawn_from pb (negsuc n, m) = (none, m)
spawn_from pb (pos n, m) = (parsed pb (pb.prototype m.msg_name) m.msg_bin, m)

unfoldable pub spawn_message :
    {M : Type 0} → Protobuf M → Option (List ℕ) → RpcMessage → Option M × RpcMessage
unfolding unpack_to_rpc_msg spawn_from
spawn_message pb bytes rpc_msg = spawn_from pb (unpack_to_rpc_msg pb bytes rpc_msg)

-- The object that is parsed into is the caller's.
unfoldable pub binary_to_message :
    {M : Type 0} → Protobuf M → Option (List ℕ) → Option M → RpcMessage → ℤ × Option M × RpcMessage
unfolding unpack_to_rpc_msg
binary_to_message pb bytes none rpc_msg = (failure, none, rpc_msg)
binary_to_message pb bytes (some object) rpc_msg =
    let (r, m) = unpack_to_rpc_msg pb bytes rpc_msg in
    elim r [
      | pos n ↦
          if same_name (pb.type_name object) m.msg_name
          then (let (ok, object') = pb.parse_from object m.msg_bin in
              (if ok then success else failure, some object', m))
          else (failure, some object, m)
      | negsuc n ↦ (failure, some object, m)
    ]
