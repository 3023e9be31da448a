-- ===== src/ClientApi/Exchange.antt =====
-- One message from the client and one to it, on a connection that is up with nothing waiting.
use rapidapp.Base.{
  ℕ, ◌+◌, ◌≤◌, ◌<◌, ◌≡◌, ◌≢◌, refl, true, false, some, List, ◌++◌, length, drop, success, failure,
  arith, ◌==◌,
}
use rapidapp.Base.Run.{done}
use rapidapp.Wire.{frame, htonl}
use rapidapp.Wire.Codec.{length-frame}
use rapidapp.Socket.{sent, received, normal, TcpSocketUtil}
use rapidapp.Socket.Online.{Online, size, push_entries, send_entries, recv_frame, take_frame}
use rapidapp.Connector.State.{Codec, cs_error}
use rapidapp.ClientApi.State.{ClientProtocol, Answers}
use rapidapp.ClientApi.Protocol.{
  serialize_and_send_to_peer, try_to_recv_from_peer_and_parse, if_pushed, send_now, iov_of,
  if_new_pkg, peek_down, pop_down, parse_down,
}

drop-frame : (m : List ℕ) → drop 4 (frame m) ≡ m
unfolding frame htonl
drop-frame m = refl

pub parse_down-frame :
    (codec : Codec) (m : List ℕ) → parse_down codec (some (frame m)) ≡ done (codec.parse_cs m)
unfolding parse_down
parse_down-frame codec m = ground (arith, length-frame m, drop-frame m)

not_error : (bodyid : ℕ) → bodyid ≢ cs_error → (bodyid == cs_error) ≡ false
not_error bodyid h = ground arith

is_error : (bodyid : ℕ) → bodyid ≡ cs_error → (bodyid == cs_error) ≡ true
is_error bodyid h = ground arith

module _ (codec : Codec) (a : Answers) (c : ClientProtocol) (used : ℕ) where
  -- What the client says goes to the system as one frame.
  pub says :
      Online c.tcp_sock used
      → length (codec.cs_bytes c.up_msg) + 4 ≤ size
      → a.send_answer ≡ sent (length (codec.cs_bytes c.up_msg) + 4)
      → (sock : TcpSocketUtil) × (serialize_and_send_to_peer codec a c
          ≡ done (
            normal,
            record c { tcp_sock = sock; wire = c.wire ++ frame (codec.cs_bytes c.up_msg) },
          ))
        × Online sock used
  unfolding serialize_and_send_to_peer if_pushed send_now iov_of
  says o h e =
      let m = codec.cs_bytes c.up_msg in
      let (s1, pushed, loaded) = push_entries a.now m c.tcp_sock used o h in
      let (s2, gone, o') = send_entries m s1 used loaded in (s2, rw (pushed, e, gone) refl, o')

  -- What arrives whole is taken as one message.
  pub hears :
      (m : List ℕ)
      → Online c.tcp_sock used
      → 0 < length m
      → used + (length m + 4) ≤ size
      → a.recv_answer ≡ received (frame m)
      → (codec.parse_cs m).bodyid ≢ cs_error
      → (sock : TcpSocketUtil) × (try_to_recv_from_peer_and_parse codec a c
          ≡ done (success, record c { tcp_sock = sock; down_msg = codec.parse_cs m }))
        × Online sock (used + (length m + 4))
  unfolding try_to_recv_from_peer_and_parse if_new_pkg peek_down pop_down
  hears m o h k e ne =
      let (s1, got, filled) = recv_frame m c.tcp_sock used o k in
      let (has, s2, shown, s3, taken, o') = take_frame a.now m s1 used filled h (omega arith) in
      (
        s3,
        rw
            (
              e,
              got,
              has,
              shown,
              parse_down-frame codec m,
              taken,
              not_error (codec.parse_cs m).bodyid ne,
            )
            refl,
        o',
      )

  -- An error that arrives whole is taken too, and returned as -1.
  pub hears_error :
      (m : List ℕ)
      → Online c.tcp_sock used
      → 0 < length m
      → used + (length m + 4) ≤ size
      → a.recv_answer ≡ received (frame m)
      → (codec.parse_cs m).bodyid ≡ cs_error
      → (sock : TcpSocketUtil) × (try_to_recv_from_peer_and_parse codec a c
          ≡ done (failure, record c { tcp_sock = sock; down_msg = codec.parse_cs m }))
        × Online sock (used + (length m + 4))
  unfolding try_to_recv_from_peer_and_parse if_new_pkg peek_down pop_down
  hears_error m o h k e same =
      let (s1, got, filled) = recv_frame m c.tcp_sock used o k in
      let (has, s2, shown, s3, taken, o') = take_frame a.now m s1 used filled h (omega arith) in
      let error : ((codec.parse_cs m).bodyid == cs_error) ≡ true =
        is_error (codec.parse_cs m).bodyid same in
      (s3, rw (e, got, has, shown, parse_down-frame codec m, taken, error) refl, o')
