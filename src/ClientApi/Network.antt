-- ===== src/ClientApi/Network.antt =====
-- A client and the connector, with the bytes between them. The network loses and reorders nothing;
-- it hands over at once what it holds.
use rapidapp.Base.{
  ℕ, ◌≡◌, refl, ◌∙◌, ap, Bool, true, false, List, [], ◌∷◌, ◌++◌, length, drop, ℤ, ◌==◌,
  if◌then◌else◌, drop-append, ==_refl, drop_all, arith, ◌≢◌,
}
use rapidapp.Base.Run.{Run, done, ◌>>=◌}
use rapidapp.Wire.{frame, htonl}
use rapidapp.Socket.{Received, recv_would_block, received}
use rapidapp.Connector.State.{Server, Codec}
use rapidapp.Connector.Sends.{framed}
use rapidapp.Connector.{on_recv_back_end}
use rapidapp.Connector.Events.{on_front_end_msg}
use rapidapp.ClientApi.State.{
  ClientState, session_state_key_syning, session_state_authing, session_state_ready,
  session_state_done, ClientProtocol, Answers,
}
use rapidapp.ClientApi.Calls.{update}

-- `up` is what the connector's bufferevent holds, `down` what has not reached the client.
pub record World : Type 0 where
  pub client : ClientProtocol
  pub handshake_done : Bool
  pub server : Server
  pub up : List ℕ
  pub down : List ℕ

-- Whether `Update` calls `recv`.
unfoldable pub listening : ClientState → Bool → Bool
listening session_state_key_syning hd = true
listening session_state_authing hd = true
listening session_state_ready hd = true
listening session_state_done hd = hd
listening _ hd = false

unfoldable pub arrives : List ℕ → Received
arrives [] = recv_would_block
arrives (b ∷ bs) = received (b ∷ bs)

-- The bytes that were written to a socket.
unfoldable pub on_socket : ℕ → List (ℕ × List ℕ) → List ℕ
on_socket fd [] = []
on_socket fd ((to, bytes) ∷ rest) =
    if to == fd then bytes ++ on_socket fd rest else on_socket fd rest

-- What a turn of the connector has written.
unfoldable pub answered : ℕ → World → Server → List ℕ → World
unfolding on_socket
answered fd w s left = record w {
  server = s;
  up = left;
  down = w.down ++ on_socket fd (drop (length w.server.sent) s.sent);
}

pub new_bytes {ℓ} :
    {A : Type ℓ} (old new out : List A) → new ≡ old ++ out → drop (length old) new ≡ out
new_bytes old new out e = ap (drop (length old)) e ∙ drop-append (length old) old out refl

pub arrives-frame : (m : List ℕ) → arrives (frame m) ≡ received (frame m)
unfolding arrives frame htonl
arrives-frame m = refl

-- A message that went out on the socket arrives as a frame; one that went out on another does not.
pub on_socket-framed :
    (fd : ℕ) (m : List ℕ) (rest : List (ℕ × List ℕ))
    → on_socket fd (framed fd m ++ rest) ≡ frame m ++ on_socket fd rest
unfolding on_socket frame
on_socket-framed fd m rest = rw (==_refl fd) refl

pub on_socket-other :
    (fd to : ℕ) (m : List ℕ) (rest : List (ℕ × List ℕ))
    → to ≢ fd
    → on_socket fd (framed to m ++ rest) ≡ on_socket fd rest
unfolding on_socket
on_socket-other fd to m rest ne = ground arith

module _ (codec : Codec) where
  -- A call of `Update`.
  unfoldable pub client_turn : Answers → World → Run World
  unfolding listening arrives
  client_turn a w =
      let hears = listening w.client.session_state w.handshake_done in
      let chunk = if hears then w.down else [] in
      update codec (record a { recv_answer = arrives chunk }) w.handshake_done w.client
      >>= λ (r, hd, c). done (record w {
        client = c;
        handshake_done = hd;
        up = w.up ++ drop (length w.client.wire) c.wire;
        down = drop (length chunk) w.down;
      })

  -- An event on the client's socket.
  unfoldable pub connector_turn : (recv_buff_size fd : ℕ) → World → Run World
  unfolding answered
  connector_turn recv_buff_size fd w =
      on_front_end_msg codec recv_buff_size fd w.up w.server >>= λ (r, left, s).
      done (answered fd w s left)

  -- A message of the back end.
  unfoldable pub back_end_turn : ℕ → List ℕ → World → Run World
  unfolding answered
  back_end_turn fd bytes w =
      on_recv_back_end codec bytes w.server >>= λ (r, s). done (answered fd w s w.up)

  -- A turn of a client that says something and is not being heard out.
  pub client_turn-says :
      (a : Answers) (hd hd' : Bool) (c c' : ClientProtocol) (s : Server) (r : ℤ) (out : List ℕ)
      → listening c.session_state hd ≡ false
      → update codec (record a { recv_answer = recv_would_block }) hd c ≡ done (r, hd', c')
      → c'.wire ≡ c.wire ++ out
      → client_turn a (record { client = c; handshake_done = hd; server = s; up = []; down = [] })
        ≡ done (record { client = c'; handshake_done = hd'; server = s; up = out; down = [] })
  unfolding client_turn arrives
  client_turn-says a hd hd' c c' s r out l run w =
      rw (l, run)
        (ap
          (λ o. done (record { client = c'; handshake_done = hd'; server = s; up = o; down = [] }))
          (new_bytes c.wire c'.wire out w))

  -- A turn of a client that hears a message.
  pub client_turn-hears :
      (a : Answers) (hd hd' : Bool) (c c' : ClientProtocol) (s : Server) (r : ℤ) (m out : List ℕ)
      → listening c.session_state hd ≡ true
      → update codec (record a { recv_answer = received (frame m) }) hd c ≡ done (r, hd', c')
      → c'.wire ≡ c.wire ++ out
      → client_turn a
          (record { client = c; handshake_done = hd; server = s; up = []; down = frame m })
        ≡ done (record { client = c'; handshake_done = hd'; server = s; up = out; down = [] })
  unfolding client_turn
  client_turn-hears a hd hd' c c' s r m out l run w =
      rw (l, arrives-frame m, run, drop_all (length (frame m)) (frame m) (omega arith))
        (ap
          (λ o. done (record { client = c'; handshake_done = hd'; server = s; up = o; down = [] }))
          (new_bytes c.wire c'.wire out w))

  pub connector_turn_lem :
      (recv_buff_size fd : ℕ) (c : ClientProtocol) (hd : Bool) (s s' : Server) (r : ℤ)
      (up left : List ℕ) (out : List (ℕ × List ℕ))
      → on_front_end_msg codec recv_buff_size fd up s ≡ done (r, left, s')
      → s'.sent ≡ s.sent ++ out
      → connector_turn recv_buff_size fd
          (record { client = c; handshake_done = hd; server = s; up = up; down = [] })
        ≡ done (record {
          client = c;
          handshake_done = hd;
          server = s';
          up = left;
          down = on_socket fd out;
        })
  unfolding connector_turn
  connector_turn_lem recv_buff_size fd c hd s s' r up left out run e =
      rw (run, e, drop-append (length s.sent) s.sent out refl) refl

  pub back_end_turn_lem :
      (fd : ℕ) (bytes : List ℕ) (c : ClientProtocol) (hd : Bool) (s s' : Server) (r : ℤ)
      (out : List (ℕ × List ℕ))
      → on_recv_back_end codec bytes s ≡ done (r, s')
      → s'.sent ≡ s.sent ++ out
      → back_end_turn fd bytes
          (record { client = c; handshake_done = hd; server = s; up = []; down = [] })
        ≡ done (record {
          client = c;
          handshake_done = hd;
          server = s';
          up = [];
          down = on_socket fd out;
        })
  unfolding back_end_turn
  back_end_turn_lem fd bytes c hd s s' r out run e =
      rw (run, e, drop-append (length s.sent) s.sent out refl) refl
