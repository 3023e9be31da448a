-- ===== src/Connector/Sends.antt =====
-- A send on a connection that is established, when the writes work and when the first one fails.
use rapidapp.Base.{
  ℕ, suc, ◌+◌, ◌%◌, ◌^◌, ◌≡◌, ◌≢◌, refl, true, false, some, List, [], ◌∷◌, ◌++◌, length, success,
  failure,
}
use rapidapp.Base.Run.{done}
use rapidapp.Wire.{htonl}
use rapidapp.Net.{EasyNet, net_established, store}
use rapidapp.Connector.State.{Server}
use rapidapp.Connector.Frame.{
  bufferevent_write, write_msg, send_established, send_in, send, only_failure, send_to_front_end,
  mark_active, send_to_back_end, easy_net_err_send_error,
}

-- A message as it goes out: the length, then the bytes.
abbrev pub framed : ℕ → List ℕ → List (ℕ × List ℕ)
framed fd bytes = (fd, htonl ((length bytes + 4) % 2 ^ 32)) ∷ (fd, bytes) ∷ []

abbrev pub AllWork : Server → Type 0
AllWork s = (i : ℕ) → s.write_results i ≡ true

-- The server after a message has gone out on a socket.
abbrev pub sent_on : ℕ → List ℕ → Server → Server
sent_on fd bytes s = record s {
  write_results = λ i. s.write_results (suc (suc i));
  sent = (s.sent ++ ((fd, htonl ((length bytes + 4) % 2 ^ 32)) ∷ [])) ++ ((fd, bytes) ∷ []);
}

-- The connection at an address can be written to.
pub record Established (s : Server) (net fd : ℕ) (n : EasyNet) : Type 0 where
  pub alive : s.heap.nets net ≡ some n
  pub socket : n.hevent ≡ some fd
  pub state : n.state ≡ net_established

pub send-works :
    (s : Server) (net fd : ℕ) (n : EasyNet) (bytes : List ℕ)
    → Established s net fd n
    → AllWork s
    → bytes ≢ []
    → send net bytes s ≡ done (success, sent_on fd bytes s)
unfolding send send_in send_established write_msg bufferevent_write
send-works s net fd n [] e w ne = absurd (ne refl)
send-works s net fd n (b ∷ bs) e w ne = rw (e.alive, e.socket, e.state, w 0, w 1)

pub send-fails :
    (s : Server) (net fd : ℕ) (n : EasyNet) (bytes : List ℕ)
    → Established s net fd n
    → s.write_results 0 ≡ false
    → bytes ≢ []
    → send net bytes s
      ≡ done (easy_net_err_send_error, record s { write_results = λ i. s.write_results (suc i) })
unfolding send send_in send_established write_msg bufferevent_write
send-fails s net fd n [] e w ne = absurd (ne refl)
send-fails s net fd n (b ∷ bs) e w ne = rw (e.alive, e.socket, e.state, w)

pub send_to_front_end-works :
    (s : Server) (net fd : ℕ) (n : EasyNet) (bytes : List ℕ)
    → Established s net fd n
    → AllWork s
    → bytes ≢ []
    → send_to_front_end (some net) bytes s ≡ done (success, sent_on fd bytes s)
unfolding send_to_front_end only_failure
send_to_front_end-works s net fd n [] e w ne = absurd (ne refl)
send_to_front_end-works s net fd n (b ∷ bs) e w ne = rw (send-works s net fd n (b ∷ bs) e w ne)

pub send_to_front_end-fails :
    (s : Server) (net fd : ℕ) (n : EasyNet) (bytes : List ℕ)
    → Established s net fd n
    → s.write_results 0 ≡ false
    → bytes ≢ []
    → send_to_front_end (some net) bytes s
      ≡ done (failure, record s { write_results = λ i. s.write_results (suc i) })
unfolding send_to_front_end only_failure
send_to_front_end-fails s net fd n [] e w ne = absurd (ne refl)
send_to_front_end-fails s net fd n (b ∷ bs) e w ne = rw (send-fails s net fd n (b ∷ bs) e w ne)

-- A back end's connection is also marked active.
abbrev pub marked : ℕ → EasyNet → Server → Server
marked net n s = record s {
  heap = record s.heap {
    nets = store net (some (record n { last_active_timestamp = s.now })) s.heap.nets;
  };
}

pub send_to_back_end-works :
    (s : Server) (net fd : ℕ) (n : EasyNet) (bytes : List ℕ)
    → Established s net fd n
    → AllWork s
    → bytes ≢ []
    → send_to_back_end (some net) bytes s ≡ done (success, marked net n (sent_on fd bytes s))
unfolding send_to_back_end mark_active
send_to_back_end-works s net fd n [] e w ne = absurd (ne refl)
send_to_back_end-works s net fd n (b ∷ bs) e w ne =
    rw (send-works s net fd n (b ∷ bs) e w ne, e.alive)
