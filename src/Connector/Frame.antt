-- ===== src/Connector/Frame.antt =====
-- What the connector calls of `AppFrameWork` (framework/rapidapp_framework_imp.cpp), and
-- `EasyNet::Send` (framework/rapidapp_easy_net.cpp) under it.
use rapidapp.Base.{
  ℕ, zero, suc, ◌+◌, ◌%◌, ◌^◌, Bool, true, false, Option, none, some, List, [], ◌∷◌, ◌++◌, ℤ, pos,
  negsuc, success, failure, if◌then◌else◌, length,
}
use rapidapp.Base.Run.{Run, done, fault, ◌>>=◌, deref}
use rapidapp.Wire.{htonl}
use rapidapp.Net.{NetState, net_established, net_failed, store, remove_handler}
use rapidapp.Connector.State.{Server}

abbrev pub easy_net_err_not_yet_established : ℤ
easy_net_err_not_yet_established = negsuc 0

abbrev pub easy_net_err_establish_failed : ℤ
easy_net_err_establish_failed = negsuc 1

abbrev pub easy_net_err_send_error : ℤ
easy_net_err_send_error = negsuc 2

-- `bufferevent_write`: whether it works is not up to this code.
unfoldable pub bufferevent_write : ℕ → List ℕ → Server → Bool × Server
bufferevent_write fd bytes s =
    if s.write_results 0
    then (
      true,
      record s {
        write_results = λ i. s.write_results (suc i);
        sent = s.sent ++ ((fd, bytes) ∷ []);
      },
    )
    else (false, record s { write_results = λ i. s.write_results (suc i) })

unfoldable pub write_msg : ℕ → List ℕ → Bool × Server → Run (ℤ × Server)
unfolding bufferevent_write
write_msg fd msg (false, s) = done (easy_net_err_send_error, s)
write_msg fd msg (true, s) =
    let r = bufferevent_write fd msg s in
    done (if r.0 then success else easy_net_err_send_error, r.1)

-- The length and the message are two writes.
unfoldable pub send_established : ℕ → List ℕ → Server → Run (ℤ × Server)
unfolding bufferevent_write write_msg
send_established fd msg s =
    write_msg fd msg (bufferevent_write fd (htonl ((length msg + 4) % 2 ^ 32)) s)

unfoldable pub send_in : NetState → Option ℕ → List ℕ → Server → Run (ℤ × Server)
unfolding send_established
send_in state none msg s = fault
send_in net_established (some fd) msg s = send_established fd msg s
send_in net_failed (some fd) msg s = done (easy_net_err_establish_failed, s)
send_in _ (some fd) msg s = done (easy_net_err_not_yet_established, s)

-- `EasyNet::Send`
unfoldable pub send : ℕ → List ℕ → Server → Run (ℤ × Server)
unfolding send_in
send net [] s = done (success, s)
send net (b ∷ bs) s = deref (s.heap.nets net) >>= λ n. send_in n.state n.hevent (b ∷ bs) s

unfoldable pub only_failure : ℤ × Server → Run (ℤ × Server)
only_failure (pos zero, s) = done (success, s)
only_failure (_, s) = done (failure, s)

unfoldable pub send_to_front_end : Option ℕ → List ℕ → Server → Run (ℤ × Server)
unfolding send only_failure
send_to_front_end none buf s = done (failure, s)
send_to_front_end (some net) [] s = done (failure, s)
send_to_front_end (some net) (b ∷ bs) s = send net (b ∷ bs) s >>= only_failure

-- The codes of `SendToBackEnd` are those of `Send`; a message that went well marks the connection.
unfoldable pub mark_active : ℕ → ℤ × Server → Run (ℤ × Server)
mark_active net (pos zero, s) = deref (s.heap.nets net) >>= λ n. done (
  success,
  record s {
    heap = record s.heap {
      nets = store net (some (record n { last_active_timestamp = s.now })) s.heap.nets;
    };
  },
)
mark_active net (r, s) = done (r, s)

unfoldable pub send_to_back_end : Option ℕ → List ℕ → Server → Run (ℤ × Server)
unfolding send mark_active
send_to_back_end none buf s = done (failure, s)
send_to_back_end (some net) [] s = done (failure, s)
send_to_back_end (some net) (b ∷ bs) s = send net (b ∷ bs) s >>= mark_active net

-- Without the write of `NULL` to the caller's pointer.
unfoldable pub destroy_front_end : Option ℕ → Server → Run Server
destroy_front_end net s =
    remove_handler net s.heap s.frontends >>= λ r. done (record s { heap = r.1; frontends = r.2 })

-- A null connection leaves the caller's zeros; the socket is cut to 32 bits.
unfoldable pub get_net_ids : Option ℕ → Server → Run (ℕ × ℕ)
get_net_ids none s = done (0, 0)
get_net_ids (some net) s =
    deref (s.heap.nets net) >>= λ n. deref n.hevent >>= λ fd. done (fd % 2 ^ 32, n.nid)

unfoldable pub get_user_context : Option ℕ → Server → Run (Option ℕ)
get_user_context none s = done none
get_user_context (some net) s = deref (s.heap.nets net) >>= λ n. done n.user_context
