-- ===== src/ClientApi/Copying.antt =====
-- `PopMessageFromRecvQ` never writes past the buffer of its caller.
use rapidapp.Base.{
  if_case, if_case_eq, ℕ, ◌≤◌, ◌≡◌, true, false, Option, none, some, List, length, ℤ, success,
  eqb_ℤ, ltb, ◌==◌, arith,
}
use rapidapp.Base.Run.{done, deref, Ensures, Ensures-any, Ensures-done}
use rapidapp.Connector.State.{Codec}
use rapidapp.ClientApi.State.{ClientProtocol, Answers}
use rapidapp.ClientApi.Calls.{peek_message, pop_message}
use rapidapp.ClientApi.{ClientThread, copy_out, pop_message_from_recv_q}

abbrev Fits : ℕ → ℤ × List ℕ × ClientThread → Type 0
Fits capacity (r, bytes, t) = length bytes ≤ capacity

leb_of_ltb : (a b : ℕ) → ltb a b ≡ false → b ≤ a
leb_of_ltb a b h = ground arith

copy-Fits :
    (capacity : ℕ) (t : ClientThread) (p : ℤ × Option (List ℕ) × ClientProtocol)
    → Ensures (Fits capacity) (copy_out capacity t p)
unfolding copy_out
copy-Fits capacity t (r, none, c) =
    if_case (Ensures (Fits capacity)) (eqb_ℤ r success) _ _
      (Ensures-any (Fits capacity) (pop_message c) _ (λ q. ground arith)) (ground arith)
copy-Fits capacity t (r, some bytes, c) =
    if_case (Ensures (Fits capacity)) (eqb_ℤ r success) _ _
      (if_case_eq (Ensures (Fits capacity)) (ltb capacity (length bytes)) _ _ (λ _. ground arith)
        (λ e.
          Ensures-any (Fits capacity) (pop_message c) _
            (λ q. leb_of_ltb capacity (length bytes) e)))
      (ground arith)

-- However long the message is, and whatever its length field says, the bytes that are copied are
-- no more than the caller has room for.
pub popped_bytes_fit :
    (codec : Codec) (a : Answers) (capacity : ℕ) (t t' : ClientThread) (r : ℤ) (bytes : List ℕ)
    → pop_message_from_recv_q codec (some capacity) a t ≡ done (r, bytes, t')
    → length bytes ≤ capacity
unfolding pop_message_from_recv_q
popped_bytes_fit codec a capacity t t' r bytes e =
    Ensures-done (Fits capacity) (pop_message_from_recv_q codec (some capacity) a t) (r, bytes, t')
      (if_case (Ensures (Fits capacity)) (capacity == 0) _ _ (ground arith) (
        Ensures-any (Fits capacity) (deref t.ccproto) _ (λ c.
          Ensures-any (Fits capacity) (peek_message codec true a c) _
            (λ p. copy-Fits capacity t p))))
      e
