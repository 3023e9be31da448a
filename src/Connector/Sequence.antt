-- ===== src/Connector/Sequence.antt =====
-- The check of a client's message: what it accepts, and that it accepts nothing twice.
use rapidapp.Base.{
  ℕ, ◌≡◌, refl, sym, ◌∙◌, Bool, true, false, not, ◌&&◌, ◌||◌, some, List, [], ◌∷◌, success, failure,
  pos, negsuc, ◌==◌, arith, ◌↔◌, ◌⊎◌, inl, inr, add64,
}
use rapidapp.Base.Run.{Run, done, ◌>>=◌}
use rapidapp.Net.Release.{store_at}
use rapidapp.Connector.State.{Server, ConnectorSession, CsMsg, put_session, magic_cs_v1}
use rapidapp.Connector.Session.{check_up_side_message}
use rapidapp.Connector.Clients.{Expected}

refused_test :
    (magic seq last : ℕ)
    → ((magic ≡ magic_cs_v1) × ((last ≡ 0) ⊎ (seq ≡ add64 last 1)))
      ⊎ ((not (magic == magic_cs_v1) || (not (last == 0) && not (seq == add64 last 1))) ≡ true)
refused_test magic seq last = ground arith

accepted_test :
    (magic seq last : ℕ)
    → (magic ≡ magic_cs_v1) × ((last ≡ 0) ⊎ (seq ≡ add64 last 1))
    → (not (magic == magic_cs_v1) || (not (last == 0) && not (seq == add64 last 1))) ≡ false
accepted_test magic seq last (h, k) = ground arith

-- Exactly the messages with the right magic and the next sequence (any sequence at first) pass, and
-- they alone change the session: it remembers the sequence.
pub check_up_side_message_cases :
    (c : ℕ) (m : CsMsg) (s : Server) (x : ConnectorSession)
    → s.heap.contexts c ≡ some x
    → (Expected x m
        × (check_up_side_message c m s
            ≡ done (success, put_session c (record x { last_seq = m.sequence }) s)))
      ⊎ ((Expected x m → ⊥) × (check_up_side_message c m s ≡ done (failure, s)))
unfolding check_up_side_message
check_up_side_message_cases c m s x h = elim (refused_test m.magic m.sequence x.last_seq) [
  | inl e ↦ inl (e, rw (h, accepted_test m.magic m.sequence x.last_seq e))
  | inr r ↦
      inr
        (λ e. absurd (conflict (sym r ∙ accepted_test m.magic m.sequence x.last_seq e)), rw (h, r))
]
  where
    conflict : true ≡ false → ⊥
    conflict e = cc

-- Messages checked one after another: whether all of them pass.
abbrev pub all_pass : ℕ → List CsMsg → Server → Run Bool
all_pass c [] s = done true
all_pass c (m ∷ ms) s = check_up_side_message c m s >>= λ r. elim r.0 [
  | pos _ ↦ all_pass c ms r.1
  | negsuc _ ↦ done false
]

-- The numbering that they must have, after a sequence.
abbrev pub Numbered : ℕ → List CsMsg → Type 0
Numbered last [] = Unit
Numbered last (m ∷ ms) =
    ((m.magic ≡ magic_cs_v1) × ((last ≡ 0) ⊎ (m.sequence ≡ add64 last 1))) × Numbered m.sequence ms

-- A list of messages passes exactly if each has the right magic and is numbered one above the one
-- before it, modulo 2 ^ 64, unless that one was numbered zero.
pub all_pass_iff :
    (c : ℕ) (ms : List CsMsg) (s : Server) (x : ConnectorSession)
    → s.heap.contexts c ≡ some x
    → (all_pass c ms s ≡ done true) ↔ Numbered x.last_seq ms
unfolding put_session
all_pass_iff c [] s x h = (λ _. tt, λ _. refl)
all_pass_iff c (m ∷ ms) s x h = elim (check_up_side_message_cases c m s x h) [
  | inl (e, run) ↦
      let x' = record x { last_seq = m.sequence } in
      let (to, from) =
        all_pass_iff c ms (put_session c x' s) x' (store_at c (some x') s.heap.contexts) in
      (λ a. (e, to (rw run at a)), λ (_, rest). rw run (from rest))
  | inr (no_match, run) ↦ (λ a. absurd (conflict (rw run at a)), λ (e, _). absurd (no_match e))
]
  where
    conflict : done false ≡ done true → ⊥
    conflict e = cc
