-- ===== src/Connector/Inputs.antt =====
-- A whole message that arrives on a client's connection is handled as `OnRecvFrontEnd` handles it, and
-- counted.
use rapidapp.Base.{
  ℕ, suc, ◌+◌, ◌^◌, ◌≤◌, ◌<◌, ◌≡◌, refl, sym, ◌∙◌, ap, Option, some, List, [], ◌∷◌, ◌++◌, length,
  take, ℤ, success, arith, append-nil, ==_refl, take_all, drop_all, inl, inr, Bool-cases, add64,
  ◌==◌,
}
use rapidapp.Base.Run.{Run, done, ◌>>=◌}
use rapidapp.Wire.{frame, go_on, Next, dispatch, resume, get_msg_length}
use rapidapp.Wire.Codec.{length-frame}
use rapidapp.Wire.Frames.{dispatch-frames, reading, deliver, IsPartial}
use rapidapp.Net.{EasyNet, store, find, get_handler_by_event}
use rapidapp.Connector.State.{Server, ConnectorSession, BackEndSet, Codec}
use rapidapp.Connector.Sends.{Established}
use rapidapp.Connector.Clients.{Client}
use rapidapp.Connector.Steps.{Reached, some_inj, ==→≡}
use rapidapp.Connector.{on_recv_front_end, front_end_round}
use rapidapp.Connector.Events.{on_front_end_msg, account}

-- Other counters and times on a connection.
abbrev pub touch : ℕ → EasyNet → Server → Server
touch net n s = record s { heap = record s.heap { nets = store net (some n) s.heap.nets } }

abbrev Same : EasyNet → EasyNet → Type 0
Same n n' = (n'.hevent ≡ n.hevent) × (n'.state ≡ n.state) × (n'.user_context ≡ n.user_context)

touch-alive : (net : ℕ) (n : EasyNet) (s : Server) → (touch net n s).heap.nets net ≡ some n
touch-alive net n s = rw (==_refl net) refl

touch-Client :
    (s : Server) (net c fd : ℕ) (n n' : EasyNet) (x : ConnectorSession)
    → Client s net c fd n x
    → Same n n'
    → Client (touch net n' s) net c fd n' x
touch-Client s net c fd n n' x k (e, f, g) = record {
  established = record {
    alive = touch-alive net n' s;
    socket = e ∙ k.established.socket;
    state = f ∙ k.established.state;
  };
  context = g ∙ k.context;
  session = k.session;
  stub = k.stub;
  frame = k.frame;
}

touch-Established :
    (s : Server) (net : ℕ) (n n' : EasyNet) (b to : ℕ) (nb : EasyNet)
    → s.heap.nets net ≡ some n
    → Same n n'
    → Established s b to nb
    → (nb' : EasyNet) × Established (touch net n' s) b to nb'
touch-Established s net n n' b to nb alive (h, k, _) e = elim (Bool-cases (b == net)) [
  | inl q ↦
      let same : n ≡ nb =
        some_inj n nb (sym alive ∙ ap s.heap.nets (sym (==→≡ b net q)) ∙ e.alive) in
      (
        n',
        record {
          alive = rw q refl;
          socket = h ∙ ap (λ m. m.hevent) same ∙ e.socket;
          state = k ∙ ap (λ m. m.state) same ∙ e.state;
        },
      )
  | inr q ↦ (nb, record { alive = rw q e.alive; socket = e.socket; state = e.state })
]

abbrev counted : EasyNet → EasyNet
counted n = record n { curr_pkg_count = add64 n.curr_pkg_count 1 }

abbrev accounted : ℕ → ℕ → EasyNet → EasyNet
accounted elapsed now n = record n {
  curr_traffic_bytes = add64 n.curr_traffic_bytes elapsed;
  last_active_timestamp = now;
}

-- Where a message has led, with the connection's counters written.
touch-Reached :
    (s s1 : Server) (net c fd : ℕ) (n n' : EasyNet) (x1 : ConnectorSession)
    (out : List (ℕ × List ℕ)) (ends : BackEndSet)
    → Same n n'
    → Reached s s1 net c fd n x1 out ends
    → Reached s (touch net n' s1) net c fd n' x1 out ends
touch-Reached s s1 net c fd n n' x1 out ends same r = record {
  client = touch-Client s1 net c fd n n' x1 r.client same;
  went_out = r.went_out;
  works = r.works;
  turns = r.turns;
  table = r.table;
  kept = λ b to nb e.
      let (na, ea) = r.kept b to nb e in
      touch-Established s1 net n n' b to na r.client.established.alive same ea;
}

empty-IsPartial : IsPartial []
unfolding get_msg_length
empty-IsPartial = inl refl

looped :
    {S : Type 0} (h : List ℕ → S → Run (Next S)) (recv_buff_size : ℕ) (m : List ℕ) (s : S)
    → length m + 4 ≤ recv_buff_size
    → length m + 4 < 2 ^ 31
    → dispatch
        (suc (length (take recv_buff_size (frame m))))
        (reading h (take recv_buff_size (frame m)))
        (take recv_buff_size (frame m))
        0
        s
      ≡ deliver h (m ∷ []) 0 s
looped h recv_buff_size m s fits small =
    let whole = take_all recv_buff_size (frame m) (omega (arith, length-frame m)) in
    let alone : frame m ≡ (frame m ++ []) ++ [] =
      sym (append-nil (frame m ++ []) ∙ append-nil (frame m)) in
    dispatch-frames h (m ∷ []) [] [] (take recv_buff_size (frame m)) 0
      (suc (length (take recv_buff_size (frame m)))) s (small, tt) empty-IsPartial (whole ∙ alone)
      refl (omega (arith, ap length (whole ∙ alone)))

deliver-one :
    {S : Type 0} (h : List ℕ → S → Run (Next S)) (m : List ℕ) (s s' : S)
    → h m s ≡ done (go_on s')
    → deliver h (m ∷ []) 0 s ≡ done (some (0 + (length m + 4)), s')
unfolding resume
deliver-one h m s s' e = rw e refl

account-one :
    (m : List ℕ) (s : Server) (net : ℕ) (n : EasyNet)
    → account net (frame m) (some (0 + (length m + 4)), touch net n s)
      ≡ done (success, [], touch net (accounted (0 + (length m + 4)) s.now n) (touch net n s))
unfolding account
account-one m s net n =
    rw (==_refl net, drop_all (0 + (length m + 4)) (frame m) (omega (arith, length-frame m))) refl

module _ (codec : Codec) where
  round :
      (m : List ℕ) (s s1 : Server) (net c fd : ℕ) (n : EasyNet) (x1 : ConnectorSession)
      (r : Option ℤ)
      → on_recv_front_end codec net m s ≡ done (r, s1)
      → Client s1 net c fd n x1
      → front_end_round codec net m s ≡ done (go_on (touch net (counted n) s1))
  unfolding front_end_round
  round m s s1 net c fd n x1 r run k = rw (run, k.established.alive) refl

  on_front_end_msg-found :
      (recv_buff_size fd : ℕ) (input : List ℕ) (s : Server) (net : ℕ)
      → find fd s.frontends.handler_pool ≡ some net
      → on_front_end_msg codec recv_buff_size fd input s ≡ (
          dispatch
            (suc (length (take recv_buff_size input)))
            (reading (front_end_round codec net) (take recv_buff_size input))
            (take recv_buff_size input)
            0
            s
          >>= account net input)
  unfolding on_front_end_msg get_handler_by_event
  on_front_end_msg-found recv_buff_size fd input s net found = rw (on_front_end_msg, found) refl

  -- A whole message, alone in the input, is handed over and leaves nothing.
  pub one_message :
      (recv_buff_size : ℕ) (m : List ℕ) (s s1 : Server) (net c fd : ℕ) (n : EasyNet)
      (x1 : ConnectorSession) (r : Option ℤ) (out : List (ℕ × List ℕ)) (ends : BackEndSet)
      → find fd s.frontends.handler_pool ≡ some net
      → on_recv_front_end codec net m s ≡ done (r, s1)
      → Reached s s1 net c fd n x1 out ends
      → length m + 4 ≤ recv_buff_size
      → length m + 4 < 2 ^ 31
      → (n' : EasyNet) × (s' : Server) × (on_front_end_msg codec recv_buff_size fd (frame m) s
          ≡ done (success, [], s'))
        × (n'.nid ≡ n.nid)
        × Reached s s' net c fd n' x1 out ends
  one_message recv_buff_size m s s1 net c fd n x1 r out ends found run reached fits small =
      let s2 = touch net (counted n) s1 in
      let n' = accounted (0 + (length m + 4)) s1.now (counted n) in
      let r2 = touch-Reached s s1 net c fd n (counted n) x1 out ends (refl, refl, refl) reached in
      let r3 = touch-Reached s s2 net c fd (counted n) n' x1 out ends (refl, refl, refl) r2 in
      (
        n',
        touch net n' s2,
        on_front_end_msg-found recv_buff_size fd (frame m) s net found
            ∙ (ap (λ q. q >>= account net (frame m))
                  (looped (front_end_round codec net) recv_buff_size m s fits small
                    ∙ deliver-one (front_end_round codec net) m s s2
                        (round m s s1 net c fd n x1 r run reached.client))
                ∙ account-one m s1 net (counted n)),
        refl,
        r3,
      )
