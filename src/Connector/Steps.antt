-- ===== src/Connector/Steps.antt =====
-- Single steps of the handshake and what they leave: the lemmas under the theorems of Handshake.
use rapidapp.Base.{
  ℕ, suc, ◌%◌, ◌^◌, ◌≡◌, ◌≢◌, refl, sym, ◌∙◌, ap, Bool, true, false, not, ◌&&◌, none, some, List,
  [], ◌++◌, success, failure, ==_refl, arith, inl, inr, ◌==◌, if◌then◌else◌, Bool-cases,
}
use rapidapp.Base.Run.{done, ◌>>=◌}
use rapidapp.Net.{net_established, EasyNet, store, find, get_handler_by_async_ids}
use rapidapp.Connector.State.{
  Server, ConnectorSession, SessionState, state_syning, state_synack, state_ok, CsMsg, SsMsg, Codec,
  put_session, is_state, BackEndSet,
}
use rapidapp.Connector.Frame.{get_user_context}
use rapidapp.Connector.Session.{
  drive_state_machine, drive_in, hand_shake_start_session, start_to_back_end, syn_msg,
  take_back_end, log_net_stub, set_sid, then_state, serialize_and_send_to_front_end,
}
use rapidapp.Connector.Sends.{Established, AllWork, sent_on, framed, marked, send_to_back_end-works}
use rapidapp.Connector.Clients.{
  Client, put_session-Client, marked-Client, get_net_ids-Client, sent_on-Client, sent-sent_on,
  serialize_and_send-works, then_state-works, check-works, Expected,
}
use rapidapp.Connector.{on_recv_front_end, checked, start_at_once, close_if_failed, back_end_drives}

-- What a step leaves: the client with its session changed, the messages gone out behind those sent
-- before, and writes that still work.
pub record Reached (s s' : Server) (net c fd : ℕ) (n : EasyNet) (x' : ConnectorSession)
    (out : List (ℕ × List ℕ)) (ends : BackEndSet) : Type 0 where
  pub client : Client s' net c fd n x'
  pub went_out : s'.sent ≡ s.sent ++ out
  pub works : AllWork s'
  pub turns : s'.back_ends ≡ ends
  pub table : s'.frontends ≡ s.frontends
  pub kept :
      (b bfd : ℕ) (nb : EasyNet)
      → Established s b bfd nb
      → (nb' : EasyNet) × Established s' b bfd nb'

-- Protocol buffers with required fields are never empty.
abbrev pub NeverEmpty : Codec → Type 0
NeverEmpty codec = ((m : CsMsg) → codec.cs_bytes m ≢ []) × ((m : SsMsg) → codec.ss_bytes m ≢ [])

pub some_inj : {A : Type 0} (a b : A) → some a ≡ some b → a ≡ b
some_inj a b h = cc

pub ==→≡ : (a b : ℕ) → (a == b) ≡ true → a ≡ b
==→≡ a b h = ground arith

-- Every connection that can be written to still can be when one of them is marked active.
marked-kept :
    (s : Server) (back : ℕ) (to : ℕ) (nb : EasyNet)
    → Established s back to nb
    → (b bfd : ℕ) (n : EasyNet) → Established s b bfd n
    → (n' : EasyNet) × (store back
          (some (record nb { last_active_timestamp = s.now }))
          s.heap.nets
          b
        ≡ some n')
      × (n'.hevent ≡ some bfd)
      × (n'.state ≡ net_established)
marked-kept s back to nb eb b bfd n e = elim (Bool-cases (b == back)) [
  | inl q ↦
      let same : nb ≡ n =
        some_inj nb n (sym eb.alive ∙ ap s.heap.nets (sym (==→≡ b back q)) ∙ e.alive) in
      (
        record nb { last_active_timestamp = s.now },
        rw q,
        ap (λ m. m.hevent) same ∙ e.socket,
        eb.state,
      )
  | inr q ↦ (n, rw q e.alive, e.socket, e.state)
]

-- A back end's two numbers find the connection that they belong to.
pub async_ids :
    (fd nid : ℕ) (s : Server) (net : ℕ) (n : EasyNet)
    → find fd s.frontends.handler_pool ≡ some net
    → s.heap.nets net ≡ some n
    → nid ≡ n.nid
    → get_handler_by_async_ids fd nid s.heap s.frontends ≡ done (some net)
unfolding get_handler_by_async_ids
async_ids fd nid s net n found alive e =
    rw (get_handler_by_async_ids, found, alive, ◌>>=◌, e, ==_refl n.nid)

pub not_ignored :
    (fin : Bool) (state : SessionState)
    → state ≡ state_synack
    → (not fin && is_state state_ok state) ≡ false
not_ignored fin state h = rw h (and_false (not fin))
  where
    and_false : (b : Bool) → (b && false) ≡ false
    and_false true = refl
    and_false false = refl

module _ (codec : Codec) (filled : NeverEmpty codec) where
  -- A message to the client, and the next state.
  pub send_and_step :
      (s : Server) (net c fd : ℕ) (n : EasyNet) (x : ConnectorSession) (msg : CsMsg)
      (state : SessionState)
      → Client s net c fd n x
      → AllWork s
      → (s' : Server) × ((serialize_and_send_to_front_end codec c msg s >>= then_state c state)
          ≡ done (success, s'))
        × Reached s s' net c fd n
            (record x { state = state })
            (framed fd (codec.cs_bytes msg))
            s.back_ends
  unfolding put_session
  send_and_step s net c fd n x msg state k w = (
    put_session c (record x { state = state }) (sent_on fd (codec.cs_bytes msg) s),
    rw (serialize_and_send-works codec s net c fd n x msg k w (filled.0 msg)) (
        then_state-works (sent_on fd (codec.cs_bytes msg) s) net c fd n x state
          (sent_on-Client s net c fd n x fd (codec.cs_bytes msg) k)),
    record {
      client =
          put_session-Client (sent_on fd (codec.cs_bytes msg) s) net c fd n x
            (record x { state = state }) (sent_on-Client s net c fd n x fd (codec.cs_bytes msg) k)
            k.stub k.frame;
      went_out = sent-sent_on s fd (codec.cs_bytes msg);
      works = λ i. w (suc (suc i));
      turns = refl;
      table = refl;
      kept = λ b bfd nb e. (nb, record { alive = e.alive; socket = e.socket; state = e.state });
    },
  )

  -- The state machine, from the state of the session.
  pub drive-state :
      (s : Server) (c : ℕ) (x : ConnectorSession) (state : SessionState)
      → s.heap.contexts c ≡ some x
      → x.state ≡ state
      → drive_state_machine codec c s ≡ drive_in codec state c s
  unfolding drive_state_machine
  drive-state s c x state h st = rw (h, st)

  close_works : (net : ℕ) (s : Server) → close_if_failed (some net) (success, s) ≡ done (false, s)
  unfolding close_if_failed
  close_works net s = refl

  -- A message that is due and comes from a client still in the handshake drives it one step, and
  -- one more from `SYNING`.
  pub checked-drives :
      (s s' : Server) (net c : ℕ) (x x' : ConnectorSession) (m : CsMsg)
      (state reached : SessionState)
      → s.heap.contexts c ≡ some x
      → x.state ≡ state
      → is_state state_ok x.state ≡ false
      → drive_in codec state c s ≡ done (success, s')
      → s'.heap.contexts c ≡ some x'
      → x'.state ≡ reached
      → checked codec net c m (success, s) ≡ elim (is_state state_syning reached) [
        | false ↦ done (none, s')
        | true ↦ drive_state_machine codec c s' >>= close_if_failed (some net) >>= λ r.
            done (if r.0 then some failure else none, r.1)
      ]
  unfolding checked start_at_once
  checked-drives s s' net c x x' m state reached h st early run h' st' =
      rw (h, ◌>>=◌, early, drive-state s c x state h st, run, h', st')

  pub recv-checks :
      (s : Server) (net c fd : ℕ) (n : EasyNet) (x : ConnectorSession) (msg : List ℕ)
      → Client s net c fd n x
      → Expected x (codec.parse_cs msg)
      → on_recv_front_end codec net msg s
        ≡ checked codec net c
            (codec.parse_cs msg)
            (success, put_session c (record x { last_seq = (codec.parse_cs msg).sequence }) s)
  unfolding on_recv_front_end get_user_context
  recv-checks s net c fd n x msg k ok =
      rw (k.established.alive, k.context, check-works s net c fd n x (codec.parse_cs msg) k ok)

  start_to_back_end-works :
      (s : Server) (net c fd back bfd : ℕ) (n nb : EasyNet) (x : ConnectorSession)
      → Client s net c fd n x
      → AllWork s
      → Established s back bfd nb
      → start_to_back_end codec c (some back) s
        ≡ done (
          success,
          marked back nb (sent_on bfd (codec.ss_bytes (syn_msg (fd % 2 ^ 32, n.nid) x.sid)) s),
        )
  unfolding start_to_back_end log_net_stub
  start_to_back_end-works s net c fd back bfd n nb x k w e = rw (
    k.session,
    k.frame,
    get_net_ids-Client s net c fd n x k,
    send_to_back_end-works s back bfd nb (codec.ss_bytes (syn_msg (fd % 2 ^ 32, n.nid) x.sid)) e w
        (filled.1 _),
  )

  -- The step to the back end whose turn it is.
  pub start_session :
      (s : Server) (net c fd back bfd : ℕ) (n nb : EasyNet) (x : ConnectorSession)
      → Client s net c fd n x
      → AllWork s
      → (take_back_end s.back_ends).0 ≡ some back
      → Established s back bfd nb
      → net ≢ back
      → (s' : Server) × (hand_shake_start_session codec c s ≡ done (success, s'))
        × Reached s s' net c fd n
            (record x { state = state_synack })
            (framed bfd (codec.ss_bytes (syn_msg (fd % 2 ^ 32, n.nid) x.sid)))
            (take_back_end s.back_ends).1
  unfolding hand_shake_start_session put_session
  start_session s net c fd back bfd n nb x k w turn e ne =
      let msg = codec.ss_bytes (syn_msg (fd % 2 ^ 32, n.nid) x.sid) in
      let s1 = record s { back_ends = (take_back_end s.back_ends).1 } in
      let k1 : Client s1 net c fd n x = record {
        established = record {
          alive = k.established.alive;
          socket = k.established.socket;
          state = k.established.state;
        };
        context = k.context;
        session = k.session;
        stub = k.stub;
        frame = k.frame;
      } in
      let e1 : Established s1 back bfd nb = record {
        alive = e.alive;
        socket = e.socket;
        state = e.state;
      } in
      let s2 = marked back nb (sent_on bfd msg s1) in
      let k2 : Client s2 net c fd n x =
        marked-Client (sent_on bfd msg s1) net c fd n x back nb
          (sent_on-Client s1 net c fd n x bfd msg k1) ne in
      (
        put_session c (record x { state = state_synack }) s2,
        rw (turn, start_to_back_end-works s1 net c fd back bfd n nb x k1 w e1)
            (then_state-works s2 net c fd n x state_synack k2),
        record {
          client =
              put_session-Client s2 net c fd n x (record x { state = state_synack }) k2 k.stub
                k.frame;
          went_out = sent-sent_on s bfd msg;
          works = λ i. w (suc (suc i));
          turns = refl;
          table = refl;
          kept = λ b to m em.
              let (m', alive, socket, state) = marked-kept s back bfd nb e b to m em in
              (m', record { alive = alive; socket = socket; state = state });
        },
      )

  -- Whatever drives the state machine from the back end's side brings the session's number.
  pub drives-back :
      (s s' : Server) (net c : ℕ) (x x' : ConnectorSession) (m : SsMsg) (state : SessionState)
      → s.heap.contexts c ≡ some x
      → x.state ≡ state
      → drive_in codec state c s ≡ done (success, s')
      → s'.heap.contexts c ≡ some x'
      → back_end_drives codec net c m s
        ≡ done (success, put_session c (record x' { sid = m.sid }) s')
  unfolding back_end_drives set_sid close_if_failed
  drives-back s s' net c x x' m state h st run h' = rw (drive-state s c x state h st, run, h')
