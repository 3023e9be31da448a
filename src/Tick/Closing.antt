-- ===== src/Tick/Closing.antt =====
-- The walk of a tick: which connections it closes.
use rapidapp.Base.{
  ◌≢◌, ℕ, suc, ◌≤◌, ◌≡◌, refl, sym, ◌∙◌, ap, Bool, true, false, ◌||◌, pos, ltb_ℤ, none, some, [],
  arith, inl, inr, Bool-cases, length, success, ◌↔◌,
}
use rapidapp.Base.Run.{done, ◌>>=◌}
use rapidapp.Timer.Firing.{no_timers}
use rapidapp.Net.{Heap, NetHandlerMgr, EasyNet, find, begin, do_something}
use rapidapp.Net.Remove.{Inv}
use rapidapp.Net.Walk.Complete.{kept, walk_through_outcome}
use rapidapp.Net.Walk.Kept.{kept_sub, kept_iff}
use rapidapp.Net.Walk.Outcome.{Visited}
use rapidapp.Net.Limits.{
  setting_of, Over, do_something-Keeps, do_something_iff, counted_anew, do_something-resets,
}
use rapidapp.Tick.{
  AppFrameWork, RapidApp, before_timers, turn, run_timers, walk, check_limits, tick,
}

abbrev limited : (max_idle max_pkg max_traffic : ℕ) → Bool
limited max_idle max_pkg max_traffic =
    ltb_ℤ (pos 0) (pos max_idle) || ltb_ℤ (pos 0) (pos max_pkg) || ltb_ℤ (pos 0) (pos max_traffic)

none_exceeds :
    (max_idle max_pkg max_traffic now : ℕ) (n : EasyNet)
    → limited max_idle max_pkg max_traffic ≡ false
    → ¬ Over max_idle max_pkg max_traffic now n
none_exceeds max_idle max_pkg max_traffic now n no_limit too_much = ground arith

as_before :
    (max_idle max_pkg max_traffic : ℕ) (n : EasyNet)
    → limited max_idle max_pkg max_traffic ≡ false
    → n ≡ counted_anew max_pkg max_traffic n
as_before max_idle max_pkg max_traffic n no_limit = ground arith

no_true : (b : Bool) → b ≢ true → b ≡ false
no_true true ne = absurd (ne refl)
no_true false ne = refl

module _ {S A : Type 0} where
  -- With no timer left, the rest of a tick is the walk.
  tick_is_walk :
      (fuel : ℕ) (app : RapidApp S A) (clock : ℕ) (f g : AppFrameWork S A)
      → before_timers app clock f ≡ g
      → g.timer_mgr.timer_list ≡ []
      → tick (suc fuel) app clock f ≡ (check_limits g >>= λ g'. done (success, g'))
  unfolding tick run_timers turn
  tick_is_walk fuel app clock f g e idle = rw (e, no_timers g.timer_mgr idle) refl

  module _ (max_idle max_pkg max_traffic : ℕ) where
    -- What a tick that closes the front ends over a limit leaves of them.
    pub record Culled (g g' : AppFrameWork S A) : Type 0 where
      pub over_limit :
          (k net : ℕ) (n : EasyNet)
          → find k g.frontend_handler_mgr.handler_pool ≡ some net
          → g.heap.nets net ≡ some n
          → (find k g'.frontend_handler_mgr.handler_pool ≡ none)
            ↔ Over max_idle max_pkg max_traffic g.now n
      pub freed :
          (k net : ℕ) (n : EasyNet)
          → find k g.frontend_handler_mgr.handler_pool ≡ some net
          → g.heap.nets net ≡ some n
          → Over max_idle max_pkg max_traffic g.now n
          → (g'.heap.nets net ≡ none)
            × ((c : ℕ) → n.user_context ≡ some c → g'.heap.contexts c ≡ none)
      pub counts :
          (k net : ℕ) (n : EasyNet)
          → find k g.frontend_handler_mgr.handler_pool ≡ some net
          → g.heap.nets net ≡ some n
          → ¬ Over max_idle max_pkg max_traffic g.now n
          → g'.heap.nets net ≡ some (counted_anew max_pkg max_traffic n)
      pub others :
          (b : ℕ)
          → ((k : ℕ) → find k g.frontend_handler_mgr.handler_pool ≢ some b)
          → g'.heap.nets b ≡ g.heap.nets b
      pub nothing_new :
          (k net : ℕ)
          → find k g'.frontend_handler_mgr.handler_pool ≡ some net
          → find k g.frontend_handler_mgr.handler_pool ≡ some net
      pub at_front : g'.frontend_handler_mgr.it_cursor ≡ begin g'.frontend_handler_mgr.handler_pool
      pub in_order : Inv g'.heap g'.frontend_handler_mgr

    -- From a walk with the limits to what it leaves.
    walked-Culled :
        (g : AppFrameWork S A) (h' : Heap S) (m' : NetHandlerMgr)
        → Inv g.heap g.frontend_handler_mgr
        → let act = do_something (setting_of max_idle max_pkg max_traffic) g.now in
          m'.handler_pool ≡ kept act g.heap.nets g.frontend_handler_mgr.handler_pool
          → m'.it_cursor ≡ begin m'.handler_pool
          → Visited act g.frontend_handler_mgr.handler_pool g.heap h'
          → Inv h' m'
          → Culled g (record g { heap = h'; frontend_handler_mgr = m' })
    walked-Culled g h' m' inv left front v inv' = record {
      over_limit = λ k net n at_k a.
          let (shut, over) = kept_iff act g.heap.nets k net n m.handler_pool inv.distinct at_k a in
          let (high, low) = limits n in
          (
            λ gone. high (shut (ap (find k) (sym left) ∙ gone)),
            λ too_much. ap (find k) left ∙ over (low too_much),
          );
      freed = λ k net n at_k a too_much. v.shut k net n at_k a ((limits n).1 too_much);
      counts = λ k net n at_k a within.
          let stays : (act n).0 ≡ false = no_true (act n).0 (λ c. within ((limits n).0 c)) in
          v.held k net n at_k a stays
          ∙ ap some (do_something-resets max_idle max_pkg max_traffic g.now n stays);
      others = v.others;
      nothing_new = λ k net f.
          kept_sub act g.heap.nets k net m.handler_pool inv.distinct (ap (find k) (sym left) ∙ f);
      at_front = front;
      in_order = inv';
    }
      where
        act : EasyNet → Bool × EasyNet
        act = do_something (setting_of max_idle max_pkg max_traffic) g.now

        m : NetHandlerMgr
        m = g.frontend_handler_mgr

        limits : (n : EasyNet) → ((act n).0 ≡ true) ↔ Over max_idle max_pkg max_traffic g.now n
        limits n = do_something_iff max_idle max_pkg max_traffic g.now n

    unlimited-Culled :
        (g : AppFrameWork S A)
        → limited max_idle max_pkg max_traffic ≡ false
        → Inv g.heap g.frontend_handler_mgr
        → g.frontend_handler_mgr.it_cursor ≡ begin g.frontend_handler_mgr.handler_pool
        → Culled g g
    unlimited-Culled g no_limit inv front = record {
      over_limit = λ k net n at_k a. (
        λ gone. absurd (clash (sym gone ∙ at_k)),
        λ too_much. absurd (none_exceeds max_idle max_pkg max_traffic g.now n no_limit too_much),
      );
      freed = λ k net n at_k a too_much.
          absurd (none_exceeds max_idle max_pkg max_traffic g.now n no_limit too_much);
      counts =
          λ k net n at_k a within. a ∙ ap some (as_before max_idle max_pkg max_traffic n no_limit);
      others = λ b no. refl;
      nothing_new = λ k net f. f;
      at_front = front;
      in_order = inv;
    }
      where
        clash : {net : ℕ} → none ≡ some net → ⊥
        clash q = cc

    limits_lem :
        (g : AppFrameWork S A)
        → g.setting ≡ setting_of max_idle max_pkg max_traffic
        → Inv g.heap g.frontend_handler_mgr
        → g.frontend_handler_mgr.it_cursor ≡ begin g.frontend_handler_mgr.handler_pool
        → length g.frontend_handler_mgr.handler_pool ≤ 1024
        → (g' : AppFrameWork S A) × (check_limits g ≡ done g') × Culled g g'
    unfolding check_limits walk
    limits_lem g e inv front few = elim (Bool-cases (limited max_idle max_pkg max_traffic)) [
      | inl some_limit ↦
          let set = setting_of max_idle max_pkg max_traffic in
          let (h', m', run, left, on, v, inv') =
            walk_through_outcome (do_something set g.now) g.heap g.frontend_handler_mgr
              (do_something-Keeps set g.now) inv front few in
          (
            record g { heap = h'; frontend_handler_mgr = m' },
            rw (e, some_limit, run) refl,
            walked-Culled g h' m' inv left on v inv',
          )
      | inr no_limit ↦ (g, rw (e, no_limit) refl, unlimited-Culled g no_limit inv front)
    ]

    -- A tick that finds no timer, at the timers' turn, on a table in order of at most 1024 front
    -- ends with the cursor at its front, comes to its end, and closes exactly the front ends that
    -- are over a limit: idle for longer, or ahead of the last walk by more messages or more bytes.
    -- Those leave the table and are freed, with their contexts. The others stay, and what a limit
    -- counts is counted from 0 again for them; nothing else of them changes. No other connection
    -- is touched, nothing is added, the table stays in order, and the next walk starts at the
    -- front again. This holds for limits that are not negative, with none of them set as well, and
    -- whatever the application does in the tick before.
    pub tick_closes_over_limit :
        (fuel : ℕ) (app : RapidApp S A) (clock : ℕ) (f g : AppFrameWork S A)
        → before_timers app clock f ≡ g
        → g.timer_mgr.timer_list ≡ []
        → g.setting ≡ setting_of max_idle max_pkg max_traffic
        → Inv g.heap g.frontend_handler_mgr
        → g.frontend_handler_mgr.it_cursor ≡ begin g.frontend_handler_mgr.handler_pool
        → length g.frontend_handler_mgr.handler_pool ≤ 1024
        → (g' : AppFrameWork S A) × (tick (suc fuel) app clock f ≡ done (success, g')) × Culled g g'
    tick_closes_over_limit fuel app clock f g start idle e inv front few =
        let (g', run, closes) = limits_lem g e inv front few in
        (g', tick_is_walk fuel app clock f g start idle ∙ rw run refl, closes)
