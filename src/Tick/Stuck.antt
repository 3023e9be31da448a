-- ===== src/Tick/Stuck.antt =====
-- The timers of a tick. `GetNextActiveTimer` does not look at the clock, so the loop over them stops
-- only when no timer is left.
use rapidapp.Base.{ℕ, zero, suc, ◌≡◌, ◌≢◌, inl, inr, refl, []}
use rapidapp.Base.Run.{exhausted}
use rapidapp.Timer.{EasyTimer}
use rapidapp.Timer.Firing.{NextCases, next_cases}
use rapidapp.Tick.{AppFrameWork, RapidApp, before_timers, turn, run_timers, tick}

module _ {S A : Type 0} (app : RapidApp S A)
    (keep : (t : EasyTimer) (f : AppFrameWork S A)
      → f.timer_mgr.timer_list ≢ []
      → (app.on_timer t f).timer_mgr.timer_list ≢ []) where
  run_timers_never_ends :
      (fuel : ℕ) (f : AppFrameWork S A)
      → f.timer_mgr.timer_list ≢ []
      → run_timers fuel app f ≡ exhausted
  unfolding run_timers turn NextCases
  run_timers_never_ends zero f ne = refl
  run_timers_never_ends (suc fuel) f ne = elim (next_cases f.timer_mgr) [
    | inl (e, _) ↦ absurd (ne e)
    | inr (t, m, eq, left) ↦
        let g = record f { timer_mgr = m } in
        rw eq (run_timers_never_ends fuel (app.on_timer t g) (keep t g left))
  ]

  -- While `OnTimer` leaves at least one timer, a tick that finds a timer at the timers' turn never
  -- comes to its end: no number of rounds is enough.
  pub tick_never_ends :
      (fuel clock : ℕ) (f g : AppFrameWork S A)
      → before_timers app clock f ≡ g
      → g.timer_mgr.timer_list ≢ []
      → tick fuel app clock f ≡ exhausted
  unfolding tick
  tick_never_ends fuel clock f g start ne = rw (start, run_timers_never_ends fuel g ne) refl
