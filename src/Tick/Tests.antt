-- ===== src/Tick/Tests.antt =====
-- Ticks over a table of one connection.
use rapidapp.Base.{ℕ, ◌≡◌, refl, true, false, [], ◌∷◌, success, arith}
use rapidapp.Base.Run.{done, exhausted}
use rapidapp.Timer.{TimerMgr}
use rapidapp.Net.{begin}
use rapidapp.Net.Limits.{setting_of}
use rapidapp.Net.Example.{heap, table, table-Inv}
use rapidapp.Tick.{AppFrameWork, RapidApp, before_timers, tick}
use rapidapp.Tick.Closing.{Culled, tick_closes_over_limit}
use rapidapp.Tick.Stuck.{tick_never_ends}

-- An application that stops at its first update.
abbrev app : RapidApp ℕ ℕ
app = record {
  on_reload = λ f. f;
  on_update = λ f. record f { running = false; app_state = 1 };
  on_timer = λ t f. f;
}

abbrev framework : TimerMgr → AppFrameWork ℕ ℕ
framework timers = record {
  app_state = 0;
  running = true;
  loop_broken = false;
  reloading = true;
  schedule_update = true;
  now = 110;
  setting = setting_of 0 10 0;
  timer_mgr = timers;
  heap = heap;
  frontend_handler_mgr = table;
}

abbrev no_timer : TimerMgr
no_timer = record { max_timer_num = 4; timer_list = [] }

abbrev one_timer : TimerMgr
one_timer = record {
  max_timer_num = 4;
  timer_list = record { addr = 1; next_active_timestamp = 500; time_step = 50; timer_id = 7 } ∷ [];
}

abbrev ticked : TimerMgr → AppFrameWork ℕ ℕ
ticked timers = record (framework timers) {
  running = false;
  app_state = 1;
  reloading = false;
  now = 120;
}

starts : (timers : TimerMgr) → before_timers app 120 (framework timers) ≡ ticked timers
unfolding before_timers
starts timers = refl

tick_closes_over_limit_example :
    (g' : AppFrameWork ℕ ℕ) × (tick 1 app 120 (framework no_timer) ≡ done (success, g'))
    × Culled 0 10 0 (ticked no_timer) g'
unfolding begin
tick_closes_over_limit_example =
    tick_closes_over_limit 0 10 0 0 app 120 (framework no_timer) (ticked no_timer) (starts no_timer)
      refl refl table-Inv refl (omega arith)

-- The timer is not due for a long time.
tick_never_ends_example : tick 1000 app 120 (framework one_timer) ≡ exhausted
tick_never_ends_example =
    tick_never_ends app (λ t f ne. ne) 1000 120 (framework one_timer) (ticked one_timer)
      (starts one_timer) (λ e. cc)
