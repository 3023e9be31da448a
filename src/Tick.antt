-- ===== src/Tick.antt =====
-- `AppFrameWork::Tick`, `Reload` and what they read, with the functions of the framework that set
-- it (framework/rapidapp_framework_imp.{h,cpp}). The application is an argument: each callback turns
-- the framework, with the application's own state in it, into what it leaves of it. `S` is the type
-- of the user contexts, `A` that of the application's state.
pub mod Closing
pub mod Stuck
mod Tests
use rapidapp.Base.{
  ℕ, zero, suc, Bool, true, false, ◌||◌, Option, none, some, ℤ, pos, success, ltb_ℤ, if◌then◌else◌,
}
use rapidapp.Base.Run.{Run, done, exhausted, ◌>>=◌}
use rapidapp.Timer.{EasyTimer, TimerMgr, get_next_active_timer, add_timer, remove_timer}
use rapidapp.Net.{Heap, NetHandlerMgr, Setting, do_something, walk_through}

-- `loop_broken` is libevent's mark that its loop is to end.
pub record AppFrameWork (S A : Type 0) : Type 0 where
  pub app_state : A
  pub running : Bool
  pub loop_broken : Bool
  pub reloading : Bool
  pub schedule_update : Bool
  pub now : ℕ
  pub setting : Setting
  pub timer_mgr : TimerMgr
  pub heap : Heap S
  pub frontend_handler_mgr : NetHandlerMgr

-- The callbacks of a `RapidApp` that a tick makes.
pub record RapidApp (S A : Type 0) : Type 0 where
  pub on_reload : AppFrameWork S A → AppFrameWork S A
  pub on_update : AppFrameWork S A → AppFrameWork S A
  pub on_timer : EasyTimer → AppFrameWork S A → AppFrameWork S A

module _ {S A : Type 0} where
  unfoldable pub signal_stop_handler : AppFrameWork S A → AppFrameWork S A
  signal_stop_handler f = record f { running = false }

  unfoldable pub signal_reload_handler : AppFrameWork S A → AppFrameWork S A
  signal_reload_handler f = record f { reloading = true }

  -- `AppFrameWork::ScheduleUpdate` and `UnScheduleUpdate`
  unfoldable pub schedule_update : AppFrameWork S A → AppFrameWork S A
  schedule_update f = record f { schedule_update = true }

  unfoldable pub un_schedule_update : AppFrameWork S A → AppFrameWork S A
  un_schedule_update f = record f { schedule_update = false }

  unfoldable pub create_timer :
      Option ℕ → (clock time timer_id : ℕ) → AppFrameWork S A → Option EasyTimer × AppFrameWork S A
  create_timer fresh clock time timer_id f =
      let (t, m) = add_timer fresh clock time timer_id f.timer_mgr in
      (t, record f { timer_mgr = m })

  -- The caller's pointer is null afterwards.
  unfoldable pub destroy_timer : Option ℕ → AppFrameWork S A → Run (Option ℕ × AppFrameWork S A)
  destroy_timer none f = done (none, f)
  destroy_timer (some timer) f =
      remove_timer (some timer) f.timer_mgr >>= λ (_, m). done (none, record f { timer_mgr = m })

  -- A tick up to its timers, at the clock's reading `clock`.
  unfoldable pub before_timers : RapidApp S A → (clock : ℕ) → AppFrameWork S A → AppFrameWork S A
  before_timers app clock f =
      let f1 = record f { now = clock } in
      let f2 = if f1.running then f1 else record f1 { loop_broken = true } in
      let f3 = if f2.reloading then record (app.on_reload f2) { reloading = false } else f2 in
      if f3.schedule_update then app.on_update f3 else f3

  -- The `while (true)` over the timers; `rest` is the loop from the next round on.
  turn :
      RapidApp S A
      → (AppFrameWork S A → Run (AppFrameWork S A))
      → AppFrameWork S A
      → Option EasyTimer × TimerMgr
      → Run (AppFrameWork S A)
  turn app rest f (none, m) = done (record f { timer_mgr = m })
  turn app rest f (some t, m) = rest (app.on_timer t (record f { timer_mgr = m }))

  unfoldable pub run_timers : ℕ → RapidApp S A → AppFrameWork S A → Run (AppFrameWork S A)
  unfolding turn
  run_timers zero app f = exhausted
  run_timers (suc fuel) app f =
      turn app (λ g. run_timers fuel app g) f (get_next_active_timer f.timer_mgr)

  -- The walk over the front ends.
  walk : AppFrameWork S A → Run (AppFrameWork S A)
  walk f = walk_through (do_something f.setting f.now) f.heap f.frontend_handler_mgr >>= λ (h, m).
      done (record f { heap = h; frontend_handler_mgr = m })

  -- It is made where there is a limit.
  unfoldable pub check_limits : AppFrameWork S A → Run (AppFrameWork S A)
  unfolding walk
  check_limits f =
      if ltb_ℤ (pos 0) f.setting.max_idle
        || ltb_ℤ (pos 0) f.setting.max_pkg_speed
        || ltb_ℤ (pos 0) f.setting.max_traffic_speed
      then walk f
      else done f

  -- `AppFrameWork::Tick`, with `fuel` rounds for the timers.
  unfoldable pub tick :
      ℕ → RapidApp S A → (clock : ℕ) → AppFrameWork S A → Run (ℤ × AppFrameWork S A)
  unfolding before_timers run_timers check_limits
  tick fuel app clock f = run_timers fuel app (before_timers app clock f) >>= λ g.
      check_limits g >>= λ g'. done (success, g')
