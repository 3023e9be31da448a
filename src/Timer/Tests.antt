-- ===== src/Timer/Tests.antt =====
-- Runs of the timer manager on small lists, and the theorems at such inputs.
use rapidapp.Base.{◌≡◌, refl, some, [], ◌∷◌, arith, ◌+◌, ◌%◌, ◌^◌}
use rapidapp.Base.Run.{fault}
use rapidapp.Timer.{EasyTimer, TimerMgr, key, step, get_next_active_timer, remove_timer}
use rapidapp.Timer.Order.{Inv, AllFrom, Placed, get_next_active_timer_first}
use rapidapp.Timer.Remove.{remove_timer_last}

abbrev soon : EasyTimer
soon = record { addr = 1; next_active_timestamp = 100; time_step = 50; timer_id = 7 }

abbrev later : EasyTimer
later = record { addr = 2; next_active_timestamp = 120; time_step = 10; timer_id = 8 }

abbrev two_timers : TimerMgr
two_timers = record { max_timer_num = 4; timer_list = soon ∷ later ∷ [] }

-- The first timer moves behind the second.
next_moves_back : (get_next_active_timer two_timers).1.timer_list ≡ later ∷ step soon ∷ []
unfolding get_next_active_timer key step
next_moves_back = refl

two_timers-Inv : Inv two_timers
unfolding key
two_timers-Inv = omega arith

get_next_active_timer_first_example :
    let moved : EasyTimer = record soon { next_active_timestamp = (100 + 50) % 2 ^ 64 } in
    ((get_next_active_timer two_timers).0 ≡ some moved)
    × AllFrom (key soon) (later ∷ [])
    × Placed moved (later ∷ []) (get_next_active_timer two_timers).1.timer_list
    × Inv (get_next_active_timer two_timers).1
get_next_active_timer_first_example =
    get_next_active_timer_first two_timers soon (later ∷ []) two_timers-Inv refl

remove_timer_last_example : remove_timer (some 2) two_timers ≡ fault
remove_timer_last_example = remove_timer_last two_timers (soon ∷ []) later refl (omega arith)
