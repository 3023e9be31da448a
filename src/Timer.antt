-- ===== src/Timer.antt =====
-- framework/rapidapp_easy_timer.{h,cpp} and rapidapp_timer_mgr.{h,cpp}. A pointer to a timer is its
-- address; the list holds the timers themselves, each with its address. `time_t` is 64 bits, signed.
pub mod Order
pub mod Remove
pub mod Firing
mod Tests
use rapidapp.Base.{
  ℕ, zero, suc, ◌+◌, ◌%◌, ◌^◌, Bool, true, false, Option, none, some, List, [], ◌∷◌, length, ℤ,
  success, failure, add64, ltb, leb, ◌==◌, if◌then◌else◌, erase_at, get_elem?,
}
use rapidapp.Base.Run.{Run, done, fault, exhausted, ◌>>=◌}

pub record EasyTimer : Type 0 where
  pub addr : ℕ
  pub next_active_timestamp : ℕ
  pub time_step : ℕ
  pub timer_id : ℕ

pub record TimerMgr : Type 0 where
  pub max_timer_num : ℕ
  pub timer_list : List EasyTimer

-- The order of signed 64-bit timestamps, as an order of numbers.
unfoldable pub key : EasyTimer → ℕ
key t = (t.next_active_timestamp + 2 ^ 63) % 2 ^ 64

-- `EasyTimer::Step`
unfoldable pub step : EasyTimer → EasyTimer
step t = record t { next_active_timestamp = add64 t.next_active_timestamp t.time_step }

-- `EasyTimer::Start`, with the clock's reading.
unfoldable pub start : ℕ → EasyTimer → EasyTimer
start now t = record t { next_active_timestamp = add64 now t.time_step }

unfoldable pub timer_cmp_func : Option EasyTimer → Option EasyTimer → Bool
timer_cmp_func none b = false
timer_cmp_func (some a) none = false
timer_cmp_func (some a) (some b) = ltb (key a) (key b)

-- `std::upper_bound` with `timer_cmp_func`: the first position whose timer is after the given one.
unfoldable pub upper_bound : List EasyTimer → EasyTimer → ℕ
unfolding timer_cmp_func
upper_bound [] t = 0
upper_bound (e ∷ es) t = if timer_cmp_func (some t) (some e) then 0 else suc (upper_bound es t)

-- `vector::insert`
unfoldable pub insert_at : ℕ → EasyTimer → List EasyTimer → List EasyTimer
insert_at zero t es = t ∷ es
insert_at (suc i) t [] = t ∷ []
insert_at (suc i) t (e ∷ es) = e ∷ insert_at i t es

unfoldable pub init : ℕ → TimerMgr → TimerMgr
init timer_max m = record m { max_timer_num = timer_max }

unfoldable pub clean_up : TimerMgr → TimerMgr
clean_up m = record m { timer_list = [] }

-- The head of the list, advanced by its step and put back in its place.
get_next : TimerMgr → List EasyTimer → Option EasyTimer × TimerMgr
unfolding step upper_bound insert_at
get_next m [] = (none, m)
get_next m (curr ∷ es) =
    let t = step curr in (some t, record m { timer_list = insert_at (upper_bound es t) t es })

unfoldable pub get_next_active_timer : TimerMgr → Option EasyTimer × TimerMgr
unfolding get_next
get_next_active_timer m = get_next m m.timer_list

-- `none` for `fresh` is a failed `new`; otherwise it is the new timer's address.
unfoldable pub add_timer :
    Option ℕ → (now time_gap timer_id : ℕ) → TimerMgr → Option EasyTimer × TimerMgr
unfolding start upper_bound insert_at
add_timer fresh now time_gap timer_id m =
    if time_gap == 0
    then (none, m)
    else if leb m.max_timer_num (length m.timer_list)
    then (none, m)
    else elim fresh [
      | none ↦ (none, m)
      | some a ↦
          let t = start now (record {
            addr = a;
            next_active_timestamp = 0;
            time_step = time_gap;
            timer_id = timer_id;
          }) in
          (some t, record m { timer_list = insert_at (upper_bound m.timer_list t) t m.timer_list })
    ]

-- The loop of `RemoveTimer` at index `i`. `it != end` is tested by equality, and an erased element
-- lets the next one slide under the iterator before `++it`.
unfoldable pub remove_scan : ℕ → ℕ → List EasyTimer → ℕ → Run (List EasyTimer)
remove_scan zero timer es i = exhausted
remove_scan (suc fuel) timer es i = elim (i == length es) [
  | true ↦ done es
  | false ↦ elim (get_elem? es i) [
    | none ↦ fault
    | some e ↦ remove_scan fuel timer (if e.addr == timer then erase_at es i else es) (i + 1)
  ]
]

-- `none` is a null pointer. The scan is over after one round for each element and one more.
unfoldable pub remove_timer : Option ℕ → TimerMgr → Run (ℤ × TimerMgr)
remove_timer none m = done (failure, m)
remove_timer (some timer) m =
    remove_scan (suc (suc (length m.timer_list))) timer m.timer_list 0 >>= λ es.
    done (success, record m { timer_list = es })
