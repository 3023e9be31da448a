-- ===== src/Net/Limits.antt =====
-- The limits of `DoSomething`: idle time, messages and bytes of a connection since the last walk.
use rapidapp.Base.{
  ltb, ℕ, ◌≡◌, ◌<◌, ◌+◌, refl, Bool, true, false, ◌⊎◌, ◌↔◌, pos, ltb_ℤ, sub64, if◌then◌else◌, arith,
}
use rapidapp.Net.{EasyNet, Setting, do_something, idle_too_long, over, reset_pkg, reset_traffic}
use rapidapp.Net.Walk.{Keeps}

-- The limits, for settings that are not negative where they are set at all.
abbrev pub setting_of : (max_idle max_pkg max_traffic : ℕ) → Setting
setting_of max_idle max_pkg max_traffic = record {
  max_idle = pos max_idle;
  max_pkg_speed = pos max_pkg;
  max_traffic_speed = pos max_traffic;
}

if_both : {A : Type 0} (P : A → Type 0) (b : Bool) {x y : A} → P x → P y → P (if b then x else y)
if_both P true p q = p
if_both P false p q = q

-- Counting starts over, nothing else.
Same : EasyNet → EasyNet → Type 0
Same n k = (k.hevent ≡ n.hevent) × (k.user_context ≡ n.user_context)

reset_pkg-Same : (set : Setting) (n : EasyNet) → Same n (reset_pkg set n)
unfolding reset_pkg Same
reset_pkg-Same set n = if_both (Same n) (ltb_ℤ (pos 0) set.max_pkg_speed) (refl, refl) (refl, refl)

reset_traffic-Same : (set : Setting) (n k : EasyNet) → Same n k → Same n (reset_traffic set k)
unfolding reset_traffic Same
reset_traffic-Same set n k (p, q) =
    if_both (Same n) (ltb_ℤ (pos 0) set.max_traffic_speed) (p, q) (p, q)

pub do_something-Keeps : (set : Setting) (now : ℕ) → Keeps (do_something set now)
unfolding do_something Same
do_something-Keeps set now n =
    let P : Bool × EasyNet → Type 0 =
      λ r. (r.1.hevent ≡ n.hevent) × (r.1.user_context ≡ n.user_context) in
    let k = reset_pkg set n in
    if_both P (idle_too_long set now n.last_active_timestamp) (refl, refl)
      (if_both P (over set.max_pkg_speed n.prev_pkg_count n.curr_pkg_count) (refl, refl)
        (if_both P (over set.max_traffic_speed k.prev_traffic_bytes k.curr_traffic_bytes)
          (reset_pkg-Same set n) (reset_traffic-Same set n k (reset_pkg-Same set n))))

-- A connection is over a limit: idle for longer, or ahead of its last walk by more messages or more
-- bytes. A limit of zero is none.
abbrev pub Over : (max_idle max_pkg max_traffic now : ℕ) → EasyNet → Type 0
Over max_idle max_pkg max_traffic now n =
    ((0 < max_idle) × (n.last_active_timestamp + max_idle < now))
    ⊎ (((0 < max_pkg) × (max_pkg < sub64 n.curr_pkg_count n.prev_pkg_count))
        ⊎ ((0 < max_traffic) × (max_traffic < sub64 n.curr_traffic_bytes n.prev_traffic_bytes)))

-- With limits that are not negative, a walk closes exactly the connections that are over a limit:
-- idle for longer, or ahead of the last walk by more messages or more bytes. A limit of zero is
-- none.
pub do_something_iff :
    (max_idle max_pkg max_traffic now : ℕ) (n : EasyNet)
    → ((do_something (setting_of max_idle max_pkg max_traffic) now n).0 ≡ true)
      ↔ Over max_idle max_pkg max_traffic now n
unfolding do_something idle_too_long over reset_pkg reset_traffic
do_something_iff max_idle max_pkg max_traffic now n = ground arith

-- A connection after a walk that keeps it: what a limit counts is counted from 0 again.
abbrev pub counted_anew : (max_pkg max_traffic : ℕ) → EasyNet → EasyNet
counted_anew max_pkg max_traffic n = record n {
  prev_pkg_count = if ltb 0 max_pkg then 0 else n.prev_pkg_count;
  curr_pkg_count = if ltb 0 max_pkg then 0 else n.curr_pkg_count;
  prev_traffic_bytes = if ltb 0 max_traffic then 0 else n.prev_traffic_bytes;
  curr_traffic_bytes = if ltb 0 max_traffic then 0 else n.curr_traffic_bytes;
}

resets :
    (max_idle max_pkg max_traffic : ℕ) (n : EasyNet)
    → let set = setting_of max_idle max_pkg max_traffic in
      reset_traffic set (reset_pkg set n) ≡ counted_anew max_pkg max_traffic n
unfolding reset_pkg reset_traffic
resets max_idle max_pkg max_traffic n = ground arith

pub do_something-resets :
    (max_idle max_pkg max_traffic now : ℕ) (n : EasyNet)
    → let set = setting_of max_idle max_pkg max_traffic in
      (do_something set now n).0 ≡ false
      → (do_something set now n).1 ≡ counted_anew max_pkg max_traffic n
unfolding do_something
do_something-resets max_idle max_pkg max_traffic now n =
    let set = setting_of max_idle max_pkg max_traffic in
    let k = reset_pkg set n in
    let P : Bool × EasyNet → Type 0 = λ r. r.0 ≡ false → r.1 ≡ counted_anew max_pkg max_traffic n in
    if_both P (idle_too_long set now n.last_active_timestamp) (λ e. absurd (differ e))
      (if_both P (over set.max_pkg_speed n.prev_pkg_count n.curr_pkg_count) (λ e. absurd (differ e))
        (if_both P (over set.max_traffic_speed k.prev_traffic_bytes k.curr_traffic_bytes)
          (λ e. absurd (differ e)) (λ _. resets max_idle max_pkg max_traffic n)))
  where
    differ : true ≡ false → ⊥
    differ e = cc
