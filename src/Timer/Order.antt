-- ===== src/Timer/Order.antt =====
-- The timer list stays in the order of the timestamps and within its limit.
use mathlib.Core.List.{Perm}
use mathlib.Core.List.Perm
use native.Mathlib.Decide.{ℕ_discrete, dec_lt}
use rapidapp.Base.{
  ℕ, suc, ◌≤◌, ◌<◌, ◌≡◌, refl, ap, subst, ◌⊎◌, ◌≢◌, add64, Option, none, some, List, [], ◌∷◌,
  length, arith, ltb, ◌++◌, ◌+◌, ◌%◌, ◌^◌, Bool-cases, inl, inr,
}
use rapidapp.Timer.{
  EasyTimer, TimerMgr, key, step, start, upper_bound, insert_at, get_next, get_next_active_timer,
  add_timer,
}

-- No timer of the list is due before `k`.
abbrev pub AllFrom : ℕ → List EasyTimer → Type 0
AllFrom k [] = Unit {0}
AllFrom k (t ∷ ts) = (k ≤ key t) × AllFrom k ts

abbrev pub IsSorted : List EasyTimer → Type 0
IsSorted [] = Unit {0}
IsSorted (t ∷ ts) = AllFrom (key t) ts × IsSorted ts

AllFrom-mono : (j k : ℕ) (ts : List EasyTimer) → j ≤ k → AllFrom k ts → AllFrom j ts
AllFrom-mono j k [] h a = tt
AllFrom-mono j k (t ∷ ts) h a = (omega arith, AllFrom-mono j k ts h a.1)

abbrev pub insert : EasyTimer → List EasyTimer → List EasyTimer
insert t ts = insert_at (upper_bound ts t) t ts

-- The timer that `AddTimer` makes: due one step from now.
abbrev pub created : ℕ → ℕ → ℕ → ℕ → EasyTimer
created a now time_gap timer_id = record {
  addr = a;
  next_active_timestamp = add64 now time_gap;
  time_step = time_gap;
  timer_id = timer_id;
}

insert-AllFrom :
    (k : ℕ) (t : EasyTimer) (ts : List EasyTimer)
    → k ≤ key t
    → AllFrom k ts
    → AllFrom k (insert t ts)
unfolding upper_bound insert_at
insert-AllFrom k t [] h a = (h, tt)
insert-AllFrom k t (e ∷ es) h a = elim (Bool-cases (ltb (key t) (key e))) [
  | inl lt ↦ rw lt (h, a)
  | inr ge ↦ rw ge (a.0, insert-AllFrom k t es h a.1)
]

insert-IsSorted : (t : EasyTimer) (ts : List EasyTimer) → IsSorted ts → IsSorted (insert t ts)
unfolding upper_bound insert_at
insert-IsSorted t [] s = (tt, tt)
insert-IsSorted t (e ∷ es) s = elim (Bool-cases (ltb (key t) (key e))) [
  | inl lt ↦ rw lt ((ground arith, AllFrom-mono (key t) (key e) es (ground arith) s.0), s)
  | inr ge ↦ rw ge (insert-AllFrom (key e) t es (ground arith) s.0, insert-IsSorted t es s.1)
]

insert-perm : (t : EasyTimer) (ts : List EasyTimer) → Perm (insert t ts) (t ∷ ts)
unfolding upper_bound insert_at
insert-perm t [] = Perm.refl (t ∷ [])
insert-perm t (e ∷ es) = elim (Bool-cases (ltb (key t) (key e))) [
  | inl lt ↦ rw lt (Perm.refl (t ∷ e ∷ es))
  | inr ge ↦ rw ge (Perm.trans (Perm.cons e (insert-perm t es)) (Perm.swap t e es))
]

pub length-insert : (t : EasyTimer) (ts : List EasyTimer) → length (insert t ts) ≡ suc (length ts)
unfolding upper_bound insert_at
length-insert t [] = refl
length-insert t (e ∷ es) = elim (Bool-cases (ltb (key t) (key e))) [
  | inl lt ↦ rw lt
  | inr ge ↦ rw ge (ap suc (length-insert t es))
]

-- The list is in order, within the limit of the manager.
pub record Inv (m : TimerMgr) : Type 0 where
  pub sorted : IsSorted m.timer_list
  pub bounded : length m.timer_list ≤ m.max_timer_num

get_next-Inv :
    (m : TimerMgr) (ts : List EasyTimer) → m.timer_list ≡ ts → Inv m → Inv (get_next m ts).1
unfolding get_next
get_next-Inv m [] e v = v
get_next-Inv m (curr ∷ es) e v = record {
  sorted = insert-IsSorted (step curr) es (subst IsSorted e v.sorted).1;
  bounded = omega (arith, length-insert (step curr) es, v.bounded, ap length e);
}

-- Taking the next timer keeps the list in order of the timestamps and within the manager's limit.
pub get_next_active_timer-Inv : (m : TimerMgr) → Inv m → Inv (get_next_active_timer m).1
unfolding get_next_active_timer
get_next_active_timer-Inv m v = get_next-Inv m m.timer_list refl v

-- The timers of a list that stand before the place of one that is due at `k`, and those behind.
abbrev pub AllTo : ℕ → List EasyTimer → Type 0
AllTo k [] = Unit {0}
AllTo k (t ∷ ts) = (key t ≤ k) × AllTo k ts

abbrev pub AllAfter : ℕ → List EasyTimer → Type 0
AllAfter k [] = Unit {0}
AllAfter k (t ∷ ts) = (k < key t) × AllAfter k ts

AllFrom-AllAfter : (j k : ℕ) (ts : List EasyTimer) → j < k → AllFrom k ts → AllAfter j ts
AllFrom-AllAfter j k [] h a = tt
AllFrom-AllAfter j k (t ∷ ts) h a = (omega arith, AllFrom-AllAfter j k ts h a.1)

-- A list with `t` put in its place, behind those that are due no later.
abbrev pub Placed : EasyTimer → List EasyTimer → List EasyTimer → Type 0
Placed t es ts =
    (front : List EasyTimer) × (back : List EasyTimer) × (es ≡ front ++ back)
    × (ts ≡ front ++ t ∷ back)
    × AllTo (key t) front
    × AllAfter (key t) back

insert-Placed : (t : EasyTimer) (es : List EasyTimer) → IsSorted es → Placed t es (insert t es)
unfolding upper_bound insert_at
insert-Placed t [] s = ([], [], refl, refl, tt, tt)
insert-Placed t (e ∷ es) s = elim (Bool-cases (ltb (key t) (key e))) [
  | inl lt ↦
      let before : key t < key e = ground arith in
      ([], e ∷ es, refl, rw lt, tt, (before, AllFrom-AllAfter (key t) (key e) es before s.0))
  | inr ge ↦
      let (front, back, split, placed, to, after) = insert-Placed t es s.1 in
      (e ∷ front, back, ap (◌∷◌ e) split, rw ge (ap (◌∷◌ e) placed), (ground arith, to), after)
]

-- On a list in order, the call takes the head, which is due no later than any other, moves its
-- timestamp on by its step, and puts it back in its place, behind those that are due no later than
-- it is then. The others keep their order; the list stays in order and within its limit.
pub get_next_active_timer_first :
    (m : TimerMgr) (curr : EasyTimer) (es : List EasyTimer)
    → Inv m
    → m.timer_list ≡ curr ∷ es
    → let moved : EasyTimer = record curr {
      next_active_timestamp = (curr.next_active_timestamp + curr.time_step) % 2 ^ 64;
    } in
      ((get_next_active_timer m).0 ≡ some moved)
      × AllFrom (key curr) es
      × Placed moved es (get_next_active_timer m).1.timer_list
      × Inv (get_next_active_timer m).1
unfolding get_next_active_timer get_next step
get_next_active_timer_first m curr es v e =
    let sorted = subst IsSorted e v.sorted in
    (
      rw e refl,
      sorted.0,
      rw e (insert-Placed (step curr) es sorted.1),
      get_next_active_timer-Inv m v,
    )

-- Why a timer can be refused.
abbrev pub Refused : Option ℕ → ℕ → TimerMgr → Type 0
Refused fresh time_gap m = (time_gap ≡ 0) ⊎ (m.max_timer_num ≤ length m.timer_list) ⊎ (fresh ≡ none)

add-Refused :
    (fresh : Option ℕ) (now time_gap timer_id : ℕ) (m : TimerMgr)
    → Refused fresh time_gap m
    → add_timer fresh now time_gap timer_id m ≡ (none, m)
unfolding add_timer
add-Refused fresh now time_gap timer_id m r = ground arith

add_accepted :
    (a now time_gap timer_id : ℕ) (m : TimerMgr)
    → time_gap ≢ 0
    → length m.timer_list < m.max_timer_num
    → let t = created a now time_gap timer_id in
      add_timer (some a) now time_gap timer_id m
      ≡ (some t, record m { timer_list = insert t m.timer_list })
unfolding add_timer start
add_accepted a now time_gap timer_id m g r = ground arith

add_cases :
    (fresh : Option ℕ) (time_gap : ℕ) (m : TimerMgr)
    → Refused fresh time_gap m
      ⊎ ((a : ℕ) × (fresh ≡ some a) × (time_gap ≢ 0) × (length m.timer_list < m.max_timer_num))
add_cases none time_gap m = inl (inr (inr refl))
add_cases (some a) time_gap m = elim (ℕ_discrete time_gap 0) [
  | yes z ↦ inl (inl z)
  | no nz ↦ elim (dec_lt (length m.timer_list) m.max_timer_num) [
    | yes room ↦ inr (a, refl, nz, room)
    | no full ↦ inl (inr (inl (omega arith)))
  ]
]

-- Adding a timer keeps the order and the limit.
pub add_timer-Inv :
    (fresh : Option ℕ) (now time_gap timer_id : ℕ) (m : TimerMgr)
    → Inv m
    → Inv (add_timer fresh now time_gap timer_id m).1
add_timer-Inv fresh now time_gap timer_id m v = elim (add_cases fresh time_gap m) [
  | inl r ↦ rw (add-Refused fresh now time_gap timer_id m r) v
  | inr (a, e, nz, room) ↦
      let t = created a now time_gap timer_id in
      rw (e, add_accepted a now time_gap timer_id m nz room)
        (record {
          sorted = insert-IsSorted t m.timer_list v.sorted;
          bounded = omega (arith, length-insert t m.timer_list);
        })
]

-- A timer is created exactly if the step is not 0, the list is below its limit and the allocation
-- succeeds; then it is due one step from now and joins the others. Otherwise nothing changes.
pub add_timer_outcome :
    (fresh : Option ℕ) (now time_gap timer_id : ℕ) (m : TimerMgr)
    → let (r, m') = add_timer fresh now time_gap timer_id m in
      ((r ≡ none) × (m' ≡ m) × Refused fresh time_gap m)
      ⊎ ((a : ℕ) × (fresh ≡ some a)
          × (time_gap ≢ 0)
          × (length m.timer_list < m.max_timer_num)
          × (r ≡ some (created a now time_gap timer_id))
          × Perm m'.timer_list (created a now time_gap timer_id ∷ m.timer_list))
add_timer_outcome fresh now time_gap timer_id m = elim (add_cases fresh time_gap m) [
  | inl r ↦ rw (add-Refused fresh now time_gap timer_id m r) (inl (refl, refl, r))
  | inr (a, e, nz, room) ↦
      let t = created a now time_gap timer_id in
      rw (e, add_accepted a now time_gap timer_id m nz room)
        (inr (a, refl, nz, room, refl, insert-perm t m.timer_list))
]
