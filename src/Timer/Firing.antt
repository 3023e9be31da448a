-- ===== src/Timer/Firing.antt =====
-- `TimerMgr::GetNextActiveTimer`, which does not look at the clock.
use rapidapp.Base.{ℕ, zero, suc, ◌≡◌, ◌≢◌, ◌⊎◌, inl, inr, refl, none, some, List, [], ◌∷◌}
use rapidapp.Timer.{
  EasyTimer, TimerMgr, get_next_active_timer, get_next, insert_at, upper_bound, step,
}

insert_at-ne-nil : (i : ℕ) (t : EasyTimer) (es : List EasyTimer) → insert_at i t es ≢ []
unfolding insert_at
insert_at-ne-nil zero t es e = cc
insert_at-ne-nil (suc i) t [] e = cc
insert_at-ne-nil (suc i) t (x ∷ es) e = cc

-- The call yields a timer exactly if there is one, whatever the clock shows, and the list still has
-- one then.
unfoldable pub NextCases : TimerMgr → Type 0
NextCases m =
    ((m.timer_list ≡ []) × (get_next_active_timer m ≡ (none, m)))
    ⊎ ((t : EasyTimer) × (m' : TimerMgr) × (get_next_active_timer m ≡ (some t, m'))
        × (m'.timer_list ≢ []))

pub next_cases : (m : TimerMgr) → NextCases m
unfolding NextCases get_next_active_timer get_next
next_cases m = go m.timer_list refl
  where
    go : (es : List EasyTimer) → m.timer_list ≡ es → NextCases m
    go [] e = inl (e, rw e)
    go (curr ∷ es) e = inr (
      step curr,
      record m { timer_list = insert_at (upper_bound es (step curr)) (step curr) es },
      rw e,
      insert_at-ne-nil (upper_bound es (step curr)) (step curr) es,
    )

pub no_timers : (m : TimerMgr) → m.timer_list ≡ [] → get_next_active_timer m ≡ (none, m)
unfolding get_next_active_timer get_next
no_timers m e = rw e refl
