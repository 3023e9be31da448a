-- ===== src/Coroutine/Tests.antt =====
-- Two coroutines, of which one is resumed to its end.
use rapidapp.Base.{ℕ, ◌+◌, ◌≡◌, ◌≢◌, refl, none, [], ◌∷◌, pos}
use rapidapp.Base.Run.{done}
use rapidapp.Coroutine.Table.{lookup}
use rapidapp.Coroutine.{
  Code, returns, runs, yields, CoroutineCtx, CoroutineScheduler, coroutine_ready, coroutine_suspend,
}
use rapidapp.Coroutine.Whole.{whole, yields_in, resumed, resumed_to_its_end}

-- It adds 1, and 10 when it is resumed.
abbrev counting : Code ℕ
counting = runs (λ s. done (s + 1)) (yields (runs (λ s. done (s + 10)) returns))

abbrev other : CoroutineCtx ℕ
other = record { idx = 2; state = coroutine_suspend; code = returns }

abbrev fresh : CoroutineCtx ℕ
fresh = record { idx = 3; state = coroutine_ready; code = counting }

abbrev two : CoroutineScheduler ℕ
two = record {
  running_cid = none;
  coroutine_max = 10;
  coroutine_table = (2, other) ∷ (3, fresh) ∷ [];
  cid_seed = 4;
}

resumed_to_its_end_example :
    (sch' : CoroutineScheduler ℕ) × (resumed 2 (pos 3) two 5 ≡ done (sch', 16))
    × (lookup 3 sch'.coroutine_table ≡ none)
    × ((i : ℕ) → i ≢ 3 → lookup i sch'.coroutine_table ≡ lookup i two.coroutine_table)
unfolding lookup yields_in whole
resumed_to_its_end_example = resumed_to_its_end 1 two fresh 5 16 refl tt refl refl
