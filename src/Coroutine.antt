-- ===== src/Coroutine.antt =====
-- coroutine/mc_coroutine.{h,cpp}: `CoroutineScheduler`. What a coroutine's function does is given as
-- `Code`, the pieces between its calls of `YieldCoroutine`; a saved context is the code that is left.
-- `S` is what the functions act on. They do not call the scheduler otherwise, so no coroutine runs
-- within another. The table has no entry without a context, since none is ever put there.
pub mod Table
pub mod Laws
pub mod Whole
mod Tests
use rapidapp.Base.{
  ℕ, suc, ◌-◌, ◌^◌, Bool, true, false, Option, none, some, List, [], ◌∷◌, length, ℤ, pos, negsuc,
  success, failure, leb, ◌==◌, if◌then◌else◌,
}
use rapidapp.Base.Run.{Run, done, fault, ◌>>=◌}
use rapidapp.Coroutine.Table.{lookup, assign, erase}

pub data CoroutineState : Type 0 where
  coroutine_ready : CoroutineState
  coroutine_running : CoroutineState
  coroutine_suspend : CoroutineState
  coroutine_done : CoroutineState

pub data Code (S : Type 0) : Type 0 where
  returns : Code S
  runs : (S → Run S) → Code S → Code S
  yields : Code S → Code S

pub record CoroutineCtx (S : Type 0) : Type 0 where
  pub idx : ℕ
  pub state : CoroutineState
  pub code : Code S

-- `running_cid` is -1 where there is none. `cid_seed` is a static of `CreateCoroutine`.
pub record CoroutineScheduler (S : Type 0) : Type 0 where
  pub running_cid : Option ℕ
  pub coroutine_max : ℕ
  pub coroutine_table : List (ℕ × CoroutineCtx S)
  pub cid_seed : ℕ

unfoldable pub new_scheduler : {S : Type 0} → ℕ → CoroutineScheduler S
new_scheduler cocurrent_num = record {
  running_cid = none;
  coroutine_max = cocurrent_num;
  coroutine_table = [];
  cid_seed = 0;
}

-- `coroutine_table_.find`
unfoldable pub find : {S : Type 0} → ℤ → CoroutineScheduler S → Option (CoroutineCtx S)
find (pos cid) sch = lookup cid sch.coroutine_table
find (negsuc n) sch = none

unfoldable pub put : {S : Type 0} → ℕ → CoroutineCtx S → CoroutineScheduler S → CoroutineScheduler S
put cid ctx sch = record sch { coroutine_table = assign cid ctx sch.coroutine_table }

unfoldable pub set_state :
    {S : Type 0} → CoroutineCtx S → CoroutineState → CoroutineScheduler S → CoroutineScheduler S
unfolding put
set_state ctx state sch = put ctx.idx (record ctx { state = state }) sch

-- `allocated` is the outcome of `calloc`. The counter is an `int`.
unfoldable pub create_coroutine :
    {S : Type 0} → Bool → Option (Code S) → CoroutineScheduler S → Run (ℤ × CoroutineScheduler S)
unfolding put
create_coroutine allocated none sch = done (failure, sch)
create_coroutine allocated (some code) sch =
    if leb sch.coroutine_max (length sch.coroutine_table)
    then done (negsuc 1, sch)
    else if allocated
    then (if sch.cid_seed == 2 ^ 31 - 1
        then fault
        else done (
          pos sch.cid_seed,
          put sch.cid_seed (record { idx = sch.cid_seed; state = coroutine_ready; code = code })
              (record sch { cid_seed = suc sch.cid_seed }),
        ))
    else done (negsuc 2, sch)

unfoldable pub destroy_coroutine : {S : Type 0} → ℤ → CoroutineScheduler S → CoroutineScheduler S
destroy_coroutine (pos cid) sch = record sch { coroutine_table = erase cid sch.coroutine_table }
destroy_coroutine (negsuc n) sch = sch

-- The code, and whether the main context goes on, the coroutine's being saved with the code that is
-- left to it.
unfoldable pub yield_coroutine :
    {S : Type 0} → Code S → CoroutineScheduler S → ℤ × Bool × CoroutineScheduler S
unfolding put
yield_coroutine left sch = elim sch.running_cid [
  | none ↦ (success, false, sch)
  | some cid ↦ elim (lookup cid sch.coroutine_table) [
    | none ↦ (failure, false, sch)
    | some ctx ↦ (
      success,
      true,
      record (put cid (record ctx { state = coroutine_suspend; code = left }) sch) {
        running_cid = none;
      },
    )
  ]
]

-- The end of `ScheduleFunction`, after which the main context goes on.
unfoldable pub finish : {S : Type 0} → CoroutineCtx S → CoroutineScheduler S → CoroutineScheduler S
unfolding set_state
finish ctx sch = record (set_state ctx coroutine_done sch) { running_cid = none }

-- A coroutine runs until the main context goes on.
unfoldable pub run_code :
    {S : Type 0}
    → CoroutineCtx S
    → Code S
    → CoroutineScheduler S
    → S
    → Run (CoroutineScheduler S × S)
unfolding yield_coroutine finish
run_code ctx returns sch s = done (finish ctx sch, s)
run_code ctx (runs f left) sch s = f s >>= λ s'. run_code ctx left sch s'
run_code ctx (yields left) sch s =
    let (r, switched, sch') = yield_coroutine left sch in
    let rest = run_code ctx left sch' s in if switched then done (sch', s) else rest

unfoldable pub switch_to :
    {S : Type 0} → CoroutineCtx S → CoroutineScheduler S → S → Run (CoroutineScheduler S × S)
unfolding set_state run_code
switch_to ctx sch s =
    run_code ctx ctx.code
      (record (set_state ctx coroutine_running sch) { running_cid = some ctx.idx }) s

unfoldable pub resume_in :
    {S : Type 0}
    → CoroutineState
    → CoroutineCtx S
    → CoroutineScheduler S
    → S
    → Run (CoroutineScheduler S × S)
unfolding switch_to
resume_in coroutine_ready ctx sch s = switch_to ctx sch s
resume_in coroutine_suspend ctx sch s = switch_to ctx sch s
resume_in coroutine_running ctx sch s = done (sch, s)
resume_in coroutine_done ctx sch s = fault

abbrev pub is_done : CoroutineState → Bool
is_done coroutine_done = true
is_done _ = false

-- The context's state is read after the switch, through the pointer.
unfoldable pub destroy_if_done :
    {S : Type 0} → ℤ → CoroutineScheduler S × S → Run (ℤ × CoroutineScheduler S × S)
unfolding find destroy_coroutine
destroy_if_done cid (sch, s) = elim (find cid sch) [
  | none ↦ fault
  | some ctx ↦ done (success, if is_done ctx.state then destroy_coroutine cid sch else sch, s)
]

unfoldable pub resume_coroutine :
    {S : Type 0} → ℤ → CoroutineScheduler S → S → Run (ℤ × CoroutineScheduler S × S)
unfolding find resume_in destroy_if_done
resume_coroutine cid sch s = elim (find cid sch) [
  | none ↦ done (failure, sch, s)
  | some ctx ↦ resume_in ctx.state ctx sch s >>= destroy_if_done cid
]

unfoldable pub coroutine_been_alive : {S : Type 0} → ℤ → CoroutineScheduler S → Bool
unfolding find
coroutine_been_alive cid sch = elim (find cid sch) [
  | none ↦ false
  | some ctx ↦ elim (is_done ctx.state) [ true ↦ false | false ↦ true ]
]
