-- ===== src/Coroutine/Laws.antt =====
-- What a call of `ResumeCoroutine` comes to: the coroutine runs to its next yield or to its end.
use rapidapp.Base.{
  ℕ, suc, ◌-◌, ◌^◌, ◌<◌, length, arith, ◌≡◌, ◌≢◌, refl, ◌∙◌, true, Option, none, some, pos, success,
}
use rapidapp.Base.Run.{Run, done, fault, exhausted, ◌>>=◌}
use rapidapp.Coroutine.Table.{
  lookup, assign, erase, lookup-assign_same, lookup-assign_other, lookup-erase_same,
  lookup-erase_other,
}
use rapidapp.Coroutine.{
  CoroutineState, coroutine_ready, coroutine_running, coroutine_suspend, coroutine_done, Code,
  returns, runs, yields, CoroutineCtx, CoroutineScheduler, find, put, set_state, yield_coroutine,
  finish, run_code, switch_to, resume_in, destroy_if_done, destroy_coroutine, resume_coroutine,
  create_coroutine,
}

-- A coroutine that can be resumed.
abbrev pub Waits : CoroutineState → Type 0
Waits coroutine_ready = Unit
Waits coroutine_suspend = Unit
Waits _ = ⊥

module _ {S : Type 0} where
  -- What a function does up to its next yield, and what is left of it then.
  unfoldable pub slice : Code S → S → Run (S × Option (Code S))
  slice returns s = done (s, none)
  slice (runs f left) s = f s >>= λ s'. slice left s'
  slice (yields left) s = done (s, some left)

  -- A coroutine that gives up the processor.
  abbrev kept_as : CoroutineCtx S → Option (Code S) → CoroutineCtx S
  kept_as ctx none = record ctx { state = coroutine_done }
  kept_as ctx (some left) = record ctx { state = coroutine_suspend; code = left }

  abbrev leave :
      CoroutineCtx S → CoroutineScheduler S → S × Option (Code S) → Run (CoroutineScheduler S × S)
  leave ctx sch (s, left) = done (
    record sch {
      running_cid = none;
      coroutine_table = assign ctx.idx (kept_as ctx left) sch.coroutine_table;
    },
    s,
  )

  run-after :
      (m : Run S) (f : S → Run (CoroutineScheduler S × S)) (g : S → Run (S × Option (Code S)))
      (k : S × Option (Code S) → Run (CoroutineScheduler S × S))
      → ((s : S) → f s ≡ (g s >>= k))
      → (m >>= f) ≡ ((m >>= g) >>= k)
  run-after (done s) f g k h = h s
  run-after fault f g k h = refl
  run-after exhausted f g k h = refl

  yields-back :
      (left : Code S) (sch : CoroutineScheduler S) (cid : ℕ) (ctx : CoroutineCtx S)
      → sch.running_cid ≡ some cid
      → lookup cid sch.coroutine_table ≡ some ctx
      → yield_coroutine left sch ≡ (
        success,
        true,
        record (put cid (record ctx { state = coroutine_suspend; code = left }) sch) {
          running_cid = none;
        },
      )
  unfolding yield_coroutine
  yields-back left sch cid ctx r h = rw (yield_coroutine, r, h) refl

  run_code-slice :
      (ctx : CoroutineCtx S) (code : Code S) (sch : CoroutineScheduler S) (s : S)
      → sch.running_cid ≡ some ctx.idx
      → lookup ctx.idx sch.coroutine_table ≡ some (record ctx { state = coroutine_running })
      → run_code ctx code sch s ≡ (slice code s >>= leave ctx sch)
  unfolding run_code slice yield_coroutine finish set_state put
  run_code-slice ctx returns sch s r h = refl
  run_code-slice ctx (runs f left) sch s r h =
      run-after (f s) (run_code ctx left sch) (slice left) (leave ctx sch)
        (λ s'. run_code-slice ctx left sch s' r h)
  run_code-slice ctx (yields left) sch s r h =
      rw (yields-back left sch ctx.idx (record ctx { state = coroutine_running }) r h) refl

  abbrev started : CoroutineCtx S → CoroutineScheduler S → CoroutineScheduler S
  started ctx sch = record sch {
    running_cid = some ctx.idx;
    coroutine_table = assign ctx.idx (record ctx { state = coroutine_running }) sch.coroutine_table;
  }

  resume_in-slice :
      (ctx : CoroutineCtx S) (state : CoroutineState) (sch : CoroutineScheduler S) (s : S)
      → Waits state
      → resume_in state ctx sch s ≡ (slice ctx.code s >>= leave ctx (started ctx sch))
  unfolding resume_in switch_to set_state put
  resume_in-slice ctx coroutine_ready sch s w =
      run_code-slice ctx ctx.code (started ctx sch) s refl
        (lookup-assign_same ctx.idx _ sch.coroutine_table)
  resume_in-slice ctx coroutine_suspend sch s w =
      run_code-slice ctx ctx.code (started ctx sch) s refl
        (lookup-assign_same ctx.idx _ sch.coroutine_table)
  resume_in-slice ctx coroutine_running sch s w = elim w [ ]
  resume_in-slice ctx coroutine_done sch s w = elim w [ ]

  -- What the table holds of a coroutine between its runs.
  abbrev pub saved : ℕ → Option (Code S) → Option (CoroutineCtx S)
  saved cid none = none
  saved cid (some left) = some (record { idx = cid; state = coroutine_suspend; code = left })

  -- The scheduler after a run of one coroutine.
  pub record Resumed (sch sch' : CoroutineScheduler S) (cid : ℕ) (left : Option (Code S))
      : Type 0 where
    pub idle : sch'.running_cid ≡ none
    pub kept : lookup cid sch'.coroutine_table ≡ saved cid left
    pub others : (i : ℕ) → i ≢ cid → lookup i sch'.coroutine_table ≡ lookup i sch.coroutine_table
    pub room : sch'.coroutine_max ≡ sch.coroutine_max
    pub seed : sch'.cid_seed ≡ sch.cid_seed

  settle :
      (ctx : CoroutineCtx S) (sch : CoroutineScheduler S) (s : S) (left : Option (Code S))
      → (sch' : CoroutineScheduler S) × ((leave ctx (started ctx sch) (s, left)
            >>= destroy_if_done (pos ctx.idx))
          ≡ done (success, sch', s))
        × Resumed sch sch' ctx.idx left
  unfolding destroy_if_done find destroy_coroutine
  settle ctx sch s none =
      let t = assign ctx.idx (kept_as ctx none) (started ctx sch).coroutine_table in
      (
        record sch { running_cid = none; coroutine_table = erase ctx.idx t },
        rw
            (
              destroy_if_done,
              lookup-assign_same ctx.idx (kept_as ctx none) (started ctx sch).coroutine_table,
            )
            refl,
        record {
          idle = refl;
          kept = lookup-erase_same ctx.idx t;
          others = λ i h.
              lookup-erase_other ctx.idx i t h
              ∙ lookup-assign_other ctx.idx i _ (started ctx sch).coroutine_table h
              ∙ lookup-assign_other ctx.idx i _ sch.coroutine_table h;
          room = refl;
          seed = refl;
        },
      )
  settle ctx sch s (some left) = (
    record sch {
      running_cid = none;
      coroutine_table = assign ctx.idx (kept_as ctx (some left)) (started ctx sch).coroutine_table;
    },
    rw
        (
          destroy_if_done,
          lookup-assign_same ctx.idx (kept_as ctx (some left)) (started ctx sch).coroutine_table,
        )
        refl,
    record {
      idle = refl;
      kept = lookup-assign_same ctx.idx _ (started ctx sch).coroutine_table;
      others = λ i h.
          lookup-assign_other ctx.idx i _ (started ctx sch).coroutine_table h
          ∙ lookup-assign_other ctx.idx i _ sch.coroutine_table h;
      room = refl;
      seed = refl;
    },
  )

  -- Resuming a coroutine that waits runs its code up to the next yield, or to the end: then it is gone,
  -- else it waits with the code that is left. No other coroutine is touched.
  pub resume_runs_slice :
      (sch : CoroutineScheduler S) (ctx : CoroutineCtx S) (s s' : S) (left : Option (Code S))
      → lookup ctx.idx sch.coroutine_table ≡ some ctx
      → Waits ctx.state
      → slice ctx.code s ≡ done (s', left)
      → (sch' : CoroutineScheduler S) × (resume_coroutine (pos ctx.idx) sch s
          ≡ done (success, sch', s'))
        × Resumed sch sch' ctx.idx left
  unfolding resume_coroutine find
  resume_runs_slice sch ctx s s' left h w e =
      let (sch', run, r) = settle ctx sch s' left in
      (sch', rw (resume_coroutine, h, resume_in-slice ctx ctx.state sch s w, e) run, r)

  -- The scheduler with one more coroutine, which has not run yet.
  pub record Created (sch sch' : CoroutineScheduler S) (code : Code S) : Type 0 where
    pub ready :
        lookup sch.cid_seed sch'.coroutine_table
        ≡ some (record { idx = sch.cid_seed; state = coroutine_ready; code = code })
    pub others :
        (i : ℕ) → i ≢ sch.cid_seed → lookup i sch'.coroutine_table ≡ lookup i sch.coroutine_table
    pub running : sch'.running_cid ≡ sch.running_cid
    pub room : sch'.coroutine_max ≡ sch.coroutine_max
    pub seed : sch'.cid_seed ≡ suc sch.cid_seed

  pub create_coroutine_lem :
      (code : Code S) (sch : CoroutineScheduler S)
      → length sch.coroutine_table < sch.coroutine_max
      → sch.cid_seed < 2 ^ 31 - 1
      → (sch' : CoroutineScheduler S) × (create_coroutine true (some code) sch
          ≡ done (pos sch.cid_seed, sch'))
        × Created sch sch' code
  unfolding create_coroutine put
  create_coroutine_lem code sch h k = (
    put sch.cid_seed (record { idx = sch.cid_seed; state = coroutine_ready; code = code })
        (record sch { cid_seed = suc sch.cid_seed }),
    ground arith,
    record {
      ready = lookup-assign_same sch.cid_seed _ sch.coroutine_table;
      others = λ i h. lookup-assign_other sch.cid_seed i _ sch.coroutine_table h;
      running = refl;
      room = refl;
      seed = refl;
    },
  )
