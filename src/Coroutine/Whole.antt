-- ===== src/Coroutine/Whole.antt =====
-- A coroutine that is resumed until it is gone has done what its function does.
use rapidapp.Base.{arith, ℕ, zero, suc, ◌≡◌, ◌≢◌, refl, sym, ◌∙◌, ap, none, some, ℤ, pos}
use rapidapp.Base.Run.{Run, done, fault, exhausted, ◌>>=◌}
use rapidapp.Coroutine.Table.{lookup}
use rapidapp.Coroutine.{
  Code, returns, runs, yields, CoroutineCtx, CoroutineScheduler, coroutine_suspend,
  resume_coroutine,
}
use rapidapp.Coroutine.Laws.{slice, Waits, resume_runs_slice}

first_is_done :
    {A B : Type 0} (m : Run A) (k : A → Run B) (b : B) → (m >>= k) ≡ done b → (a : A) × (m ≡ done a)
first_is_done (done a) k b e = (a, refl)
first_is_done fault k b e = absurd (cc)
first_is_done exhausted k b e = absurd (cc)

module _ {S : Type 0} where
  -- The function without its yields, and their number.
  unfoldable pub whole : Code S → S → Run S
  whole returns s = done s
  whole (runs f left) s = f s >>= λ s'. whole left s'
  whole (yields left) s = whole left s

  unfoldable pub yields_in : Code S → ℕ
  yields_in returns = 0
  yields_in (runs f left) = yields_in left
  yields_in (yields left) = suc (yields_in left)

  -- Resumed so often.
  unfoldable pub resumed : ℕ → ℤ → CoroutineScheduler S → S → Run (CoroutineScheduler S × S)
  resumed zero cid sch s = done (sch, s)
  resumed (suc n) cid sch s = resume_coroutine cid sch s >>= λ (r, sch', s'). resumed n cid sch' s'

  -- How a function that ends splits at its first yield.
  data Split (code : Code S) (s s' : S) : Type 0 where
    at_end : slice code s ≡ done (s', none) → yields_in code ≡ 0 → Split code s s'
    at_yield :
        (left : Code S) (s1 : S)
        → slice code s ≡ done (s1, some left)
        → whole left s1 ≡ done s'
        → yields_in code ≡ suc (yields_in left)
        → Split code s s'

  Split-behind :
      (f : S → Run S) (left : Code S) (s s1 s' : S)
      → f s ≡ done s1
      → Split left s1 s'
      → Split (runs f left) s s'
  unfolding slice yields_in
  Split-behind f left s s1 s' e (at_end a n) = at_end (rw e a) n
  Split-behind f left s s1 s' e (at_yield k s2 a w n) = at_yield k s2 (rw e a) w n

  split : (code : Code S) (s s' : S) → whole code s ≡ done s' → Split code s s'
  unfolding slice whole yields_in
  split returns s s' e = at_end (ap (λ m. m >>= (λ t. done (t, none))) e) refl
  split (yields left) s s' e = at_yield left s refl e refl
  split (runs f left) s s' e =
      let (s1, q) = first_is_done (f s) (whole left) s' e in
      Split-behind f left s s1 s' q (split left s1 s' (sym (ap (λ m. m >>= whole left) q) ∙ e))

  -- Resumed once more than its code has yields, a coroutine that waits has done to the state what
  -- its function does without the yields, if that ends; then it is gone, and no other was touched.
  pub resumed_to_its_end :
      (n : ℕ) (sch : CoroutineScheduler S) (ctx : CoroutineCtx S) (s s' : S)
      → lookup ctx.idx sch.coroutine_table ≡ some ctx
      → Waits ctx.state
      → yields_in ctx.code ≡ n
      → whole ctx.code s ≡ done s'
      → (sch' : CoroutineScheduler S) × (resumed (suc n) (pos ctx.idx) sch s ≡ done (sch', s'))
        × (lookup ctx.idx sch'.coroutine_table ≡ none)
        × ((i : ℕ) → i ≢ ctx.idx → lookup i sch'.coroutine_table ≡ lookup i sch.coroutine_table)
  unfolding resumed
  resumed_to_its_end zero sch ctx s s' h w y e = elim (split ctx.code s s' e) [
    | at_end a z ↦
        let (sch', run, r) = resume_runs_slice sch ctx s s' none h w a in
        (sch', rw run refl, r.kept, r.others)
    | at_yield left s1 a rest z ↦ absurd (omega (arith, y, z))
  ]
  resumed_to_its_end (suc n) sch ctx s s' h w y e = elim (split ctx.code s s' e) [
    | at_end a z ↦ absurd (omega (arith, y, z))
    | at_yield left s1 a rest z ↦
        let (sch1, run, r) = resume_runs_slice sch ctx s s1 (some left) h w a in
        let (sch', run', gone, others) =
          resumed_to_its_end n sch1
            (record { idx = ctx.idx; state = coroutine_suspend; code = left }) s1 s' r.kept tt
            (omega (arith, y, z)) rest in
        (sch', rw run run', gone, λ i ne. others i ne ∙ r.others i ne)
  ]
