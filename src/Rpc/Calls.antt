-- ===== src/Rpc/Calls.antt =====
-- A call and its reply, with other calls under way.
use rapidapp.Base.{
  ◌⊎◌, if_case, inl, inr, ℕ, ◌-◌, ◌^◌, ◌≤◌, ◌<◌, ◌≡◌, ◌≢◌, refl, sym, ◌∙◌, ap, true, false, Option,
  none, some, List, [], ◌∷◌, ◌++◌, length, ℤ, pos, success, arith, add64, ltb_ℤ, eqb_ℤ, ◌==◌,
}
use rapidapp.Base.Run.{done}
use rapidapp.Coroutine.Table.{lookup}
use rapidapp.Coroutine.{
  returns, runs, CoroutineScheduler, coroutine_suspend, coroutine_ready, create_coroutine,
  resume_coroutine,
}
use rapidapp.Coroutine.Laws.{slice, resume_runs_slice, create_coroutine_lem}
use rapidapp.Rpc.Message.{Protobuf, envelope, message_to_binary, rpc_type_request, max_message_name}
use rapidapp.Rpc.{
  Shared, Callback, CoroutinePair, RpcWorld, send_request, reply, rpc_function, start_call,
  rpc_call, get_coroutine_idx_by_async_id, remove_by_coroutine_id,
}

same_number : (n a : ℕ) → n ≡ a → (n == a) ≡ true
same_number n a e = ground arith

unlike : (n a : ℕ) → n ≢ a → (n == a) ≡ false
unlike n a ne = ground arith

-- The first pair of the list with the number `a` is that of the coroutine `cid`.
abbrev pub Listed : (cid a : ℕ) → List CoroutinePair → Type 0
Listed cid a [] = ⊥
Listed cid a (p ∷ ps) = ((p.asyncid ≡ a) × (p.crid ≡ pos cid)) ⊎ ((p.asyncid ≢ a) × Listed cid a ps)

pub Listed-found :
    (cid a : ℕ) (l : List CoroutinePair)
    → Listed cid a l
    → get_coroutine_idx_by_async_id a l ≡ pos cid
unfolding get_coroutine_idx_by_async_id
Listed-found cid a [] h = absurd h
Listed-found cid a (p ∷ l) (inl (e, c)) = rw (same_number p.asyncid a e) c
Listed-found cid a (p ∷ l) (inr (ne, h)) = rw (unlike p.asyncid a ne) (Listed-found cid a l h)

Listed-append :
    (cid a : ℕ) (p : CoroutinePair) (l : List CoroutinePair)
    → Listed cid a l
    → Listed cid a (l ++ (p ∷ []))
Listed-append cid a p [] h = absurd h
Listed-append cid a p (q ∷ l) (inl here) = inl here
Listed-append cid a p (q ∷ l) (inr (ne, h)) = inr (ne, Listed-append cid a p l h)

-- All numbers in the list were given out, and all coroutines were created.
abbrev pub Older : ℕ → List CoroutinePair → Type 0
Older seed [] = Unit
Older seed (p ∷ ps) = (p.asyncid < seed) × ((c : ℕ) × (p.crid ≡ pos c)) × Older seed ps

Listed-last :
    (cid a : ℕ) (l : List CoroutinePair)
    → Older a l
    → Listed cid a (l ++ (record { crid = pos cid; asyncid = a } ∷ []))
Listed-last cid a [] h = inl (refl, refl)
Listed-last cid a (q ∷ l) (h, _, k) = inr (λ e. omega (arith, e), Listed-last cid a l k)

Older-append :
    (a b : ℕ) (l : List CoroutinePair) (p : CoroutinePair)
    → a ≤ b
    → p.asyncid < b
    → (c : ℕ) × (p.crid ≡ pos c)
    → Older a l
    → Older b (l ++ (p ∷ []))
Older-append a b [] p h k c o = (k, c, tt)
Older-append a b (q ∷ l) p h k c (o, d, os) = (omega arith, d, Older-append a b l p h k c os)

pub Older-remove :
    (a : ℕ) (crid : ℤ) (l : List CoroutinePair)
    → Older a l
    → Older a (remove_by_coroutine_id crid l)
unfolding remove_by_coroutine_id
Older-remove a crid [] o = tt
Older-remove a crid (q ∷ l) (h, d, os) =
    if_case (Older a) (eqb_ℤ q.crid crid) _ _ os (h, d, Older-remove a crid l os)

other_number : (i c : ℕ) → i ≢ c → eqb_ℤ (pos i) (pos c) ≡ false
other_number i c h = ground arith

pub Listed-remove :
    (a c i : ℕ) (l : List CoroutinePair)
    → i ≢ c
    → Listed i a l
    → Listed i a (remove_by_coroutine_id (pos c) l)
unfolding remove_by_coroutine_id
Listed-remove a c i [] ne h = absurd h
Listed-remove a c i (q ∷ l) ne (inl (e, found)) =
    rw (ap (λ z. eqb_ℤ z (pos c)) found ∙ other_number i c ne) (inl (e, found))
Listed-remove a c i (q ∷ l) ne (inr (other, h)) =
    if_case (Listed i a) (eqb_ℤ q.crid (pos c)) _ _ h (inr (other, Listed-remove a c i l ne h))

-- The envelope of a request.
abbrev pub request_bytes : {M : Type 0} → Protobuf M → ℕ → M → List ℕ
request_bytes pb asyncid request =
    pb.rpc_bytes (envelope rpc_type_request asyncid (pb.type_name request) (pb.serialize request))

packs :
    {M : Type 0} (pb : Protobuf M) (asyncid : ℕ) (request : M) (out : List ℕ)
    → length (pb.type_name request) < max_message_name
    → message_to_binary pb rpc_type_request asyncid (some request) out
      ≡ (success, request_bytes pb asyncid request)
unfolding message_to_binary envelope
packs pb asyncid request out h = ground arith

not_negative : (c : ℕ) → ltb_ℤ (pos c) (pos 0) ≡ false
not_negative c = ground arith

pub none-some : {B : Type 0} {b : B} → none ≡ some b → ⊥
none-some e = cc

module _ {M A : Type 0} (pb : Protobuf M) where
  -- A stub between two calls.
  pub record Valid (w : RpcWorld A) : Type 0 where
    pub is_ready : w.rpc.ready ≡ true
    pub older : Older w.shared.asyncid_seed w.rpc.crid_list
    pub fresh : (i : ℕ) → w.scheduler.cid_seed ≤ i → lookup i w.scheduler.coroutine_table ≡ none

  -- A call that waits for its reply.
  pub record Pending (w : RpcWorld A) (cid asyncid : ℕ) (request : M) (response : Option M)
      (callback : Callback M A) : Type 0 where
    pub listed : Listed cid asyncid w.rpc.crid_list
    pub waits :
        lookup cid w.scheduler.coroutine_table
        ≡ some (record {
          idx = cid;
          state = coroutine_suspend;
          code = runs (reply pb request response callback) returns;
        })

  abbrev pub sent_request : M → Shared A → Shared A
  sent_request request s = record s {
    asyncid_seed = add64 s.asyncid_seed 1;
    buf = request_bytes pb s.asyncid_seed request;
    handed = s.handed ++ (request_bytes pb s.asyncid_seed request ∷ []);
  }

  first_slice :
      (request : M) (response : Option M) (callback : Callback M A) (s : Shared A)
      → length (pb.type_name request) < max_message_name
      → slice (rpc_function pb request response callback) s
        ≡ done (sent_request request s, some (runs (reply pb request response callback) returns))
  unfolding slice rpc_function send_request
  first_slice request response callback s h = rw (packs pb s.asyncid_seed request s.buf h) refl

  pub start_call-sends :
      (w : RpcWorld A) (sch sch' : CoroutineScheduler (Shared A)) (cid : ℕ) (s : Shared A)
      → resume_coroutine (pos cid) sch w.shared ≡ done (success, sch', s)
      → start_call w (pos cid, sch)
        ≡ done (
          success,
          record {
            rpc = record w.rpc {
              crid_list =
                  w.rpc.crid_list
                  ++ (record { crid = pos cid; asyncid = w.shared.asyncid_seed } ∷ []);
            };
            scheduler = sch';
            shared = s;
          },
        )
  unfolding start_call
  start_call-sends w sch sch' cid s e = rw (not_negative cid, e) refl

  pub rpc_call-starts :
      (request : M) (response : Option M) (callback : Callback M A) (w : RpcWorld A)
      (sch : CoroutineScheduler (Shared A)) (cid : ℕ)
      → w.rpc.ready ≡ true
      → create_coroutine true (some (rpc_function pb request response callback)) w.scheduler
        ≡ done (pos cid, sch)
      → rpc_call pb true true (some request) response (some callback) w
        ≡ start_call w (pos cid, sch)
  unfolding rpc_call
  rpc_call-starts request response callback w sch cid r e = rw (r, e) refl

  -- A call, if there is room for a coroutine and no number is used up, and the name of the
  -- request's type is short: its request goes out, under a number of its own, and the call waits
  -- for its reply. The application is not touched, and every other call waits as before; the stub
  -- stays in order.
  pub call_is_sent :
      (request : M) (response : Option M) (callback : Callback M A) (w : RpcWorld A)
      → Valid w
      → length w.scheduler.coroutine_table < w.scheduler.coroutine_max
      → w.scheduler.cid_seed < 2 ^ 31 - 1
      → w.shared.asyncid_seed < 2 ^ 64 - 1
      → length (pb.type_name request) < max_message_name
      → (w' : RpcWorld A) × (rpc_call pb true true (some request) response (some callback) w
          ≡ done (success, w'))
        × (w'.shared ≡ sent_request request w.shared)
        × Valid w'
        × Pending w' w.scheduler.cid_seed w.shared.asyncid_seed request response callback
        × ((cid asyncid : ℕ) (req : M) (resp : Option M) (cb : Callback M A)
            → Pending w cid asyncid req resp cb
            → Pending w' cid asyncid req resp cb)
  call_is_sent request response callback w v room ids numbers short =
      let cid = w.scheduler.cid_seed in
      let (sch, made, c) =
        create_coroutine_lem (rpc_function pb request response callback) w.scheduler room ids in
      let (sch', run, r) =
        resume_runs_slice sch
          (record {
            idx = cid;
            state = coroutine_ready;
            code = rpc_function pb request response callback;
          })
          w.shared (sent_request request w.shared)
          (some (runs (reply pb request response callback) returns)) c.ready tt
          (first_slice request response callback w.shared short) in
      let p : CoroutinePair = record { crid = pos cid; asyncid = w.shared.asyncid_seed } in
      (
        record {
          rpc = record w.rpc { crid_list = w.rpc.crid_list ++ (p ∷ []) };
          scheduler = sch';
          shared = sent_request request w.shared;
        },
        rpc_call-starts request response callback w sch cid v.is_ready made
            ∙ start_call-sends w sch sch' cid (sent_request request w.shared) run,
        refl,
        record {
          is_ready = v.is_ready;
          older =
              Older-append w.shared.asyncid_seed (add64 w.shared.asyncid_seed 1) w.rpc.crid_list p
                (omega arith) (omega arith) (cid, refl) v.older;
          fresh = λ i h.
              r.others i (omega (arith, r.seed, c.seed))
              ∙ c.others i (omega (arith, r.seed, c.seed))
              ∙ v.fresh i (omega (arith, r.seed, c.seed));
        },
        record {
          listed = Listed-last cid w.shared.asyncid_seed w.rpc.crid_list v.older;
          waits = r.kept;
        },
        λ i a req resp cb q.
            let other : i ≢ cid = λ e. none-some (sym (v.fresh i (omega (arith, e))) ∙ q.waits) in
            record {
              listed = Listed-append i a p w.rpc.crid_list q.listed;
              waits = r.others i other ∙ c.others i other ∙ q.waits;
            },
      )
