-- ===== src/Net/Walk/Complete.antt =====
-- A walk that starts at the front of a table of at most 1024 connections visits each of them once.
use rapidapp.Base.{
  ℕ, zero, suc, ◌≤◌, ◌≡◌, ◌≢◌, refl, sym, ◌∙◌, ap, subst, Bool, true, false, Option, none, some,
  List, [], ◌∷◌, ◌++◌, ◌==◌, if◌then◌else◌, arith, inl, inr, Bool-cases, length, append_assoc,
  ==_refl,
}
use rapidapp.Base.Run.{done}
use rapidapp.Net.{
  EasyNet, Heap, NetHandlerMgr, at_end, store, find, erase, begin, next, walk_loop, rewind,
  walk_through, k_single_round_loop_num,
}
use rapidapp.Net.Pool.{Distinct, OnEntry, next-OnEntry}
use rapidapp.Net.Release.{ContextLive, release_lem, store_at, store_other}
use rapidapp.Net.Remove.{Inv, erase-Inv, next_after, nets_apart}
use rapidapp.Net.Walk.{
  Keeps, Alike, touch-Inv, same_contexts, walk_closes, walk_keeps, walk_through_lem,
}
use rapidapp.Net.Walk.Outcome.{Visited, Visited-nil, Visited-cons, held-Decided, shut-Decided}

-- The entries that a decision on the connections as they stand would keep.
abbrev pub stays : (EasyNet → Bool × EasyNet) → Option EasyNet → Bool
stays act none = true
stays act (some n) = if (act n).0 then false else true

abbrev pub kept : (EasyNet → Bool × EasyNet) → (ℕ → Option EasyNet) → List (ℕ × ℕ) → List (ℕ × ℕ)
kept act nets [] = []
kept act nets ((k, net) ∷ rest) =
    if stays act (nets net) then (k, net) ∷ kept act nets rest else kept act nets rest

key_apart :
    (j k v : ℕ) (pool : List (ℕ × ℕ)) → find j pool ≡ none → find k pool ≡ some v → (j == k) ≡ false
key_apart j k v pool absent found = elim (Bool-cases (j == k)) [
  | inl q ↦ absurd (clash (sym absent ∙ ap (λ t. find t pool) (equal j k q) ∙ found))
  | inr q ↦ q
]
  where
    equal : (j k : ℕ) → (j == k) ≡ true → j ≡ k
    equal j k q = ground arith

    clash : {v : ℕ} → none ≡ some v → ⊥
    clash e = cc

-- An entry in the middle of a table.
module _ (k net : ℕ) (rest : List (ℕ × ℕ)) where
  find-middle :
      (pre : List (ℕ × ℕ))
      → Distinct (pre ++ (k, net) ∷ rest)
      → find k (pre ++ (k, net) ∷ rest) ≡ some net
  unfolding find
  find-middle [] d = rw (==_refl k) refl
  find-middle ((j, b) ∷ pre) (absent, d) =
      rw (key_apart j k net (pre ++ (k, net) ∷ rest) absent (find-middle pre d)) (find-middle pre d)

  next-middle :
      (pre : List (ℕ × ℕ))
      → Distinct (pre ++ (k, net) ∷ rest)
      → next k (pre ++ (k, net) ∷ rest) ≡ begin rest
  unfolding next
  next-middle [] d = rw (==_refl k) refl
  next-middle ((j, b) ∷ pre) (absent, d) =
      rw (key_apart j k net (pre ++ (k, net) ∷ rest) absent (find-middle pre d)) (next-middle pre d)

  erase-middle :
      (pre : List (ℕ × ℕ))
      → Distinct (pre ++ (k, net) ∷ rest)
      → erase k (pre ++ (k, net) ∷ rest) ≡ pre ++ rest
  unfolding erase
  erase-middle [] d = rw (==_refl k) refl
  erase-middle ((j, b) ∷ pre) (absent, d) =
      rw (key_apart j k net (pre ++ (k, net) ∷ rest) absent (find-middle pre d))
        (ap (◌∷◌ (j, b)) (erase-middle pre d))

-- Entries behind the middle one are found, under other sockets.
find-behind :
    (k net b v : ℕ) (rest pre : List (ℕ × ℕ))
    → Distinct (pre ++ (k, net) ∷ rest)
    → find b rest ≡ some v
    → (b ≢ k) × (find b (pre ++ (k, net) ∷ rest) ≡ some v)
unfolding find
find-behind k net b v rest [] (absent, d) f =
    (unequal k b (key_apart k b v rest absent f), rw (key_apart k b v rest absent f) f)
  where
    unequal : (k b : ℕ) → (k == b) ≡ false → b ≢ k
    unequal k b h e = ground arith
find-behind k net b v rest ((j, u) ∷ pre) (absent, d) f =
    let (ne, g) = find-behind k net b v rest pre d f in
    (ne, rw (key_apart j b v (pre ++ (k, net) ∷ rest) absent g) g)

Distinct-tail : (pre suf : List (ℕ × ℕ)) → Distinct (pre ++ suf) → Distinct suf
Distinct-tail [] suf d = d
Distinct-tail (e ∷ pre) suf (_, d) = Distinct-tail pre suf d

-- What is kept depends on the connections of the entries alone.
kept-same :
    (act : EasyNet → Bool × EasyNet) (f g : ℕ → Option EasyNet) (suf : List (ℕ × ℕ))
    → Distinct suf
    → ((b v : ℕ) → find b suf ≡ some v → f v ≡ g v)
    → kept act f suf ≡ kept act g suf
unfolding find
kept-same act f g [] d same = refl
kept-same act f g ((k, net) ∷ rest) (absent, d) same =
    rw
      (
        same k net (rw (==_refl k) refl),
        kept-same act f g rest d (λ b v h. same b v (rw (key_apart k b v rest absent h) h)),
      )
      refl

walk_stops :
    {S : Type 0} (act : EasyNet → Bool × EasyNet) (rounds : ℕ) (h : Heap S) (m : NetHandlerMgr)
    → m.it_cursor ≡ at_end
    → walk_loop rounds act h m ≡ done (h, m)
unfolding walk_loop
walk_stops act zero h m e = refl
walk_stops act (suc rounds) h m e = rw e refl

-- The entries behind the one that is visited.
module _ {S : Type 0} (h : Heap S) (m : NetHandlerMgr) (inv : Inv h m) (k net : ℕ)
    (pre rest : List (ℕ × ℕ)) (mp : m.handler_pool ≡ pre ++ (k, net) ∷ rest) where
  Distinct-middle : Distinct (pre ++ (k, net) ∷ rest)
  Distinct-middle = subst Distinct mp inv.distinct

  visited : find k m.handler_pool ≡ some net
  visited = ap (find k) mp ∙ find-middle k net rest pre Distinct-middle

  erased : erase k m.handler_pool ≡ pre ++ rest
  erased = ap (erase k) mp ∙ erase-middle k net rest pre Distinct-middle

  stepped : next k m.handler_pool ≡ begin rest
  stepped = ap (next k) mp ∙ next-middle k net rest pre Distinct-middle

  -- Their connections are others.
  other_net : (b v : ℕ) → find b rest ≡ some v → v ≢ net
  other_net b v f =
      let (ne, g) = find-behind k net b v rest pre Distinct-middle f in
      nets_apart h m inv k b net v visited (ap (find b) mp ∙ g) ne

  absent : find k rest ≡ none
  absent = (Distinct-tail pre ((k, net) ∷ rest) Distinct-middle).0

  Distinct-rest : Distinct rest
  Distinct-rest = (Distinct-tail pre ((k, net) ∷ rest) Distinct-middle).1

module _ {S : Type 0} (act : EasyNet → Bool × EasyNet) (keeps : Keeps act) where
  -- From the front of what is left, with rounds enough.
  walk_all :
      (rounds : ℕ) (h : Heap S) (m : NetHandlerMgr) (pre suf : List (ℕ × ℕ))
      → Inv h m
      → m.handler_pool ≡ pre ++ suf
      → m.it_cursor ≡ begin suf
      → length suf ≤ rounds
      → (h' : Heap S) × (walk_loop rounds act h m
          ≡ done (h', record { handler_pool = pre ++ kept act h.nets suf; it_cursor = at_end }))
        × Visited act suf h h'
  unfolding begin
  walk_all rounds h m pre [] inv mp mc enough = (
    h,
    walk_stops act rounds h m mc ∙ ap (λ q. done (h, q)) (rw (← mp, ← mc) refl),
    Visited-nil act h,
  )
  walk_all zero h m pre ((k, net) ∷ rest) inv mp mc enough = absurd (omega arith)
  walk_all (suc rounds) h m pre ((k, net) ∷ rest) inv mp mc enough =
      let f = visited h m inv k net pre rest mp in
      let (n, a, socket, l) = inv.live k net f in
      let n' = (act n).1 in
      let like : Alike n n' = (sym ((keeps n).0), sym ((keeps n).1)) in
      let h1 = record h { nets = store net (some n') h.nets } in
      let a1 = store_at net (some n') h.nets in
      elim (Bool-cases (act n).0) [
        | inl closed ↦
            let inv1 = touch-Inv h net n n' a like m m.it_cursor inv inv.cursor in
            let l1 =
              subst (λ u. ContextLive u h1) (like.1)
                (same_contexts n.user_context h (store net (some n') h.nets) l) in
            let (h2, run, r) = release_lem net h1 n' a1 l1 in
            let (c, ec, on) = next_after h1 m inv1 k net f in
            let m2 : NetHandlerMgr = record {
              handler_pool = erase k m.handler_pool;
              it_cursor = next k m.handler_pool;
            } in
            let inv2 : Inv h2 m2 =
              erase-Inv h1 m inv1 k net n' h2 (next k m.handler_pool) f a1 r
                (subst (λ c. OnEntry c (erase k m.handler_pool)) (sym ec) on) in
            let (h', run', v) =
              walk_all rounds h2 m2 pre rest inv2 (erased h m inv k net pre rest mp)
                (stepped h m inv k net pre rest mp) (omega arith) in
            (
              h',
              walk_closes act keeps rounds h h2 m k net n mc f a closed run
                  ∙ run'
                  ∙ ap (λ q. done (h', record { handler_pool = pre ++ q; it_cursor = at_end }))
                      (rw (a, closed)
                        (kept-same act h2.nets h.nets rest (Distinct-rest h m inv k net pre rest mp)
                          (λ b v g.
                            r.other_nets v (other_net h m inv k net pre rest mp b v g)
                            ∙ store_other net v (some n') h.nets
                                (other_net h m inv k net pre rest mp b v g)))),
              Visited-cons act k net n rest h h2 h' (absent h m inv k net pre rest mp) a
                  (other_net h m inv k net pre rest mp)
                  (shut-Decided act net n h h2 closed ((keeps n).1) r) v,
            )
        | inr kept_open ↦
            let m2 = record m { it_cursor = next k m.handler_pool } in
            let inv2 : Inv h1 m2 =
              touch-Inv h net n n' a like m (next k m.handler_pool) inv
                (next-OnEntry k m.handler_pool inv.distinct) in
            let (h', run', v) =
              walk_all rounds h1 m2 (pre ++ (k, net) ∷ []) rest inv2
                (mp ∙ sym (append_assoc pre ((k, net) ∷ []) rest))
                (stepped h m inv k net pre rest mp) (omega arith) in
            (
              h',
              walk_keeps act keeps rounds h m k net n mc f a kept_open
                  ∙ run'
                  ∙ ap (λ q. done (h', record { handler_pool = q; it_cursor = at_end }))
                      (append_assoc pre ((k, net) ∷ []) (kept act h1.nets rest)
                        ∙ ap (λ q. pre ++ q)
                            (rw (a, kept_open)
                              (ap (◌∷◌ (k, net)) (
                                kept-same act h1.nets h.nets rest
                                  (Distinct-rest h m inv k net pre rest mp)
                                  (λ b v g.
                                    store_other net v (some n') h.nets
                                      (other_net h m inv k net pre rest mp b v g)))))),
              Visited-cons act k net n rest h h1 h' (absent h m inv k net pre rest mp) a
                  (other_net h m inv k net pre rest mp) (held-Decided act net n h kept_open) v,
            )
      ]

-- One walk over a table in order of at most 1024 connections, from its front, and what it leaves.
pub walk_through_outcome :
    {S : Type 0} (act : EasyNet → Bool × EasyNet) (h : Heap S) (m : NetHandlerMgr)
    → Keeps act
    → Inv h m
    → m.it_cursor ≡ begin m.handler_pool
    → length m.handler_pool ≤ 1024
    → (h' : Heap S) × (m' : NetHandlerMgr) × (walk_through act h m ≡ done (h', m'))
      × (m'.handler_pool ≡ kept act h.nets m.handler_pool)
      × (m'.it_cursor ≡ begin m'.handler_pool)
      × Visited act m.handler_pool h h'
      × Inv h' m'
unfolding walk_through rewind
walk_through_outcome {S} act h m keeps inv front few =
    let (h', run, v) =
      walk_all act keeps k_single_round_loop_num h m [] m.handler_pool inv refl front few in
    let m' : NetHandlerMgr = record {
      handler_pool = kept act h.nets m.handler_pool;
      it_cursor = begin (kept act h.nets m.handler_pool);
    } in
    let walked : walk_through act h m ≡ done (h', m') = rw run refl in
    let (h1, m1, run1, inv1, _) = walk_through_lem act h m keeps inv in
    (
      h',
      m',
      walked,
      refl,
      refl,
      v,
      subst (λ (r : Heap S × NetHandlerMgr). Inv r.0 r.1)
          (done_inj (h1, m1) (h', m') (sym run1 ∙ walked)) inv1,
    )
  where
    done_inj : (p q : Heap S × NetHandlerMgr) → done p ≡ done q → p ≡ q
    done_inj p q e = cc

-- From a table in order of at most 1024 connections, with the cursor at its front, one walk
-- decides on every connection once: those that it closes leave the table, the others stay, in
-- their order, and the next walk starts at the front again. This supposes that the decision
-- changes neither the socket nor the context of a connection.
pub walk_through_visits_all :
    {S : Type 0} (act : EasyNet → Bool × EasyNet) (h : Heap S) (m : NetHandlerMgr)
    → Keeps act
    → Inv h m
    → m.it_cursor ≡ begin m.handler_pool
    → length m.handler_pool ≤ 1024
    → (h' : Heap S) × (walk_through act h m
        ≡ done (
          h',
          record {
            handler_pool = kept act h.nets m.handler_pool;
            it_cursor = begin (kept act h.nets m.handler_pool);
          },
        ))
unfolding walk_through rewind
walk_through_visits_all act h m keeps inv front few =
    let (h', run, _) =
      walk_all act keeps k_single_round_loop_num h m [] m.handler_pool inv refl front few in
    (h', rw run refl)
