-- ===== src/Net/Walk.antt =====
-- The walk over the front ends: `WalkThrough` with `DoSomething`.
pub mod Complete
pub mod Outcome
pub mod Kept
use rapidapp.Base.{
  ℕ, zero, suc, ◌≡◌, refl, sym, ◌∙◌, ap, subst, Bool, true, false, Option, none, some, ◌==◌, arith,
  inl, inr, Bool-cases,
}
use rapidapp.Base.Run.{done, ◌>>=◌}
use rapidapp.Net.{
  EasyNet, Heap, NetHandlerMgr, Cursor, at, at_end, invalid, store, find, erase, begin, next,
  release, walk_loop, rewind, walk_through, k_single_round_loop_num,
}
use rapidapp.Net.Pool.{OnEntry, begin-OnEntry, next-OnEntry, find-erase_sub}
use rapidapp.Net.Release.{ContextLive, release_lem, store_at}
use rapidapp.Net.Remove.{Inv, erase-Inv, next_after, some_inj}

-- What a walk may change of a connection: not its socket, not its context.
abbrev pub Keeps : (EasyNet → Bool × EasyNet) → Type 0
Keeps act =
    (n : EasyNet) → ((act n).1.hevent ≡ n.hevent) × ((act n).1.user_context ≡ n.user_context)

-- Two states of a connection on one socket with one context.
abbrev pub Alike : EasyNet → EasyNet → Type 0
Alike n n' = (n.hevent ≡ n'.hevent) × (n.user_context ≡ n'.user_context)

same_contexts :
    {S : Type 0} (u : Option ℕ) (h : Heap S) (nets : ℕ → Option EasyNet)
    → ContextLive u h
    → ContextLive u (record h { nets = nets })
same_contexts none h nets l = tt
same_contexts (some c) h nets l = l

module _ {S : Type 0} (h : Heap S) (net : ℕ) (n n' : EasyNet) (a : h.nets net ≡ some n)
    (like : Alike n n') where
  -- Writing over one connection is seen nowhere but there, and there only in part.
  before :
      (b : ℕ) (k : EasyNet)
      → store net (some n') h.nets b ≡ some k
      → (k0 : EasyNet) × (h.nets b ≡ some k0) × Alike k0 k
  before b k e = elim (Bool-cases (b == net)) [
    | inl q ↦
        let same : n' ≡ k = some_inj n' k (rw q at e) in
        (
          n,
          ap h.nets (equal b net q) ∙ a,
          (like.0 ∙ ap (λ t. t.hevent) same, like.1 ∙ ap (λ t. t.user_context) same),
        )
    | inr q ↦ (k, rw q at e, (refl, refl))
  ]
    where
      equal : (b net : ℕ) → (b == net) ≡ true → b ≡ net
      equal b net q = ground arith

  after :
      (b : ℕ) (k0 : EasyNet)
      → h.nets b ≡ some k0
      → (k : EasyNet) × (store net (some n') h.nets b ≡ some k) × Alike k0 k
  after b k0 e = elim (Bool-cases (b == net)) [
    | inl q ↦
        let same : n ≡ k0 = some_inj n k0 (sym a ∙ ap h.nets (sym (equal b net q)) ∙ e) in
        (
          n',
          rw q refl,
          (sym (ap (λ t. t.hevent) same) ∙ like.0, sym (ap (λ t. t.user_context) same) ∙ like.1),
        )
    | inr q ↦ (k0, rw q e, (refl, refl))
  ]
    where
      equal : (b net : ℕ) → (b == net) ≡ true → b ≡ net
      equal b net q = ground arith

  touch-Inv :
      (m : NetHandlerMgr) (c : Cursor)
      → Inv h m
      → OnEntry c m.handler_pool
      → Inv (record h { nets = store net (some n') h.nets }) (record m { it_cursor = c })
  touch-Inv m c inv on = record {
    distinct = inv.distinct;
    live = λ fd b f.
        let (k0, e, s, l) = inv.live fd b f in
        let (k, e', alike) = after b k0 e in
        (
          k,
          e',
          sym (alike.0) ∙ s,
          subst (λ u. ContextLive u (record h { nets = store net (some n') h.nets })) (alike.1)
              (same_contexts k0.user_context h (store net (some n') h.nets) l),
        );
    apart = λ fd1 fd2 b1 b2 d k1 k2 f1 f2 e1 e2 u1 u2.
        let (j1, g1, alike1) = before b1 k1 e1 in
        let (j2, g2, alike2) = before b2 k2 e2 in
        inv.apart fd1 fd2 b1 b2 d j1 j2 f1 f2 g1 g2 (alike1.1 ∙ u1) (alike2.1 ∙ u2);
    cursor = on;
  }

-- The loop, one entry at a time.
module _ {S : Type 0} (act : EasyNet → Bool × EasyNet) (keeps : Keeps act) where
  walk_closes :
      (rounds : ℕ) (h h2 : Heap S) (m : NetHandlerMgr) (fd net : ℕ) (n : EasyNet)
      → m.it_cursor ≡ at fd
      → find fd m.handler_pool ≡ some net
      → h.nets net ≡ some n
      → (act n).0 ≡ true
      → release net (record h { nets = store net (some (act n).1) h.nets }) ≡ done h2
      → walk_loop (suc rounds) act h m
        ≡ walk_loop rounds act h2
            (record { handler_pool = erase fd m.handler_pool; it_cursor = next fd m.handler_pool })
  unfolding walk_loop
  walk_closes rounds h h2 m fd net n e f a closed run = rw (walk_loop, e, f, a, ◌>>=◌, closed, run)

  walk_keeps :
      (rounds : ℕ) (h : Heap S) (m : NetHandlerMgr) (fd net : ℕ) (n : EasyNet)
      → m.it_cursor ≡ at fd
      → find fd m.handler_pool ≡ some net
      → h.nets net ≡ some n
      → (act n).0 ≡ false
      → walk_loop (suc rounds) act h m
        ≡ walk_loop rounds act
            (record h { nets = store net (some (act n).1) h.nets })
            (record m { it_cursor = next fd m.handler_pool })
  unfolding walk_loop
  walk_keeps rounds h m fd net n e f a stays = rw (walk_loop, e, f, a, ◌>>=◌, stays)

  walk_loop_lem :
      (rounds : ℕ) (h : Heap S) (m : NetHandlerMgr)
      → Inv h m
      → (h' : Heap S) × (m' : NetHandlerMgr) × (walk_loop rounds act h m ≡ done (h', m'))
        × Inv h' m'
        × ((fd net : ℕ) → find fd m'.handler_pool ≡ some net → find fd m.handler_pool ≡ some net)
  unfolding walk_loop
  walk_loop_lem zero h m inv = (h, m, refl, inv, λ fd net f. f)
  walk_loop_lem (suc rounds) h m inv =
      go m.it_cursor refl inv.cursor (λ h m inv. walk_loop_lem rounds h m inv)
    where
      go :
          (c : Cursor)
          → m.it_cursor ≡ c
          → OnEntry c m.handler_pool
          → ((h : Heap S) (m : NetHandlerMgr)
              → Inv h m
              → (h' : Heap S) × (m' : NetHandlerMgr) × (walk_loop rounds act h m ≡ done (h', m'))
                × Inv h' m'
                × ((fd net : ℕ)
                    → find fd m'.handler_pool ≡ some net
                    → find fd m.handler_pool ≡ some net))
          → (h' : Heap S) × (m' : NetHandlerMgr) × (walk_loop (suc rounds) act h m ≡ done (h', m'))
            × Inv h' m'
            × ((fd net : ℕ)
                → find fd m'.handler_pool ≡ some net
                → find fd m.handler_pool ≡ some net)
      go at_end e on rest = (h, m, rw e refl, inv, λ fd net f. f)
      go invalid e on rest = elim on [ ]
      go (at fd) e (net, f) rest =
          let (n, a, socket, l) = inv.live fd net f in
          let n' = (act n).1 in
          let like : Alike n n' = (sym ((keeps n).0), sym ((keeps n).1)) in
          let h1 = record h { nets = store net (some n') h.nets } in
          let a1 = store_at net (some n') h.nets in
          let on' = next-OnEntry fd m.handler_pool inv.distinct in
          elim (Bool-cases (act n).0) [
            | inl closed ↦
                let inv1 = touch-Inv h net n n' a like m m.it_cursor inv inv.cursor in
                let l1 =
                  subst (λ u. ContextLive u h1) (like.1)
                    (same_contexts n.user_context h (store net (some n') h.nets) l) in
                let (h2, run, r) = release_lem net h1 n' a1 l1 in
                let (c, ec, on) = next_after h1 m inv1 fd net f in
                let (h', m', run', inv', sub) =
                  rest h2
                    (record {
                      handler_pool = erase fd m.handler_pool;
                      it_cursor = next fd m.handler_pool;
                    })
                    (erase-Inv h1 m inv1 fd net n' h2 (next fd m.handler_pool) f a1 r
                      (subst (λ c. OnEntry c (erase fd m.handler_pool)) (sym ec) on)) in
                (
                  h',
                  m',
                  walk_closes rounds h h2 m fd net n e f a closed run ∙ run',
                  inv',
                  λ k v g. find-erase_sub fd k v m.handler_pool inv.distinct (sub k v g),
                )
            | inr stays ↦
                let (h', m', run', inv', sub) =
                  rest h1 (record m { it_cursor = next fd m.handler_pool })
                    (touch-Inv h net n n' a like m (next fd m.handler_pool) inv on') in
                (h', m', walk_keeps rounds h m fd net n e f a stays ∙ run', inv', sub)
          ]

-- The cursor may be put on any entry.
recursor :
    {S : Type 0} (h : Heap S) (m : NetHandlerMgr) (c : Cursor)
    → Inv h m
    → OnEntry c m.handler_pool
    → Inv h (record m { it_cursor = c })
recursor h m c inv on = record {
  distinct = inv.distinct;
  live = inv.live;
  apart = inv.apart;
  cursor = on;
}

rewind-Inv :
    {S : Type 0} (h : Heap S) (m : NetHandlerMgr)
    → Inv h m
    → Inv (rewind (h, m)).0 (rewind (h, m)).1
unfolding rewind
rewind-Inv h m inv = go m.it_cursor refl
  where
    go : (c : Cursor) → m.it_cursor ≡ c → Inv (rewind (h, m)).0 (rewind (h, m)).1
    go at_end e = rw e (recursor h m (begin m.handler_pool) inv (begin-OnEntry m.handler_pool))
    go invalid e = rw e (recursor h m invalid inv (rw e at inv.cursor))
    go (at fd) e = rw e (recursor h m (at fd) inv (rw e at inv.cursor))

rewind-pool :
    {S : Type 0} (h : Heap S) (m : NetHandlerMgr) → (rewind (h, m)).1.handler_pool ≡ m.handler_pool
unfolding rewind
rewind-pool h m = go m.it_cursor refl
  where
    go : (c : Cursor) → m.it_cursor ≡ c → (rewind (h, m)).1.handler_pool ≡ m.handler_pool
    go at_end e = rw e refl
    go invalid e = rw e refl
    go (at fd) e = rw e refl

-- From a table in order, a walk, whatever it decides on each connection, never touches freed
-- memory or an entry that is gone. It leaves the table in order and adds no connection. This
-- supposes that the decision changes neither the socket nor the context of a connection.
pub walk_through_lem :
    {S : Type 0} (act : EasyNet → Bool × EasyNet) (h : Heap S) (m : NetHandlerMgr)
    → Keeps act
    → Inv h m
    → (h' : Heap S) × (m' : NetHandlerMgr) × (walk_through act h m ≡ done (h', m'))
      × Inv h' m'
      × ((fd net : ℕ) → find fd m'.handler_pool ≡ some net → find fd m.handler_pool ≡ some net)
unfolding walk_through
walk_through_lem act h m keeps inv =
    let (h1, m1, run, inv1, sub) = walk_loop_lem act keeps k_single_round_loop_num h m inv in
    (
      (rewind (h1, m1)).0,
      (rewind (h1, m1)).1,
      rw run refl,
      rewind-Inv h1 m1 inv1,
      λ fd net f. sub fd net (rw (rewind-pool h1 m1) at f),
    )
