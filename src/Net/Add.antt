-- ===== src/Net/Add.antt =====
-- Connections are added: `AddHandlerToMap`. The table is `std::tr1::unordered_map`, whose choice of a
-- place is a parameter.
use rapidapp.Base.{
  ℕ, ◌≡◌, ◌≢◌, sym, ◌∙◌, ap, subst, Bool, true, false, none, some, List, ◌==◌, arith, inl, inr,
  Bool-cases,
}
use rapidapp.Net.{
  EasyNet, Heap, NetHandlerMgr, Cursor, at, at_end, invalid, find, add_handler_to_map, after_insert,
}
use rapidapp.Net.Pool.{Distinct, OnEntry}
use rapidapp.Net.Remove.{Inv, Live, some_inj}

-- A choice of a place puts the entry in, keeps the others, and says whether it rehashed.
abbrev pub Places : (List (ℕ × ℕ) → ℕ × ℕ → List (ℕ × ℕ) × Bool) → Type 0
Places place =
    (pool : List (ℕ × ℕ)) (fd net : ℕ)
    → find fd pool ≡ none
    → Distinct pool
    → Distinct (place pool (fd, net)).0
      × (find fd (place pool (fd, net)).0 ≡ some net)
      × ((k : ℕ) → k ≢ fd → find k (place pool (fd, net)).0 ≡ find k pool)

added :
    (place : List (ℕ × ℕ) → ℕ × ℕ → List (ℕ × ℕ) × Bool) (m : NetHandlerMgr) (fd net : ℕ)
    → find fd m.handler_pool ≡ none
    → (place m.handler_pool (fd, net)).1 ≡ false
    → add_handler_to_map place fd net m
      ≡ record m { handler_pool = (place m.handler_pool (fd, net)).0 }
unfolding add_handler_to_map after_insert
added place m fd net absent calm = rw (add_handler_to_map, absent, calm)

data Side (k fd : ℕ) : Type 0 where
  new_one : k ≡ fd → Side k fd
  old_one : k ≢ fd → Side k fd

side : (k fd : ℕ) → Side k fd
side k fd = elim (Bool-cases (k == fd)) [
  | inl h ↦ new_one (equal k fd h)
  | inr h ↦ old_one (unequal k fd h)
]
  where
    equal : (k fd : ℕ) → (k == fd) ≡ true → k ≡ fd
    equal k fd h = ground arith

    unequal : (k fd : ℕ) → (k == fd) ≡ false → k ≢ fd
    unequal k fd h e = ground arith

-- The context of a connection is its own.
abbrev pub Own : {S : Type 0} → ℕ → Heap S → NetHandlerMgr → Type 0
Own net h m =
    (k b c : ℕ) (n n' : EasyNet)
    → find k m.handler_pool ≡ some b
    → h.nets b ≡ some n
    → h.nets net ≡ some n'
    → n.user_context ≡ some c
    → n'.user_context ≢ some c

module _ {S : Type 0} (h : Heap S) (m : NetHandlerMgr) (fd net : ℕ) (pool : List (ℕ × ℕ))
    (inv : Inv h m) (absent : find fd m.handler_pool ≡ none) (live : Live fd net h)
    (own : Own net h m) (d : Distinct pool) (f : find fd pool ≡ some net)
    (others : (k : ℕ) → k ≢ fd → find k pool ≡ find k m.handler_pool) where
  -- The socket leads to the new connection.
  at_new : (k b : ℕ) → find k pool ≡ some b → k ≡ fd → b ≡ net
  at_new k b g e = some_inj b net (sym g ∙ ap (λ k. find k pool) e ∙ f)

  -- Nobody shares the new connection's context.
  not_shared :
      (k b b' c : ℕ) (n n' : EasyNet)
      → k ≢ fd
      → find k pool ≡ some b
      → b' ≡ net
      → h.nets b ≡ some n
      → h.nets b' ≡ some n'
      → n.user_context ≡ some c
      → n'.user_context ≢ some c
  not_shared k b b' c n n' ne g e a a' u u' =
      own k b c n n' (sym (others k ne) ∙ g) a (ap h.nets (sym e) ∙ a') u u'

  joined_apart :
      (k k' b b' c : ℕ) (n n' : EasyNet)
      → find k pool ≡ some b
      → find k' pool ≡ some b'
      → h.nets b ≡ some n
      → h.nets b' ≡ some n'
      → n.user_context ≡ some c
      → n'.user_context ≡ some c
      → k ≡ k'
  joined_apart k k' b b' c n n' g g' a a' u u' = elim (side k fd) [
    | new_one e ↦ elim (side k' fd) [
      | new_one e' ↦ e ∙ sym e'
      | old_one ne' ↦ absurd (not_shared k' b' b c n' n ne' g' (at_new k b g e) a' a u' u)
    ]
    | old_one ne ↦ elim (side k' fd) [
      | new_one e' ↦ absurd (not_shared k b b' c n n' ne g (at_new k' b' g' e') a a' u u')
      | old_one ne' ↦
          inv.apart k k' b b' c n n' (sym (others k ne) ∙ g) (sym (others k' ne') ∙ g') a a' u u'
    ]
  ]

  joined_cursor : (c : Cursor) → OnEntry c m.handler_pool → OnEntry c pool
  joined_cursor at_end on = tt
  joined_cursor invalid on = on
  joined_cursor (at k) (v, g) = elim (side k fd) [
    | new_one e ↦ absurd (clash (sym absent ∙ ap (λ k. find k m.handler_pool) (sym e) ∙ g))
    | old_one ne ↦ (v, others k ne ∙ g)
  ]
    where
      clash : {v : ℕ} → none ≡ some v → ⊥
      clash e = cc

  joined : Inv h (record m { handler_pool = pool })
  joined = record {
    distinct = d;
    live = λ k b g. elim (side k fd) [
      | new_one e ↦
          subst (λ k. Live k b h) (sym e) (subst (λ b. Live fd b h) (sym (at_new k b g e)) live)
      | old_one ne ↦ inv.live k b (sym (others k ne) ∙ g)
    ];
    apart = joined_apart;
    cursor = joined_cursor m.it_cursor inv.cursor;
  }

-- A connection that is live, on a socket that is not in the table, with a context that no other
-- has, joins a table in order: its socket leads to it, every other socket as before, and the table
-- stays in order. This supposes that the hash table is not rehashed.
pub add_handler_to_map_lem :
    {S : Type 0} (place : List (ℕ × ℕ) → ℕ × ℕ → List (ℕ × ℕ) × Bool) (h : Heap S)
    (m : NetHandlerMgr) (fd net : ℕ)
    → Places place
    → Inv h m
    → find fd m.handler_pool ≡ none
    → Live fd net h
    → Own net h m
    → (place m.handler_pool (fd, net)).1 ≡ false
    → Inv h (add_handler_to_map place fd net m)
      × (find fd (add_handler_to_map place fd net m).handler_pool ≡ some net)
      × ((k : ℕ)
          → k ≢ fd
          → find k (add_handler_to_map place fd net m).handler_pool ≡ find k m.handler_pool)
add_handler_to_map_lem place h m fd net places inv absent live own calm =
    let (d, f, others) = places m.handler_pool fd net absent inv.distinct in
    subst
      (λ m'.
        Inv h m'
        × (find fd m'.handler_pool ≡ some net)
        × ((k : ℕ) → k ≢ fd → find k m'.handler_pool ≡ find k m.handler_pool))
      (sym (added place m fd net absent calm))
      (
        joined h m fd net (place m.handler_pool (fd, net)).0 inv absent live own d f others,
        f,
        others,
      )
