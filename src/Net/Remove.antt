-- ===== src/Net/Remove.antt =====
-- Connections are removed without harm to the others: `RemoveHandlerByEvent`.
use rapidapp.Base.{
  ℕ, ◌≡◌, ◌≢◌, refl, sym, ◌∙◌, ap, false, Option, none, some, ◌==◌, arith, inl, inr, Bool-cases,
  success,
}
use rapidapp.Base.Run.{done}
use rapidapp.Net.{
  EasyNet, Heap, NetHandlerMgr, Cursor, at, at_end, invalid, find, erase, next, step_off,
  remove_handler_by_event,
}
use rapidapp.Net.Pool.{
  Distinct, OnEntry, find-erase_same, find-erase_other, Distinct-erase, next_cases,
}
use rapidapp.Net.Release.{ContextLive, Released, release_lem}

-- The connection at an address is there, on that socket, with its context.
abbrev pub Live : {S : Type 0} → ℕ → ℕ → Heap S → Type 0
Live fd net h =
    (n : EasyNet) × (h.nets net ≡ some n) × (n.hevent ≡ some fd) × ContextLive n.user_context h

-- A table in order: every connection is live and on the socket that it stands under, no two share a user
-- context, and the cursor can be used.
pub record Inv {S : Type 0} (h : Heap S) (m : NetHandlerMgr) : Type 0 where
  pub distinct : Distinct m.handler_pool
  pub live : (fd net : ℕ) → find fd m.handler_pool ≡ some net → Live fd net h
  pub apart :
      (fd1 fd2 net1 net2 c : ℕ) (n1 n2 : EasyNet)
      → find fd1 m.handler_pool ≡ some net1
      → find fd2 m.handler_pool ≡ some net2
      → h.nets net1 ≡ some n1
      → h.nets net2 ≡ some n2
      → n1.user_context ≡ some c
      → n2.user_context ≡ some c
      → fd1 ≡ fd2
  pub cursor : OnEntry m.it_cursor m.handler_pool

pub some_inj : {A : Type 0} (a b : A) → some a ≡ some b → a ≡ b
some_inj a b h = cc

module _ {S : Type 0} (h : Heap S) (m : NetHandlerMgr) (inv : Inv h m) where
  -- Two sockets of the table have different connections.
  pub nets_apart :
      (fd fd' net net' : ℕ)
      → find fd m.handler_pool ≡ some net
      → find fd' m.handler_pool ≡ some net'
      → fd' ≢ fd
      → net' ≢ net
  nets_apart fd fd' net net' f f' ne e =
      let (n, a, s, _) = inv.live fd net f in
      let (n', a', s', _) = inv.live fd' net' f' in
      let same : n' ≡ n = some_inj n' n (sym a' ∙ ap h.nets e ∙ a) in
      ne (some_inj fd' fd (sym s' ∙ ap (λ k. k.hevent) same ∙ s))

  -- The invariant without one entry, after its connection was freed.
  pub erase-Inv :
      (fd net : ℕ) (n : EasyNet) (h' : Heap S) (c : Cursor)
      → find fd m.handler_pool ≡ some net
      → h.nets net ≡ some n
      → Released net n.user_context h h'
      → OnEntry c (erase fd m.handler_pool)
      → Inv h' (record { handler_pool = erase fd m.handler_pool; it_cursor = c })
  erase-Inv fd net n h' c f a r on = record {
    distinct = Distinct-erase fd m.handler_pool inv.distinct;
    live = λ fd' net' f'.
        let ne = kept fd' net' f' in
        let g = old fd' net' f' ne in
        let (n', a', s', l') = inv.live fd' net' g in
        (
          n',
          r.other_nets net' (nets_apart fd fd' net net' f g ne) ∙ a',
          s',
          context fd' net' n' g a' ne n'.user_context refl l',
        );
    apart = λ fd1 fd2 net1 net2 d n1 n2 f1 f2 a1 a2 u1 u2.
        let ne1 = kept fd1 net1 f1 in
        let ne2 = kept fd2 net2 f2 in
        let g1 = old fd1 net1 f1 ne1 in
        let g2 = old fd2 net2 f2 ne2 in
        inv.apart fd1 fd2 net1 net2 d n1 n2 g1 g2
          (sym (r.other_nets net1 (nets_apart fd fd1 net net1 f g1 ne1)) ∙ a1)
          (sym (r.other_nets net2 (nets_apart fd fd2 net net2 f g2 ne2)) ∙ a2) u1 u2;
    cursor = on;
  }
    where
      clash : {v : ℕ} → none ≡ some v → ⊥
      clash e = cc

      kept : (fd' net' : ℕ) → find fd' (erase fd m.handler_pool) ≡ some net' → fd' ≢ fd
      kept fd' net' f' e = clash (
          sym (find-erase_same fd m.handler_pool inv.distinct)
          ∙ ap (λ k. find k (erase fd m.handler_pool)) (sym e)
          ∙ f')

      old :
          (fd' net' : ℕ)
          → find fd' (erase fd m.handler_pool) ≡ some net'
          → fd' ≢ fd
          → find fd' m.handler_pool ≡ some net'
      old fd' net' f' ne = sym (find-erase_other fd fd' m.handler_pool ne) ∙ f'

      context :
          (fd' net' : ℕ) (n' : EasyNet)
          → find fd' m.handler_pool ≡ some net'
          → h.nets net' ≡ some n'
          → fd' ≢ fd
          → (u : Option ℕ) → n'.user_context ≡ u
          → ContextLive u h
          → ContextLive u h'
      context fd' net' n' g a' ne none e l = tt
      context fd' net' n' g a' ne (some d) e (x, l) =
          (x, r.other_contexts d (λ q. ne (inv.apart fd' fd net' net d n' n g f a' a e q)) ∙ l)

  pub next_after :
      (fd net : ℕ)
      → find fd m.handler_pool ≡ some net
      → (c' : Cursor) × (next fd m.handler_pool ≡ c') × OnEntry c' (erase fd m.handler_pool)
  next_after fd net f = elim (next_cases fd m.handler_pool inv.distinct) [
    | inl e ↦ (at_end, e, tt)
    | inr (k, v, e, ne, g) ↦ (at k, e, (v, find-erase_other fd k m.handler_pool ne ∙ g))
  ]

  -- After `it_cursor_++` off the entry that goes, or with the cursor elsewhere.
  step_off_lem :
      (fd net : ℕ) (c : Cursor)
      → find fd m.handler_pool ≡ some net
      → OnEntry c m.handler_pool
      → (c' : Cursor) × (step_off fd m.handler_pool c ≡ done c')
        × OnEntry c' (erase fd m.handler_pool)
  unfolding step_off
  step_off_lem fd net at_end f on = (at_end, refl, tt)
  step_off_lem fd net invalid f on = elim on [ ]
  step_off_lem fd net (at k) f (v, g) = elim (Bool-cases (k == fd)) [
    | inl q ↦ let (c, e, on) = next_after fd net f in (c, rw q (ap done e), on)
    | inr q ↦ (at k, rw q refl, (v, find-erase_other fd k m.handler_pool (unequal k fd q) ∙ g))
  ]
    where
      unequal : (k fd : ℕ) → (k == fd) ≡ false → k ≢ fd
      unequal k fd h e = ground arith

-- Removing a connection of a table in order frees it and leaves the table in order. Its socket is
-- found no more, every other socket as before, and no other connection is touched.
pub remove_handler_by_event_lem :
    {S : Type 0} (h : Heap S) (m : NetHandlerMgr) (fd net : ℕ)
    → Inv h m
    → find fd m.handler_pool ≡ some net
    → (h' : Heap S) × (m' : NetHandlerMgr) × (remove_handler_by_event (some fd) h m
        ≡ done (success, h', m'))
      × Inv h' m'
      × (h'.nets net ≡ none)
      × (find fd m'.handler_pool ≡ none)
      × ((fd' : ℕ) → fd' ≢ fd → find fd' m'.handler_pool ≡ find fd' m.handler_pool)
      × ((b : ℕ) → b ≢ net → h'.nets b ≡ h.nets b)
unfolding remove_handler_by_event
remove_handler_by_event_lem h m fd net inv f =
    let (n, a, s, l) = inv.live fd net f in
    let (h', run, r) = release_lem net h n a l in
    let (c, run2, on) = step_off_lem h m inv fd net m.it_cursor f inv.cursor in
    (
      h',
      record { handler_pool = erase fd m.handler_pool; it_cursor = c },
      rw (remove_handler_by_event, f, run, run2),
      erase-Inv h m inv fd net n h' c f a r on,
      r.gone,
      find-erase_same fd m.handler_pool inv.distinct,
      λ fd' ne. find-erase_other fd fd' m.handler_pool ne,
      r.other_nets,
    )
