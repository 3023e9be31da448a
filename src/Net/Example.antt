-- ===== src/Net/Example.antt =====
-- A table of one connection.
use rapidapp.Base.{
  ℕ, ◌≡◌, refl, sym, ◌∙◌, subst, Bool-cases, true, none, some, [], ◌∷◌, pos, inl, inr, ◌==◌,
  if◌then◌else◌, arith,
}
use rapidapp.Net.{EasyNet, Heap, NetHandlerMgr, at, net_established, find}
use rapidapp.Net.Remove.{Inv, Live}

abbrev net_on : (fd context pkgs : ℕ) → EasyNet
net_on fd context pkgs = record {
  hevent = some fd;
  net_type = pos 0;
  nid = fd;
  state = net_established;
  last_active_timestamp = 100;
  prev_pkg_count = 0;
  curr_pkg_count = pkgs;
  prev_traffic_bytes = 0;
  curr_traffic_bytes = 0;
  user_context = some context;
}

abbrev pub loud : EasyNet
loud = net_on 6 60 99

abbrev pub heap : Heap ℕ
heap = record {
  nets = λ a. if a == 2 then some loud else none;
  contexts = λ c. if c == 60 then some 0 else none;
}

abbrev pub table : NetHandlerMgr
table = record { handler_pool = (6, 2) ∷ []; it_cursor = at 6 }

some_inj : {A : Type 0} (a b : A) → some a ≡ some b → a ≡ b
some_inj a b h = cc

only_entry : (fd net : ℕ) → find fd table.handler_pool ≡ some net → (fd ≡ 6) × (net ≡ 2)
unfolding find
only_entry fd net h = elim (Bool-cases (6 == fd)) [
  | inl q ↦ (equal fd q, some_inj net 2 (sym (rw q at h)))
  | inr q ↦ absurd (clash (rw q at h))
]
  where
    equal : (fd : ℕ) → (6 == fd) ≡ true → fd ≡ 6
    equal fd q = ground arith

    clash : {v : ℕ} → none ≡ some v → ⊥
    clash e = cc

pub table-Inv : Inv heap table
unfolding find
table-Inv = record {
  distinct = (refl, tt);
  live = λ fd net f.
      let (p, q) = only_entry fd net f in
      subst (λ k. Live k net heap) (sym p)
        (subst (λ a. Live 6 a heap) (sym q) (loud, refl, refl, (0, refl)));
  apart = λ fd1 fd2 net1 net2 c n1 n2 f1 f2 a1 a2 u1 u2.
      (only_entry fd1 net1 f1).0 ∙ sym ((only_entry fd2 net2 f2).0);
  cursor = (2, refl);
}
