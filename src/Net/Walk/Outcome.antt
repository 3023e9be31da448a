-- ===== src/Net/Walk/Outcome.antt =====
-- What a walk leaves on the heap.
use rapidapp.Base.{
  ℕ, ◌≡◌, ◌≢◌, refl, sym, ◌∙◌, ap, Bool, true, false, Option, none, some, List, [], ◌∷◌, ◌==◌,
  arith, inl, inr, ◌⊎◌, Bool-cases,
}
use rapidapp.Net.{EasyNet, Heap, store, find}
use rapidapp.Net.Release.{Released, store_at, store_other}
use rapidapp.Net.Remove.{some_inj}

-- What the decision `act` on one connection, `n` at `net`, leaves of the heap.
pub record Decided {S : Type 0} (act : EasyNet → Bool × EasyNet) (net : ℕ) (n : EasyNet)
    (h h' : Heap S) : Type 0 where
  pub shut :
      (act n).0 ≡ true
      → (h'.nets net ≡ none) × ((c : ℕ) → n.user_context ≡ some c → h'.contexts c ≡ none)
  pub held : (act n).0 ≡ false → h'.nets net ≡ some (act n).1
  pub others : (b : ℕ) → b ≢ net → h'.nets b ≡ h.nets b
  pub no_context : (c : ℕ) → h.contexts c ≡ none → h'.contexts c ≡ none

-- What a walk over the entries `pool` leaves: the connections that are closed are freed, with their
-- contexts, the others are as the decision leaves them, and no other connection is touched.
pub record Visited {S : Type 0} (act : EasyNet → Bool × EasyNet) (pool : List (ℕ × ℕ))
    (h h' : Heap S) : Type 0 where
  pub shut :
      (k net : ℕ) (n : EasyNet)
      → find k pool ≡ some net
      → h.nets net ≡ some n
      → (act n).0 ≡ true
      → (h'.nets net ≡ none) × ((c : ℕ) → n.user_context ≡ some c → h'.contexts c ≡ none)
  pub held :
      (k net : ℕ) (n : EasyNet)
      → find k pool ≡ some net
      → h.nets net ≡ some n
      → (act n).0 ≡ false
      → h'.nets net ≡ some (act n).1
  pub others : (b : ℕ) → ((k : ℕ) → find k pool ≢ some b) → h'.nets b ≡ h.nets b
  pub no_context : (c : ℕ) → h.contexts c ≡ none → h'.contexts c ≡ none

clash : {A : Type 0} {a : A} → none ≡ some a → ⊥
clash e = cc

differ : true ≡ false → ⊥
differ e = cc

equal : (j k : ℕ) → (j == k) ≡ true → j ≡ k
equal j k q = ground arith

pub Visited-nil : {S : Type 0} (act : EasyNet → Bool × EasyNet) (h : Heap S) → Visited act [] h h
unfolding find
Visited-nil act h = record {
  shut = λ k net n f. absurd (clash f);
  held = λ k net n f. absurd (clash f);
  others = λ b no. refl;
  no_context = λ c e. e;
}

-- An entry is the first one, or stands behind it.
entry_cases :
    (j k net b : ℕ) (rest : List (ℕ × ℕ))
    → find j ((k, net) ∷ rest) ≡ some b
    → (b ≡ net) ⊎ (find j rest ≡ some b)
unfolding find
entry_cases j k net b rest f = elim (Bool-cases (k == j)) [
  | inl q ↦ inl (some_inj b net (sym (rw q at f)))
  | inr q ↦ inr (rw q at f)
]

entry_behind :
    (j k net b : ℕ) (rest : List (ℕ × ℕ))
    → find k rest ≡ none
    → find j rest ≡ some b
    → find j ((k, net) ∷ rest) ≡ some b
unfolding find
entry_behind j k net b rest absent f = elim (Bool-cases (k == j)) [
  | inl q ↦ absurd (clash (sym absent ∙ ap (λ i. find i rest) (equal k j q) ∙ f))
  | inr q ↦ rw q f
]

entry_first : (k net : ℕ) (rest : List (ℕ × ℕ)) → find k ((k, net) ∷ rest) ≡ some net
unfolding find
entry_first k net rest = rw (self k) refl
  where
    self : (k : ℕ) → (k == k) ≡ true
    self k = ground arith

pub Visited-cons :
    {S : Type 0} (act : EasyNet → Bool × EasyNet) (k net : ℕ) (n : EasyNet) (rest : List (ℕ × ℕ))
    (h h1 h' : Heap S)
    → find k rest ≡ none
    → h.nets net ≡ some n
    → ((b v : ℕ) → find b rest ≡ some v → v ≢ net)
    → Decided act net n h h1
    → Visited act rest h1 h'
    → Visited act ((k, net) ∷ rest) h h'
Visited-cons act k net n rest h h1 h' absent a other d v = record {
  shut = λ j b n0 f ab cl. elim (entry_cases j k net b rest f) [
    | inl here ↦
        let same : n0 ≡ n = some_inj n0 n (sym ab ∙ ap h.nets here ∙ a) in
        let (gone, freed) = d.shut (ap (λ i. (act i).0) (sym same) ∙ cl) in
        (
          ap h'.nets here ∙ untouched ∙ gone,
          λ c u. v.no_context c (freed c (ap (λ i. i.user_context) (sym same) ∙ u)),
        )
    | inr behind ↦ v.shut j b n0 behind (d.others b (other j b behind) ∙ ab) cl
  ];
  held = λ j b n0 f ab op. elim (entry_cases j k net b rest f) [
    | inl here ↦
        let same : n0 ≡ n = some_inj n0 n (sym ab ∙ ap h.nets here ∙ a) in
        ap h'.nets here
        ∙ untouched
        ∙ d.held (ap (λ i. (act i).0) (sym same) ∙ op)
        ∙ ap (λ i. some (act i).1) (sym same)
    | inr behind ↦ v.held j b n0 behind (d.others b (other j b behind) ∙ ab) op
  ];
  others = λ b no.
      v.others b (λ j f. no j (entry_behind j k net b rest absent f))
      ∙ d.others b (λ e. no k (entry_first k net rest ∙ ap some (sym e)));
  no_context = λ c e. v.no_context c (d.no_context c e);
}
  where
    untouched : h'.nets net ≡ h1.nets net
    untouched = v.others net (λ j f. other j net f refl)

-- A connection that is kept is written over; one that is closed is written over and released.
pub held-Decided :
    {S : Type 0} (act : EasyNet → Bool × EasyNet) (net : ℕ) (n : EasyNet) (h : Heap S)
    → (act n).0 ≡ false
    → Decided act net n h (record h { nets = store net (some (act n).1) h.nets })
held-Decided act net n h op = record {
  shut = λ cl. absurd (differ (sym cl ∙ op));
  held = λ _. store_at net (some (act n).1) h.nets;
  others = λ b ne. store_other net b (some (act n).1) h.nets ne;
  no_context = λ c e. e;
}

pub shut-Decided :
    {S : Type 0} (act : EasyNet → Bool × EasyNet) (net : ℕ) (n : EasyNet) (h h2 : Heap S)
    → (act n).0 ≡ true
    → (act n).1.user_context ≡ n.user_context
    → Released net (act n).1.user_context (record h { nets = store net (some (act n).1) h.nets }) h2
    → Decided act net n h h2
shut-Decided act net n h h2 cl like r = record {
  shut = λ _. (r.gone, λ c u. r.context_gone c (like ∙ u));
  held = λ op. absurd (differ (sym cl ∙ op));
  others = λ b ne. r.other_nets b ne ∙ store_other net b (some (act n).1) h.nets ne;
  no_context = λ c e. stays_none (act n).1.user_context c refl e;
}
  where
    stays_none :
        (u : Option ℕ) (c : ℕ)
        → (act n).1.user_context ≡ u
        → h.contexts c ≡ none
        → h2.contexts c ≡ none
    stays_none none c q e = r.other_contexts c (λ s. clash (sym q ∙ s)) ∙ e
    stays_none (some d) c q e = elim (Bool-cases (d == c)) [
      | inl same ↦ r.context_gone c (q ∙ ap some (equal d c same))
      | inr apart ↦ r.other_contexts c (λ s. unequal d c apart (some_inj d c (sym q ∙ s))) ∙ e
    ]
      where
        unequal : (d c : ℕ) → (d == c) ≡ false → d ≢ c
        unequal d c h e = ground arith
