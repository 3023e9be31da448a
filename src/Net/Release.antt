-- ===== src/Net/Release.antt =====
-- What `DestroyUserContext`, `CleanUp` and `delete` leave of a connection.
use rapidapp.Base.{ℕ, ◌≡◌, ◌≢◌, refl, sym, ap, subst, Option, none, some, ==_refl, arith}
use rapidapp.Base.Run.{done}
use rapidapp.Net.{
  EasyNet, Heap, store, destroy_user_context, clean_up, delete, release, free_context,
}

pub store_at : {A : Type 0} (a : ℕ) (v : Option A) (f : ℕ → Option A) → store a v f a ≡ v
store_at a v f = rw (==_refl a) refl

pub store_other :
    {A : Type 0} (a b : ℕ) (v : Option A) (f : ℕ → Option A) → b ≢ a → store a v f b ≡ f b
store_other a b v f h = ground arith

-- The user context of a connection is there, if it has one.
abbrev pub ContextLive : {S : Type 0} → Option ℕ → Heap S → Type 0
ContextLive none h = Unit
ContextLive {S} (some c) h = (x : S) × (h.contexts c ≡ some x)

-- Nothing but the connection and its context goes.
pub record Released {S : Type 0} (net : ℕ) (u : Option ℕ) (h h' : Heap S) : Type 0 where
  pub gone : h'.nets net ≡ none
  pub other_nets : (b : ℕ) → b ≢ net → h'.nets b ≡ h.nets b
  pub context_gone : (c : ℕ) → u ≡ some c → h'.contexts c ≡ none
  pub other_contexts : (c : ℕ) → u ≢ some c → h'.contexts c ≡ h.contexts c

some_inj : (c d : ℕ) → some c ≡ some d → c ≡ d
some_inj c d q = cc

-- The connection's own cell, as the three calls write it.
after_release : ℕ → EasyNet → (ℕ → Option EasyNet) → ℕ → Option EasyNet
after_release net n f = store net none (
    store net (some (record n { user_context = none; hevent = none }))
      (store net (some (record n { user_context = none })) f))

after_release_other :
    (net : ℕ) (n : EasyNet) (f : ℕ → Option EasyNet) (b : ℕ)
    → b ≢ net
    → after_release net n f b ≡ f b
unfolding after_release
after_release_other net n f b h = ground arith

pub release_lem :
    {S : Type 0} (net : ℕ) (h : Heap S) (n : EasyNet)
    → h.nets net ≡ some n
    → ContextLive n.user_context h
    → (h' : Heap S) × (release net h ≡ done h') × Released net n.user_context h h'
unfolding release destroy_user_context free_context clean_up delete after_release
release_lem {S} net h n eq live = go n.user_context refl live
  where
    go :
        (u : Option ℕ)
        → n.user_context ≡ u
        → ContextLive u h
        → (h' : Heap S) × (release net h ≡ done h') × Released net u h h'
    go none e l = (
      record h { nets = after_release net n h.nets },
      rw (eq, e, ==_refl net, delete, ==_refl net),
      record {
        gone = store_at net none (
            store net (some (record n { user_context = none; hevent = none }))
              (store net (some (record n { user_context = none })) h.nets));
        other_nets = after_release_other net n h.nets;
        context_gone = λ c q. cc;
        other_contexts = λ c q. refl;
      },
    )
    go (some c) e (x, l) = (
      record { nets = after_release net n h.nets; contexts = store c none h.contexts },
      rw (eq, e, l, ==_refl net, delete, ==_refl net),
      record {
        gone = store_at net none (
            store net (some (record n { user_context = none; hevent = none }))
              (store net (some (record n { user_context = none })) h.nets));
        other_nets = after_release_other net n h.nets;
        context_gone = λ d q.
            subst (λ k. store c none h.contexts k ≡ none) (some_inj c d q)
              (store_at c none h.contexts);
        other_contexts = λ d q. store_other c d none h.contexts (λ r. q (ap some (sym r)));
      },
    )
