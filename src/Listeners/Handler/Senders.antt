-- ===== src/Listeners/Handler/Senders.antt =====
-- The signals of single senders, by sender.
use hnu_middleware.Base.{
  ℕ, ◌<◌, ◌≡◌, ◌≢◌, sym, ◌∙◌, subst, Option, some, List, update, update_self, update-other,
  ℕ_discrete, inl, inr,
}
use mathlib.Core.Option.{some-injective, none-ne-some}
use hnu_middleware.Listeners.Signal.{Heap}
use hnu_middleware.Listeners.Signal.Laws.{Entry}
use hnu_middleware.Listeners.Handler.{Handler, ConnectionMap, conns_of}
use hnu_middleware.Listeners.Handler.Channel.{Owners, Channel}
use hnu_middleware.Listeners.Handler.Rep.{Rep, Sender}

module _ {A W : Type 0} where
  -- Two families that agree with others but at one sender
  pub Senders-update :
      (g : Owners) (h : Heap A W) (base : ℕ) (sigs : ℕ → Option ℕ) (maps : ℕ → Option ConnectionMap)
      (frs : ℕ → List (Entry A W)) (o : ℕ) (conns : ConnectionMap) (es : List (Entry A W))
      → Sender g h base (sigs o) conns es
      → ((j : ℕ) → o ≢ j → Sender g h base (sigs j) (conns_of (maps j)) (frs j))
      → (j : ℕ)
      → Sender g h base (sigs j) (conns_of (update maps o (some conns) j)) (update frs o es j)
  unfolding conns_of
  Senders-update g h base sigs maps frs o conns es at others j = elim (ℕ_discrete o j) [
    | yes same ↦
        subst
          (λ k.
            Sender g h base (sigs k) (conns_of (update maps o (some conns) k)) (update frs o es k))
          same
          (subst (λ m. Sender g h base (sigs o) (conns_of m) (update frs o es o))
            (sym (update_self maps o (some conns)))
            (subst (λ l. Sender g h base (sigs o) conns l) (sym (update_self frs o es)) at))
    | no other ↦
        subst (λ m. Sender g h base (sigs j) (conns_of m) (update frs o es j))
          (sym (update-other maps o j (some conns) other))
          (subst (λ l. Sender g h base (sigs j) (conns_of (maps j)) l)
            (sym (update-other frs o j es other)) (others j other))
  ]

  module _ (hd : Handler) (h : Heap A W) (als : List (Entry A W)) (frs : ℕ → List (Entry A W))
      (rep : Rep hd h als frs) where
    open rep use {owners, below, all, senders, distinct}

    pub signal-held :
        (o s : ℕ)
        → hd.signals o ≡ some s
        → (s < h.next)
          × (hd.signal ≢ s)
          × Channel owners h s (conns_of (hd.signals_conns o)) (frs o)
    signal-held o s e = elim (senders o) [
      | inl (absent, _, _) ↦ absurd (none-ne-some s (sym absent ∙ e))
      | inr (s', at, lt, ne, ch) ↦
          subst
            (λ x.
              (x < h.next)
              × (hd.signal ≢ x)
              × Channel owners h x (conns_of (hd.signals_conns o)) (frs o))
            (some-injective s' s (sym at ∙ e)) (lt, ne, ch)
    ]
