-- ===== src/Listeners/Handler/Calls.antt =====
-- The call of the listeners of one signal.
use hnu_middleware.Base.{
  ℕ, ◌≡◌, sym, ◌∙◌, subst, List, update, update_self, update-other, ℕ_discrete,
}
use hnu_middleware.Listeners.Signal.{Heap, connected_only, clear_disconnected_slots, emit}
use hnu_middleware.Listeners.Signal.Laws.{
  All2, All2-map, Entry, call_entries, Calls, call_all-entries, connected_only_all,
}
use hnu_middleware.Listeners.Handler.{ConnectionMap}
use hnu_middleware.Listeners.Handler.Channel.{Owners, Listed, Channel}

module _ {A W : Type 0} (g : Owners) (h : Heap A W) where
  -- `operator()` calls the listeners in order and leaves every signal its listeners.
  pub emit-call :
      (s : ℕ) (conns : ConnectionMap) (es : List (Entry A W)) (a : A) (w : W)
      → Channel g h s conns es
      → (emit s a h w).1 ≡ call_entries es a w
  unfolding emit
  emit-call s conns es a w ch =
      call_all-entries h.slots (h.signals s) es a w
        (All2-map (Listed g h s conns) (Calls h.slots) (h.signals s) es (λ q e l. l.1) ch.listed)

  pub emit-Channel :
      (s s' : ℕ) (conns conns' : ConnectionMap) (es es' : List (Entry A W)) (a : A) (w : W)
      → Channel g h s conns es
      → Channel g h s' conns' es'
      → Channel g (emit s a h w).0 s' conns' es'
  unfolding emit clear_disconnected_slots
  emit-Channel s s' conns conns' es es' a w ch ch' =
      let same =
        connected_only_all h.slots (h.signals s) es (
          All2-map (Listed g h s conns) (Calls h.slots) (h.signals s) es (λ q e l. l.1)
            ch.listed) in
      let list : h.signals s' ≡ update h.signals s (connected_only h.slots (h.signals s)) s' =
        elim (ℕ_discrete s s') [
          | yes eq ↦
              subst (λ x. h.signals x ≡ update h.signals s (connected_only h.slots (h.signals s)) x)
                eq (sym same ∙ sym (update_self h.signals s (connected_only h.slots (h.signals s))))
          | no ne ↦ sym (update-other h.signals s s' (connected_only h.slots (h.signals s)) ne)
        ] in
      record {
        listed = subst (λ ps. All2 (Listed g h s' conns') ps es') list ch'.listed;
        fits = ch'.fits;
      }
