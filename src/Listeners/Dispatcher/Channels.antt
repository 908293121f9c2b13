-- ===== src/Listeners/Dispatcher/Channels.antt =====
-- The handlers of a dispatcher, channel by channel, and what is promised of them.
use hnu_middleware.Base.{
  ℕ, suc, ◌<◌, ◌≡◌, ◌≢◌, sym, ap, ◌∙◌, subst, Option, none, some, update, update_self, update-other,
  ℕ_discrete, ◌⊎◌, inl, inr, arith,
}
use mathlib.Core.Option.{some-injective, none-ne-some}
use hnu_middleware.HashMap.Table
use hnu_middleware.HashMap.Table.{get-set_same, get-set_other}
use hnu_middleware.Listeners.Handler.Rep.{Rep}
use hnu_middleware.Listeners.Dispatcher.Promise.{Group}
use hnu_middleware.Listeners.Dispatcher.{Object, Dispatcher, lookup}

module _ {A W : Type 0} where
  abbrev pub StandsFor : Object A W → Group A W → Type 0
  StandsFor o gr = (o.message_type ≡ gr.message_type) × Rep o.handler o.heap gr.of_all gr.of_sender

module _ {A W : Type 0} (table_size : ℕ) where
  -- What the dispatcher has for a channel
  abbrev pub Bound : Dispatcher A W → ℕ → Option (Group A W) → Type 0
  Bound d c g =
      ((lookup table_size c d ≡ none) × (g ≡ none))
      ⊎ ((p : ℕ) × (gr : Group A W) × (lookup table_size c d ≡ some p)
          × (g ≡ some gr)
          × (p < d.next)
          × StandsFor (d.objects p) gr)

  pub record Bounds (d : Dispatcher A W) (groups : ℕ → Option (Group A W)) : Type 0 where
    pub bound : (c : ℕ) → Bound d c (groups c)
    pub distinct :
        (c c' p : ℕ) → lookup table_size c d ≡ some p → lookup table_size c' d ≡ some p → c ≡ c'

  abbrev pub put : ℕ → Object A W → Dispatcher A W → Dispatcher A W
  put p o d = record d { objects = update d.objects p o }

  module _ (d : Dispatcher A W) (groups : ℕ → Option (Group A W)) (b : Bounds d groups) where
    -- The handler of a channel may change, with what is promised of it.
    pub put-Bounds :
        (c p : ℕ) (o : Object A W) (gr : Group A W)
        → lookup table_size c d ≡ some p
        → p < d.next
        → StandsFor o gr
        → Bounds (put p o d) (update groups c (some gr))
    put-Bounds c p o gr at lt st = record {
      bound = λ c'. elim (ℕ_discrete c c') [
        | yes same ↦ inr (
          p,
          gr,
          ap (λ x. lookup table_size x d) (sym same) ∙ at,
          ap (update groups c (some gr)) (sym same) ∙ update_self groups c (some gr),
          lt,
          subst (λ x. StandsFor x gr) (sym (update_self d.objects p o)) st,
        )
        | no other ↦
            subst (Bound (put p o d) c') (sym (update-other groups c c' (some gr) other))
              (elim (b.bound c') [
                | inl absent ↦ inl absent
                | inr (q, gr', at', is, lt', st') ↦ inr (
                  q,
                  gr',
                  at',
                  is,
                  lt',
                  subst (λ x. StandsFor x gr')
                      (sym (
                        update-other d.objects p q o
                          (λ same. other (b.distinct c c' p at (at' ∙ ap some (sym same))))))
                      st',
                )
              ])
      ];
      distinct = b.distinct;
    }

    -- A channel without a handler gets one.
    pub make-Bounds :
        (c : ℕ) (o : Object A W) (gr : Group A W)
        → StandsFor o gr
        → Bounds
            (record d {
              objects = update d.objects d.next o;
              msg_listeners = Table.set table_size c d.next d.msg_listeners;
              next = suc d.next;
            })
            (update groups c (some gr))
    make-Bounds c o gr st =
        let table = Table.set table_size c d.next d.msg_listeners in
        let made : Table.get table_size c table ≡ some d.next =
          get-set_same table_size c d.next d.msg_listeners in
        let kept : (x : ℕ) → c ≢ x → Table.get table_size x table ≡ lookup table_size x d =
          λ x ne. get-set_other table_size c d.next d.msg_listeners x ne in
        let below : (x p : ℕ) → lookup table_size x d ≡ some p → p < d.next = λ x p at.
          elim (b.bound x) [
            | inl (absent, _) ↦ absurd (none-ne-some p (sym absent ∙ at))
            | inr (q, gr', at', is, lt, st') ↦
                subst (λ y. y < d.next) (some-injective q p (sym at' ∙ at)) lt
          ] in
        record {
          bound = λ c'. elim (ℕ_discrete c c') [
            | yes same ↦ inr (
              d.next,
              gr,
              ap (λ x. Table.get table_size x table) (sym same) ∙ made,
              ap (update groups c (some gr)) (sym same) ∙ update_self groups c (some gr),
              omega arith,
              subst (λ x. StandsFor x gr) (sym (update_self d.objects d.next o)) st,
            )
            | no other ↦ elim (b.bound c') [
              | inl (absent, nobody) ↦
                  inl (kept c' other ∙ absent, update-other groups c c' (some gr) other ∙ nobody)
              | inr (q, gr', at', is, lt', st') ↦ inr (
                q,
                gr',
                kept c' other ∙ at',
                update-other groups c c' (some gr) other ∙ is,
                omega arith,
                subst (λ x. StandsFor x gr')
                    (sym (update-other d.objects d.next q o (λ same. omega arith))) st',
              )
            ]
          ];
          distinct = λ x y p at at'. elim (ℕ_discrete c x) [
            | yes same ↦ elim (ℕ_discrete c y) [
              | yes same' ↦ sym same ∙ same'
              | no other ↦
                  let lt = below y p (sym (kept y other) ∙ at') in
                  let is : d.next ≡ p =
                    some-injective d.next p
                      (sym made ∙ ap (λ z. Table.get table_size z table) same ∙ at) in
                  absurd (omega arith)
            ]
            | no other ↦ elim (ℕ_discrete c y) [
              | yes same ↦
                  let lt = below x p (sym (kept x other) ∙ at) in
                  let is : d.next ≡ p =
                    some-injective d.next p
                      (sym made ∙ ap (λ z. Table.get table_size z table) same ∙ at') in
                  absurd (omega arith)
              | no other' ↦ b.distinct x y p (sym (kept x other) ∙ at) (sym (kept y other') ∙ at')
            ]
          ];
        }
