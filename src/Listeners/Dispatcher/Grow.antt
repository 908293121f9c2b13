-- ===== src/Listeners/Dispatcher/Grow.antt =====
-- What `AddListener` and `RemoveListener` do to the listeners of a channel.
use hnu_middleware.Base.{
  ℕ, ◌<◌, ◌≡◌, refl, sym, ap, ◌∙◌, subst, true, false, Option, none, some, update, update_self,
  update-other, ℕ_discrete, inl, inr, ◌==◌, Bool-cases, Option-cases, arith,
}
use hnu_middleware.HashMap.Table.{get-set_same}
use hnu_middleware.Listeners.Signal.{Heap}
use hnu_middleware.Listeners.Handler.{Handler, new_handler}
use hnu_middleware.Listeners.Handler.Rep.{Rep}
use hnu_middleware.Listeners.Handler.Refine.{new_handler-Rep}
use hnu_middleware.Listeners.Dispatcher.{
  Object, Dispatcher, lookup, replace, make_handler, add, drop_from,
}
use hnu_middleware.Listeners.Dispatcher.Channels.{StandsFor, Bound, Bounds, put-Bounds, make-Bounds}
use hnu_middleware.Listeners.Dispatcher.Promise.{Group, nobody, group_of, grown, shrunk}

module _ {A W : Type 0} where
  abbrev pub Keeps :
      (Handler → Heap A W → Handler × Heap A W) → (Group A W → Group A W) → Group A W → Type 0
  Keeps change grow gr =
      (hd : Handler) (h : Heap A W)
      → Rep hd h gr.of_all gr.of_sender
      → Rep (change hd h).0 (change hd h).1 (grow gr).of_all (grow gr).of_sender

  -- `update` with what is there changes nothing.
  pub update_with :
      (groups : ℕ → Option (Group A W)) (c : ℕ) (g : Option (Group A W))
      → groups c ≡ g
      → (x : ℕ) → update groups c g x ≡ groups x
  update_with groups c g e x = elim (ℕ_discrete c x) [
    | yes same ↦ ap (update groups c g) (sym same) ∙ update_self groups c g ∙ sym e ∙ ap groups same
    | no other ↦ update-other groups c x g other
  ]

  update_twice :
      (groups : ℕ → Option (Group A W)) (c x : ℕ) (g g' : Option (Group A W))
      → update (update groups c g) c g' x ≡ update groups c g' x
  update_twice groups c x g g' = elim (ℕ_discrete c x) [
    | yes same ↦
        ap (update (update groups c g) c g') (sym same)
        ∙ update_self (update groups c g) c g'
        ∙ sym (update_self groups c g')
        ∙ ap (update groups c g') same
    | no other ↦
        update-other (update groups c g) c x g' other
        ∙ update-other groups c x g other
        ∙ sym (update-other groups c x g' other)
  ]

module _ {A W : Type 0} (table_size : ℕ) where
  pub Bounds-ext :
      (d : Dispatcher A W) (groups groups' : ℕ → Option (Group A W))
      → ((c : ℕ) → groups c ≡ groups' c)
      → Bounds table_size d groups
      → Bounds table_size d groups'
  Bounds-ext d groups groups' same b = record {
    bound = λ c. subst (Bound table_size d c) (same c) (b.bound c);
    distinct = b.distinct;
  }

  Bounds-same :
      (d : Dispatcher A W) (groups : ℕ → Option (Group A W)) (c : ℕ) (g : Option (Group A W))
      → groups c ≡ g
      → Bounds table_size d groups
      → Bounds table_size d (update groups c g)
  Bounds-same d groups c g e b =
      Bounds-ext d groups (update groups c g) (λ x. sym (update_with groups c g e x)) b

  module _ (d : Dispatcher A W) (c : ℕ) (change : Handler → Heap A W → Handler × Heap A W) where
    drop_none : lookup table_size c d ≡ none → drop_from table_size c change d ≡ d
    drop_none e = rw (e, drop_from) refl

    drop_some :
        (p : ℕ)
        → lookup table_size c d ≡ some p
        → drop_from table_size c change d
          ≡ replace table_size p (change (d.objects p).handler (d.objects p).heap) d
    drop_some p e = rw (e, drop_from) refl

    add-none :
        (t : ℕ) (fresh : Heap A W)
        → lookup table_size c d ≡ none
        → add table_size t c fresh change d
          ≡ replace table_size d.next
              (change
                ((make_handler table_size t c fresh d).objects d.next).handler
                ((make_handler table_size t c fresh d).objects d.next).heap)
              (make_handler table_size t c fresh d)
    add-none t fresh e = rw (e, add) refl

    add_same :
        (t : ℕ) (fresh : Heap A W) (p : ℕ)
        → lookup table_size c d ≡ some p
        → ((d.objects p).message_type == t) ≡ true
        → add table_size t c fresh change d
          ≡ replace table_size p (change (d.objects p).handler (d.objects p).heap) d
    add_same t fresh p e same = rw (e, add, same) refl

    add_other :
        (t : ℕ) (fresh : Heap A W) (p : ℕ)
        → lookup table_size c d ≡ some p
        → ((d.objects p).message_type == t) ≡ false
        → add table_size t c fresh change d ≡ d
    add_other t fresh p e other = rw (e, add, other) refl

  module _ (d : Dispatcher A W) (groups : ℕ → Option (Group A W)) (c : ℕ)
      (change : Handler → Heap A W → Handler × Heap A W) (grow : Group A W → Group A W)
      (typed : (gr : Group A W) → (grow gr).message_type ≡ gr.message_type)
      (b : Bounds table_size d groups) where
    pub replace-Bounds :
        (p : ℕ) (gr : Group A W)
        → Keeps change grow gr
        → lookup table_size c d ≡ some p
        → p < d.next
        → StandsFor (d.objects p) gr
        → Bounds table_size
            (replace table_size p (change (d.objects p).handler (d.objects p).heap) d)
            (update groups c (some (grow gr)))
    replace-Bounds p gr keeps at lt (type, rep) =
        let o = d.objects p in
        let r = change o.handler o.heap in
        put-Bounds table_size d groups b c p (record o { handler = r.0; heap = r.1 }) (grow gr) at
          lt (type ∙ sym (typed gr), keeps o.handler o.heap rep)

    pub drop-Bounds :
        ((gr : Group A W) → Keeps change grow gr)
        → Bounds table_size
            (drop_from table_size c change d)
            (update groups c (shrunk grow (groups c)))
    drop-Bounds keeps = elim (b.bound c) [
      | inl (absent, empty) ↦
          subst (λ x. Bounds table_size x (update groups c (shrunk grow (groups c))))
            (sym (drop_none d c change absent))
            (subst (λ g. Bounds table_size d (update groups c (shrunk grow g))) (sym empty)
              (Bounds-same d groups c none empty b))
      | inr (p, gr, at, is, lt, st) ↦
          subst (λ x. Bounds table_size x (update groups c (shrunk grow (groups c))))
            (sym (drop_some d c change p at))
            (subst
              (λ g.
                Bounds table_size
                  (replace table_size p (change (d.objects p).handler (d.objects p).heap) d)
                  (update groups c (shrunk grow g)))
              (sym is) (replace-Bounds p gr (keeps gr) at lt st))
    ]

  make_handler-Bounds :
      (d : Dispatcher A W) (groups : ℕ → Option (Group A W)) (t c : ℕ) (fresh : Heap A W)
      → Bounds table_size d groups
      → Bounds table_size (make_handler table_size t c fresh d) (update groups c (some (nobody t)))
        × (lookup table_size c (make_handler table_size t c fresh d) ≡ some d.next)
        × StandsFor ((make_handler table_size t c fresh d).objects d.next) (nobody t)
  unfolding make_handler
  make_handler-Bounds d groups t c fresh b =
      let o : Object A W = record {
        message_type = t;
        handler = (new_handler fresh).1;
        heap = (new_handler fresh).0;
      } in
      let st : StandsFor o (nobody t) = (refl, new_handler-Rep fresh) in
      (
        make-Bounds table_size d groups b c o (nobody t) st,
        get-set_same table_size c d.next d.msg_listeners,
        subst (λ x. StandsFor x (nobody t)) (sym (update_self d.objects d.next o)) st,
      )

  make_handler-next :
      (d : Dispatcher A W) (t c : ℕ) (fresh : Heap A W)
      → d.next < (make_handler table_size t c fresh d).next
  unfolding make_handler
  make_handler-next d t c fresh = omega arith

  pub add-Bounds :
      (d : Dispatcher A W) (groups : ℕ → Option (Group A W)) (t c : ℕ) (fresh : Heap A W)
      (change : Handler → Heap A W → Handler × Heap A W) (grow : Group A W → Group A W)
      → ((gr : Group A W) → (grow gr).message_type ≡ gr.message_type)
      → Keeps change grow (group_of t (groups c))
      → Bounds table_size d groups
      → Bounds table_size
          (add table_size t c fresh change d)
          (update groups c (grown t grow (groups c)))
  add-Bounds d groups t c fresh change grow typed keeps b = elim (b.bound c) [
    | inl (absent, empty) ↦
        let (b', at, st) = make_handler-Bounds d groups t c fresh b in
        let d' = make_handler table_size t c fresh d in
        let groups' = update groups c (some (nobody t)) in
        let o = d'.objects d.next in
        let done = replace table_size d.next (change o.handler o.heap) d' in
        let lt : d.next < d'.next = make_handler-next d t c fresh in
        let keeps' : Keeps change grow (nobody t) =
          subst (λ g. Keeps change grow (group_of t g)) empty keeps in
        subst (λ x. Bounds table_size x (update groups c (grown t grow (groups c))))
          (sym (add-none d c change t fresh absent))
          (subst (λ g. Bounds table_size done (update groups c (grown t grow g))) (sym empty)
            (Bounds-ext done (update groups' c (some (grow (nobody t))))
              (update groups c (some (grow (nobody t))))
              (λ x. update_twice groups c x (some (nobody t)) (some (grow (nobody t))))
              (replace-Bounds d' groups' c change grow typed b' d.next (nobody t) keeps' at lt st)))
    | inr (p, gr, at, is, lt, st) ↦
        let keeps' : Keeps change grow gr =
          subst (λ g. Keeps change grow (group_of t g)) is keeps in
        elim (Bool-cases (gr.message_type == t)) [
          | inl same ↦
              let fits : ((d.objects p).message_type == t) ≡ true = ap (λ k. k == t) st.0 ∙ same in
              subst (λ x. Bounds table_size x (update groups c (grown t grow (groups c))))
                (sym (add_same d c change t fresh p at fits))
                (subst
                  (λ g.
                    Bounds table_size
                      (replace table_size p (change (d.objects p).handler (d.objects p).heap) d)
                      (update groups c g))
                  (sym (ap (grown t grow) is ∙ rw same refl))
                  (replace-Bounds d groups c change grow typed b p gr keeps' at lt st))
          | inr other ↦
              let fits : ((d.objects p).message_type == t) ≡ false =
                ap (λ k. k == t) st.0 ∙ other in
              subst (λ x. Bounds table_size x (update groups c (grown t grow (groups c))))
                (sym (add_other d c change t fresh p at fits))
                (Bounds-same d groups c (grown t grow (groups c))
                  (is ∙ sym (ap (grown t grow) is ∙ rw other refl)) b)
        ]
  ]

  -- Neither shuts the dispatcher down.
  pub add-is_shutdown :
      (d : Dispatcher A W) (t c : ℕ) (fresh : Heap A W)
      (change : Handler → Heap A W → Handler × Heap A W)
      → (add table_size t c fresh change d).is_shutdown ≡ d.is_shutdown
  unfolding make_handler
  add-is_shutdown d t c fresh change = elim (Option-cases (lookup table_size c d)) [
    | inl e ↦ ap (λ x. x.is_shutdown) (add-none d c change t fresh e)
    | inr (p, e) ↦ elim (Bool-cases ((d.objects p).message_type == t)) [
      | inl same ↦ ap (λ x. x.is_shutdown) (add_same d c change t fresh p e same)
      | inr other ↦ ap (λ x. x.is_shutdown) (add_other d c change t fresh p e other)
    ]
  ]

  pub drop-is_shutdown :
      (d : Dispatcher A W) (c : ℕ) (change : Handler → Heap A W → Handler × Heap A W)
      → (drop_from table_size c change d).is_shutdown ≡ d.is_shutdown
  drop-is_shutdown d c change = elim (Option-cases (lookup table_size c d)) [
    | inl e ↦ ap (λ x. x.is_shutdown) (drop_none d c change e)
    | inr (p, e) ↦ ap (λ x. x.is_shutdown) (drop_some d c change p e)
  ]
