-- ===== src/Listeners/Dispatcher/Messages.antt =====
-- A message to a dispatcher against what is promised of it.
use hnu_middleware.Base.{
  ℕ, ◌≡◌, refl, sym, ap, ◌∙◌, subst, true, false, Option, none, some, update, inl, inr, ◌==◌,
  if◌then◌else◌, ◌>>=◌, Bool-cases, Option-cases,
}
use mathlib.Core.Path.{subst₂}
use hnu_middleware.Listeners.Signal.Laws.{call_entries}
use hnu_middleware.Listeners.Handler
use hnu_middleware.Listeners.Handler.{Handler, new_handler}
use hnu_middleware.Listeners.Handler.All.{message-Rep}
use hnu_middleware.Listeners.Dispatcher.{Dispatcher, lookup, replace, on_message, run_handler}
use hnu_middleware.Listeners.Dispatcher.Channels.{Bounds, put-Bounds}
use hnu_middleware.Listeners.Dispatcher.Promise.{Group, Listeners}
use hnu_middleware.Listeners.Dispatcher.Promise.{message, change, told, promised}
use hnu_middleware.Listeners.Dispatcher.Grow.{Bounds-ext, update_with}

module _ {A W : Type 0} (table_size readable_block : ℕ) where
  abbrev pub Stands : Dispatcher A W → Listeners A W → Type 0
  Stands d l = (d.is_shutdown ≡ l.closed) × Bounds table_size d l.groups

  -- Both have no dispatcher left, or one that stands for the promise, and the same world.
  abbrev pub Agree : Option (Dispatcher A W × W) → Option (Listeners A W × W) → Type 0
  Agree none none = Unit
  Agree none (some st) = ⊥
  Agree (some st) none = ⊥
  Agree (some (d, w)) (some (l, w')) = Stands d l × (w ≡ w')

  -- A request on the listeners, which a dispatcher that is shut down ignores
  pub guarded-Stands :
      (d d' : Dispatcher A W) (l : Listeners A W) (c : ℕ)
      (f : Option (Group A W) → Option (Group A W))
      → Stands d l
      → d'.is_shutdown ≡ d.is_shutdown
      → Bounds table_size d' (update l.groups c (f (l.groups c)))
      → Stands (if d.is_shutdown then d else d') (change c f l)
  guarded-Stands d d' l c f (same, b) kept b' =
      let l' : Listeners A W = record l { groups = update l.groups c (f (l.groups c)) } in
      elim (Bool-cases l.closed) [
        | inl on ↦
            subst (λ x. Stands (if d.is_shutdown then d else d') (if x then l else l')) (sym on)
              (subst (λ x. Stands (if x then d else d') l) (sym (same ∙ on)) (same, b))
        | inr off ↦
            subst (λ x. Stands (if d.is_shutdown then d else d') (if x then l else l')) (sym off)
              (subst (λ x. Stands (if x then d else d') l') (sym (same ∙ off)) (kept ∙ same, b'))
      ]

  module _ (c o : ℕ) (a : A) (d : Dispatcher A W) (w : W) where
    on_message_shut :
        d.is_shutdown ≡ true → on_message table_size readable_block c o a d w ≡ some (d, w)
    unfolding on_message
    on_message_shut e =
        ap (λ b. if b then some (d, w) else run_handler table_size readable_block c o a d w) e

    on_message_open :
        d.is_shutdown ≡ false
        → on_message table_size readable_block c o a d w
          ≡ run_handler table_size readable_block c o a d w
    unfolding on_message
    on_message_open e =
        ap (λ b. if b then some (d, w) else run_handler table_size readable_block c o a d w) e

    run_handler-none :
        lookup table_size c d ≡ none → run_handler table_size readable_block c o a d w ≡ some (d, w)
    unfolding run_handler
    run_handler-none absent = rw (absent, run_handler) refl

    run_handler-some :
        (p : ℕ)
        → lookup table_size c d ≡ some p
        → run_handler table_size readable_block c o a d w ≡ (
            if (d.objects p).message_type == readable_block
            then some (
              replace table_size p
                  (
                    (d.objects p).handler,
                    (Handler.run o a (d.objects p).handler (d.objects p).heap w).0,
                  )
                  d,
              (Handler.run o a (d.objects p).handler (d.objects p).heap w).1,
            )
            else none)
    unfolding run_handler
    run_handler-some p at = rw (at, run_handler) refl

  module _ (c o : ℕ) (a : A) (l : Listeners A W) (w : W) where
    promised_open :
        (g : Option (Group A W))
        → l.closed ≡ false
        → l.groups c ≡ g
        → promised readable_block (message c o a) (l, w)
          ≡ (told readable_block o a g w >>= λ w'. some (l, w'))
    unfolding promised
    promised_open g e is = rw (e, is) refl

    promised_closed : l.closed ≡ true → promised readable_block (message c o a) (l, w) ≡ some (l, w)
    unfolding promised
    promised_closed e = rw e refl

  -- A message in a dispatcher that is not shut down
  open_message-Agree :
      (c o : ℕ) (a : A) (d : Dispatcher A W) (l : Listeners A W) (w : W)
      → d.is_shutdown ≡ false
      → l.closed ≡ false
      → Bounds table_size d l.groups
      → Agree
          (on_message table_size readable_block c o a d w)
          (promised readable_block (message c o a) (l, w))
  unfolding told
  open_message-Agree c o a d l w off off' b = elim (b.bound c) [
    | inl (absent, empty) ↦
        subst₂ Agree (sym (on_message_open c o a d w off ∙ run_handler-none c o a d w absent))
          (sym (promised_open c o a l w none off' empty)) ((off ∙ sym off', b), refl)
    | inr (p, gr, at, is, lt, (type, rep)) ↦
        let x = d.objects p in
        let (rep', said) = message-Rep x.handler x.heap gr.of_all gr.of_sender o a w rep in
        let ran = Handler.run o a x.handler x.heap w in
        let d' = replace table_size p (x.handler, ran.0) d in
        let kept : Bounds table_size d' l.groups =
          Bounds-ext table_size d' (update l.groups c (some gr)) l.groups
            (update_with l.groups c (some gr) is)
            (put-Bounds table_size d l.groups b c p (record x { heap = ran.0 }) gr at lt
              (type, rep')) in
        let did = on_message_open c o a d w off ∙ run_handler-some c o a d w p at in
        let answer = promised_open c o a l w (some gr) off' is in
        let said_to = call_entries (gr.of_sender o) a (call_entries gr.of_all a w) in
        let typed : (x.message_type == readable_block) ≡ (gr.message_type == readable_block) =
          ap (λ k. k == readable_block) type in
        elim (Bool-cases (gr.message_type == readable_block)) [
          | inl same ↦
              subst₂ Agree
                (sym (did ∙ ap (λ k. if k then some (d', ran.1) else none) (typed ∙ same)))
                (sym (
                  answer
                  ∙ ap (λ k. (if k then some said_to else none) >>= λ w'. some (l, w')) same))
                ((off ∙ sym off', kept), said)
          | inr other ↦
              subst₂ Agree
                (sym (did ∙ ap (λ k. if k then some (d', ran.1) else none) (typed ∙ other)))
                (sym (
                  answer
                  ∙ ap (λ k. (if k then some said_to else none) >>= λ w'. some (l, w')) other))
                tt
        ]
  ]

  pub on_message-Agree :
      (c o : ℕ) (a : A) (d : Dispatcher A W) (l : Listeners A W) (w : W)
      → Stands d l
      → Agree
          (on_message table_size readable_block c o a d w)
          (promised readable_block (message c o a) (l, w))
  on_message-Agree c o a d l w (same, b) = elim (Bool-cases l.closed) [
    | inl on ↦
        subst₂ Agree (sym (on_message_shut c o a d w (same ∙ on)))
          (sym (promised_closed c o a l w on)) ((same, b), refl)
    | inr off ↦ open_message-Agree c o a d l w (same ∙ off) off b
  ]

  -- A message to a channel whose listeners are of the type that is sent calls them all.
  pub on_message-told :
      (c o : ℕ) (a : A) (d : Dispatcher A W) (l : Listeners A W) (w : W) (gr : Group A W)
      → Stands d l
      → l.closed ≡ false
      → l.groups c ≡ some gr
      → (gr.message_type == readable_block) ≡ true
      → (d' : Dispatcher A W) × (on_message table_size readable_block c o a d w
          ≡ some (d', call_entries (gr.of_sender o) a (call_entries gr.of_all a w)))
        × Stands d' l
  unfolding told
  on_message-told c o a d l w gr st off is same =
      let heard = call_entries (gr.of_sender o) a (call_entries gr.of_all a w) in
      let answer : promised readable_block (message c o a) (l, w) ≡ some (l, heard) =
        promised_open c o a l w (some gr) off is
        ∙ ap (λ k. (if k then some heard else none) >>= λ w'. some (l, w')) same in
      let got = on_message table_size readable_block c o a d w in
      let agree : Agree got (some (l, heard)) =
        subst (λ p. Agree got p) answer (on_message-Agree c o a d l w st) in
      elim (Option-cases got) [
        | inl nothing ↦ absurd (subst (λ g. Agree g (some (l, heard))) nothing agree)
        | inr ((d', w'), e) ↦
            let fits : Agree (some (d', w')) (some (l, heard)) =
              subst (λ g. Agree g (some (l, heard))) e agree in
            (d', e ∙ ap (λ v. some (d', v)) fits.1, fits.0)
      ]
