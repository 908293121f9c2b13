-- ===== src/Listeners/Dispatcher/Refine.antt =====
-- The dispatcher against its promise, over any run of requests.
use hnu_middleware.Base.{
  ℕ, ◌≡◌, refl, sym, ap, ◌∙◌, subst, Option, none, some, List, [], ◌∷◌, inl, ◌>>=◌,
}
use mathlib.Core.Option.{none-ne-some}
use hnu_middleware.HashMap.Table.{get-empty}
use hnu_middleware.Listeners.Signal.{Heap}
use hnu_middleware.Listeners.Handler
use hnu_middleware.Listeners.Handler.{Handler, new_handler}
use hnu_middleware.Listeners.Handler.All.{connect_all-Rep, leave_all-Rep}
use hnu_middleware.Listeners.Handler.Join.{connect_one-Rep}
use hnu_middleware.Listeners.Handler.Leave.{leave_one-Rep}
use hnu_middleware.Listeners.Dispatcher.{
  Object, Dispatcher, add, drop_from, add_listener, add_listener_to, remove_listener,
  remove_listener_from, shutdown, new_dispatcher,
}
use hnu_middleware.Listeners.Dispatcher.Channels.{Bounds}
use hnu_middleware.Listeners.Dispatcher.Promise.{
  Listeners, add_all, add_one, drop_all, drop_one, group_of, grown, shrunk,
}
use hnu_middleware.Listeners.Dispatcher.Promise.{
  Request, add_for, add_pair, remove_for, remove_pair, close, message, serve, serve_all, promised,
  promised_all, FreshIn, FreshAt, AllFreshIn, no_groups, world_of,
}
use hnu_middleware.Listeners.Dispatcher.Grow.{
  add-Bounds, drop-Bounds, add-is_shutdown, drop-is_shutdown,
}
use hnu_middleware.Listeners.Dispatcher.Messages.{Stands, Agree, guarded-Stands, on_message-Agree}

module _ {A W : Type 0} (table_size readable_block : ℕ) (fresh : Heap A W) where
  pub serve-Agree :
      (r : Request A W) (d : Dispatcher A W) (l : Listeners A W) (w : W)
      → FreshIn readable_block r l
      → Stands table_size readable_block d l
      → Agree table_size readable_block
          (serve table_size readable_block fresh r (d, w))
          (promised readable_block r (l, w))
  unfolding serve promised add_listener add_listener_to remove_listener remove_listener_from
      shutdown
  serve-Agree (add_for t self listener) d l w free st =
      let connect = Handler.connect self.id listener in
      let c = self.channel_id in
      let grow = add_all self.id listener in
      (
        guarded-Stands table_size readable_block d (add table_size t c fresh connect d) l c
            (grown t grow) st (add-is_shutdown table_size d t c fresh connect)
            (add-Bounds table_size d l.groups t c fresh connect grow (λ gr. refl)
              (λ hd h rep.
                let gr = group_of t (l.groups c) in
                connect_all-Rep hd h gr.of_all gr.of_sender rep self.id listener free)
              st.1),
        refl,
      )
  serve-Agree (add_pair t self opposite listener) d l w free st =
      let connect = Handler.connect_to self.id opposite.id listener in
      let c = self.channel_id in
      let grow = add_one self.id opposite.id listener in
      (
        guarded-Stands table_size readable_block d (add table_size t c fresh connect d) l c
            (grown t grow) st (add-is_shutdown table_size d t c fresh connect)
            (add-Bounds table_size d l.groups t c fresh connect grow (λ gr. refl)
              (λ hd h rep.
                let gr = group_of t (l.groups c) in
                connect_one-Rep hd h gr.of_all gr.of_sender self.id opposite.id listener rep free)
              st.1),
        refl,
      )
  serve-Agree (remove_for self) d l w free st =
      let leave = Handler.disconnect self.id in
      let c = self.channel_id in
      (
        guarded-Stands table_size readable_block d (drop_from table_size c leave d) l c
            (shrunk (drop_all self.id)) st (drop-is_shutdown table_size d c leave)
            (drop-Bounds table_size d l.groups c leave (drop_all self.id) (λ gr. refl) st.1
              (λ gr hd h rep. leave_all-Rep hd h gr.of_all gr.of_sender rep self.id)),
        refl,
      )
  serve-Agree (remove_pair self opposite) d l w free st =
      let leave = Handler.disconnect_from self.id opposite.id in
      let c = self.channel_id in
      (
        guarded-Stands table_size readable_block d (drop_from table_size c leave d) l c
            (shrunk (drop_one self.id opposite.id)) st (drop-is_shutdown table_size d c leave)
            (drop-Bounds table_size d l.groups c leave (drop_one self.id opposite.id) (λ gr. refl)
              st.1
              (λ gr hd h rep. leave_one-Rep hd h gr.of_all gr.of_sender rep self.id opposite.id)),
        refl,
      )
  serve-Agree close d l w free st =
      ((refl, record { bound = st.1.bound; distinct = st.1.distinct }), refl)
  serve-Agree (message c o a) d l w free st =
      on_message-Agree table_size readable_block c o a d l w st

  step-Agree :
      (r : Request A W) (st : Option (Dispatcher A W × W)) (pr : Option (Listeners A W × W))
      → FreshAt readable_block r pr
      → Agree table_size readable_block st pr
      → Agree table_size readable_block
          (st >>= serve table_size readable_block fresh r)
          (pr >>= promised readable_block r)
  step-Agree r none none free h = tt
  step-Agree r none (some pr) free h = elim h [ ]
  step-Agree r (some st) none free h = elim h [ ]
  step-Agree r (some (d, w)) (some (l, w')) free (st, same) =
      subst
        (λ v.
          Agree table_size readable_block (serve table_size readable_block fresh r (d, w))
            (promised readable_block r (l, v)))
        same (serve-Agree r d l w free st)

  serve_all-Agree :
      (rs : List (Request A W)) (st : Option (Dispatcher A W × W)) (pr : Option (Listeners A W × W))
      → AllFreshIn readable_block rs pr
      → Agree table_size readable_block st pr
      → Agree table_size readable_block
          (serve_all table_size readable_block fresh rs st)
          (promised_all readable_block rs pr)
  unfolding serve_all promised_all
  serve_all-Agree [] st pr free h = h
  serve_all-Agree (r ∷ rs) st pr free h =
      serve_all-Agree rs (st >>= serve table_size readable_block fresh r)
        (pr >>= promised readable_block r) free.1 (step-Agree r st pr free.0 h)

  world-Agree :
      (st : Option (Dispatcher A W × W)) (pr : Option (Listeners A W × W))
      → Agree table_size readable_block st pr
      → world_of st ≡ world_of pr
  world-Agree none none h = refl
  world-Agree none (some pr) h = elim h [ ]
  world-Agree (some st) none h = elim h [ ]
  world-Agree (some (d, w)) (some (l, w')) (st, same) = ap some same

  pub new-Bounds :
      (objects : ℕ → Object A W)
      → Bounds table_size (new_dispatcher table_size objects) no_groups.groups
  unfolding new_dispatcher no_groups
  new-Bounds objects = record {
    bound = λ c. inl (get-empty table_size c, refl);
    distinct = λ c c' p at at'. absurd (none-ne-some p (sym (get-empty table_size c) ∙ at));
  }

  pub new_closed :
      (objects : ℕ → Object A W)
      → (new_dispatcher table_size objects).is_shutdown ≡ (no_groups {A = A} {W = W}).closed
  unfolding new_dispatcher no_groups
  new_closed objects = refl

  -- Over any run of requests to a new dispatcher, the listeners are called exactly as is promised
  -- channel by channel: a message reaches the listeners of its channel and of no other, those of all
  -- senders first and then those of its sender; a listener of another message type than its channel has
  -- is not added; nothing reaches anybody once the dispatcher is shut down; and the run ends at a null
  -- pointer where a message comes to a channel whose listeners are not of the type `ReadableBlock`, and
  -- nowhere else. The condition is that an id is added to a channel again only after it is removed.
  pub serve_all-refines :
      (rs : List (Request A W)) (objects : ℕ → Object A W) (w : W)
      → AllFreshIn readable_block rs (some (no_groups, w))
      → world_of (
          serve_all table_size readable_block fresh rs
            (some (new_dispatcher table_size objects, w)))
        ≡ world_of (promised_all readable_block rs (some (no_groups, w)))
  serve_all-refines rs objects w free =
      let start : Dispatcher A W × W = (new_dispatcher table_size objects, w) in
      let st = serve_all table_size readable_block fresh rs (some start) in
      let pr = promised_all readable_block rs (some (no_groups, w)) in
      world-Agree st pr (
        serve_all-Agree rs (some start) (some (no_groups, w)) free
          ((new_closed objects, new-Bounds objects), refl))
