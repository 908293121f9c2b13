-- ===== src/Listeners/Handler/Refine.antt =====
-- The listener handler against its promise, over any run of its operations.
use hnu_middleware.Base.{◌≡◌, refl, ap, ◌∙◌, List, [], ◌∷◌, inl, arith}
use hnu_middleware.Listeners.Signal.{Heap, new_signal}
use hnu_middleware.Listeners.Handler.{conns_of, new_handler}
use hnu_middleware.Listeners.Handler.Channel.{Owners, new_signal-Channel}
use hnu_middleware.Listeners.Handler.Rep.{Rep}
use hnu_middleware.Listeners.Handler.All.{connect_all-Rep, leave_all-Rep, message-Rep}
use hnu_middleware.Listeners.Handler.Join.{connect_one-Rep}
use hnu_middleware.Listeners.Handler.Leave.{leave_one-Rep}
use hnu_middleware.Listeners.Handler.Promise.{
  Op, connect_all, connect_one, leave_all, leave_one, message, State, Promise, step, promised,
  Fresh, steps, promised_all, AllFresh, start, no_listeners,
}

module _ {A W : Type 0} where
  -- The handler stands for the lists of the promise, and both have done the same to the world.
  abbrev pub Stands : State A W → Promise A W → Type 0
  Stands st l = Rep st.handler st.heap l.of_all l.of_sender × (st.world ≡ l.world)

  pub step-Stands :
      (op : Op A W) (st : State A W) (l : Promise A W)
      → Fresh op l
      → Stands st l
      → Stands (step op st) (promised op l)
  unfolding step promised
  step-Stands (connect_all id cb) st l free (rep, same) =
      (connect_all-Rep st.handler st.heap l.of_all l.of_sender rep id cb free, same)
  step-Stands (connect_one id o cb) st l free (rep, same) =
      (connect_one-Rep st.handler st.heap l.of_all l.of_sender id o cb rep free, same)
  step-Stands (leave_all id) st l free (rep, same) =
      (leave_all-Rep st.handler st.heap l.of_all l.of_sender rep id, same)
  step-Stands (leave_one id o) st l free (rep, same) =
      (leave_one-Rep st.handler st.heap l.of_all l.of_sender rep id o, same)
  step-Stands (message o a) st l free (rep, same) =
      let (rep', said) = message-Rep st.handler st.heap l.of_all l.of_sender o a st.world rep in
      (rep', said ∙ ap (λ w. (promised (message o a) (record l { world = w })).world) same)

  steps-Stands :
      (ops : List (Op A W)) (st : State A W) (l : Promise A W)
      → AllFresh ops l
      → Stands st l
      → Stands (steps ops st) (promised_all ops l)
  unfolding steps promised_all
  steps-Stands [] st l free s = s
  steps-Stands (op ∷ ops) st l free s =
      steps-Stands ops (step op st) (promised op l) free.1 (step-Stands op st l free.0 s)

  -- A new handler stands for no listeners.
  pub new_handler-Rep : (h : Heap A W) → Rep (new_handler h).1 (new_handler h).0 [] (λ o. [])
  unfolding new_handler new_signal conns_of
  new_handler-Rep h =
      let g : Owners = record { id_of = λ p. 0; signal_of = λ p. 0 } in
      record {
        owners = g;
        below = omega arith;
        all = new_signal-Channel g h;
        senders = λ o. inl (refl, refl, refl);
        distinct = λ o o' s at at'. cc;
      }

  start-Stands : (h : Heap A W) (w : W) → Stands (start h w) (no_listeners w)
  unfolding start no_listeners
  start-Stands h w = (new_handler-Rep h, refl)

  -- Over any run of connects, disconnects and messages from a new handler, the listeners are called
  -- exactly as the promise says: a message goes to the listeners of all senders and then to those of
  -- its sender, in order of registration, once each, and to nobody who has left. The condition is that
  -- an id is not connected twice without having left between.
  pub steps-refines :
      (ops : List (Op A W)) (h : Heap A W) (w : W)
      → AllFresh ops (no_listeners w)
      → (steps ops (start h w)).world ≡ (promised_all ops (no_listeners w)).world
  steps-refines ops h w free =
      (steps-Stands ops (start h w) (no_listeners w) free (start-Stands h w)).1
