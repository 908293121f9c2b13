-- ===== src/Listeners/Handler/Promise.antt =====
-- What a listener handler promises: the listeners of all senders and those of each sender, in
-- order of registration, and what a message does with them.
use hnu_middleware.Base.{ℕ, Option, List, [], ◌∷◌, ◌++◌, update}
use hnu_middleware.Listeners.Signal.{Heap}
use hnu_middleware.Listeners.Signal.Laws.{Entry, call_entries, remove}
use hnu_middleware.Listeners.Handler
use hnu_middleware.Listeners.Handler.{Handler, new_handler}
use hnu_middleware.Listeners.Handler.Channel.{Unused}

-- The operations of the class, with the hash value of the sender for `Run`.
pub data Op (A W : Type 0) : Type 0 where
  connect_all : (self_id : ℕ) → (listener : Option (A → W → W)) → Op A W
  connect_one : (self_id oppo_id : ℕ) → (listener : Option (A → W → W)) → Op A W
  leave_all : (self_id : ℕ) → Op A W
  leave_one : (self_id oppo_id : ℕ) → Op A W
  message : (oppo_id : ℕ) → (args : A) → Op A W

pub record State (A W : Type 0) : Type 0 where
  pub handler : Handler
  pub heap : Heap A W
  pub world : W

pub record Promise (A W : Type 0) : Type 0 where
  pub of_all : List (Entry A W)
  pub of_sender : ℕ → List (Entry A W)
  pub world : W

module _ {A W : Type 0} where
  abbrev pub store : Handler × Heap A W → W → State A W
  store r w = record { handler = r.0; heap = r.1; world = w }

  -- One operation of the handler
  unfoldable pub step : Op A W → State A W → State A W
  step (connect_all self_id listener) st =
      store (Handler.connect self_id listener st.handler st.heap) st.world
  step (connect_one self_id oppo_id listener) st =
      store (Handler.connect_to self_id oppo_id listener st.handler st.heap) st.world
  step (leave_all self_id) st = store (Handler.disconnect self_id st.handler st.heap) st.world
  step (leave_one self_id oppo_id) st =
      store (Handler.disconnect_from self_id oppo_id st.handler st.heap) st.world
  step (message oppo_id args) st =
      let (h, w) = Handler.run oppo_id args st.handler st.heap st.world in store (st.handler, h) w

  -- The same operation as it is promised
  unfoldable pub promised : Op A W → Promise A W → Promise A W
  unfolding remove call_entries
  promised (connect_all self_id listener) l = record l {
    of_all = l.of_all ++ record { id = self_id; listener = listener } ∷ [];
  }
  promised (connect_one self_id oppo_id listener) l = record l {
    of_sender =
        update l.of_sender oppo_id
          (l.of_sender oppo_id ++ record { id = self_id; listener = listener } ∷ []);
  }
  promised (leave_all self_id) l = record l { of_all = remove self_id l.of_all }
  promised (leave_one self_id oppo_id) l = record l {
    of_sender = update l.of_sender oppo_id (remove self_id (l.of_sender oppo_id));
  }
  promised (message oppo_id args) l = record l {
    world = call_entries (l.of_sender oppo_id) args (call_entries l.of_all args l.world);
  }

  -- An id is registered again only after it has left.
  abbrev pub Fresh : Op A W → Promise A W → Type 0
  Fresh (connect_all self_id listener) l = Unused self_id l.of_all
  Fresh (connect_one self_id oppo_id listener) l = Unused self_id (l.of_sender oppo_id)
  Fresh (leave_all self_id) l = Unit
  Fresh (leave_one self_id oppo_id) l = Unit
  Fresh (message oppo_id args) l = Unit

  unfoldable pub steps : List (Op A W) → State A W → State A W
  steps [] st = st
  steps (op ∷ ops) st = steps ops (step op st)

  unfoldable pub promised_all : List (Op A W) → Promise A W → Promise A W
  promised_all [] l = l
  promised_all (op ∷ ops) l = promised_all ops (promised op l)

  abbrev pub AllFresh : List (Op A W) → Promise A W → Type 0
  AllFresh [] l = Unit
  AllFresh (op ∷ ops) l = Fresh op l × AllFresh ops (promised op l)

  -- A handler on an empty heap, and the promise of no listeners
  unfoldable pub start : Heap A W → W → State A W
  start h w = let (h', hd) = new_handler h in store (hd, h') w

  unfoldable pub no_listeners : W → Promise A W
  no_listeners w = record { of_all = []; of_sender = λ oppo_id. []; world = w }
