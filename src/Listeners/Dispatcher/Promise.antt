-- ===== src/Listeners/Dispatcher/Promise.antt =====
-- What a dispatcher promises: the listeners of each channel, and what its requests do with them.
use hnu_middleware.Base.{
  ℕ, Bool, true, false, Option, none, some, List, [], ◌∷◌, ◌++◌, update, ◌==◌, if◌then◌else◌, ◌>>=◌,
}
use hnu_middleware.Transport.Attributes.{RoleAttributes}
use hnu_middleware.Listeners.Signal.{Heap}
use hnu_middleware.Listeners.Signal.Laws.{Entry, call_entries, remove}
use hnu_middleware.Listeners.Handler.Channel.{Unused}
use hnu_middleware.Listeners.Dispatcher.{
  Dispatcher, add_listener, add_listener_to, remove_listener, remove_listener_from, on_message,
  shutdown,
}

-- The listeners of one channel, all of one message type
pub record Group (A W : Type 0) : Type 0 where
  pub message_type : ℕ
  pub of_all : List (Entry A W)
  pub of_sender : ℕ → List (Entry A W)

-- Whether the dispatcher is shut down, and the listeners of each channel
pub record Listeners (A W : Type 0) : Type 0 where
  pub closed : Bool
  pub groups : ℕ → Option (Group A W)

module _ {A W : Type 0} where
  abbrev pub add_all : ℕ → Option (A → W → W) → Group A W → Group A W
  add_all id listener gr = record gr {
    of_all = gr.of_all ++ record { id = id; listener = listener } ∷ [];
  }

  abbrev pub add_one : ℕ → ℕ → Option (A → W → W) → Group A W → Group A W
  add_one id oppo_id listener gr = record gr {
    of_sender =
        update gr.of_sender oppo_id
          (gr.of_sender oppo_id ++ record { id = id; listener = listener } ∷ []);
  }

  abbrev pub drop_all : ℕ → Group A W → Group A W
  drop_all id gr = record gr { of_all = remove id gr.of_all }

  abbrev pub drop_one : ℕ → ℕ → Group A W → Group A W
  drop_one id oppo_id gr = record gr {
    of_sender = update gr.of_sender oppo_id (remove id (gr.of_sender oppo_id));
  }

  abbrev pub nobody : ℕ → Group A W
  nobody message_type = record {
    message_type = message_type;
    of_all = [];
    of_sender = λ oppo_id. [];
  }

  abbrev pub group_of : ℕ → Option (Group A W) → Group A W
  group_of message_type none = nobody message_type
  group_of message_type (some gr) = gr

  -- What a channel's listeners become; another message type changes nothing.
  abbrev pub grown : ℕ → (Group A W → Group A W) → Option (Group A W) → Option (Group A W)
  grown message_type grow none = some (grow (nobody message_type))
  grown message_type grow (some gr) =
      if gr.message_type == message_type then some (grow gr) else some gr

  abbrev pub shrunk : (Group A W → Group A W) → Option (Group A W) → Option (Group A W)
  shrunk drop none = none
  shrunk drop (some gr) = some (drop gr)

-- The requests to a dispatcher; a message has the channel and the hash of its sender.
pub data Request (A W : Type 0) : Type 0 where
  add_for : (message_type : ℕ) → RoleAttributes → Option (A → W → W) → Request A W
  add_pair : (message_type : ℕ) → RoleAttributes → RoleAttributes → Option (A → W → W) → Request A W
  remove_for : RoleAttributes → Request A W
  remove_pair : RoleAttributes → RoleAttributes → Request A W
  close : Request A W
  message : (channel_id oppo_id : ℕ) → A → Request A W

module _ {A W : Type 0} (table_size readable_block : ℕ) (fresh : Heap A W) where
  -- One request to the dispatcher; `none` is the call through a null pointer.
  unfoldable pub serve : Request A W → Dispatcher A W × W → Option (Dispatcher A W × W)
  serve (add_for t self_attr listener) (d, w) =
      some (add_listener table_size t self_attr listener fresh d, w)
  serve (add_pair t self_attr opposite_attr listener) (d, w) =
      some (add_listener_to table_size t self_attr opposite_attr listener fresh d, w)
  serve (remove_for self_attr) (d, w) = some (remove_listener table_size self_attr d, w)
  serve (remove_pair self_attr opposite_attr) (d, w) =
      some (remove_listener_from table_size self_attr opposite_attr d, w)
  serve close (d, w) = some (shutdown table_size d, w)
  serve (message channel_id oppo_id args) (d, w) =
      on_message table_size readable_block channel_id oppo_id args d w

  -- Requests one after the other, for as long as there is a dispatcher
  unfoldable pub serve_all :
      List (Request A W) → Option (Dispatcher A W × W) → Option (Dispatcher A W × W)
  serve_all [] st = st
  serve_all (r ∷ rs) st = serve_all rs (st >>= serve r)

module _ {A W : Type 0} where
  -- A change of one channel's listeners, until the dispatcher is shut down
  abbrev pub change : ℕ → (Option (Group A W) → Option (Group A W)) → Listeners A W → Listeners A W
  change c f l = if l.closed then l else record l { groups = update l.groups c (f (l.groups c)) }

module _ {A W : Type 0} (readable_block : ℕ) where
  -- A message to the listeners of a channel, which must be those of the type that is sent
  unfoldable pub told : ℕ → A → Option (Group A W) → W → Option W
  unfolding call_entries
  told oppo_id args none w = some w
  told oppo_id args (some gr) w =
      if gr.message_type == readable_block
      then some (call_entries (gr.of_sender oppo_id) args (call_entries gr.of_all args w))
      else none

  -- The same request as it is promised
  unfoldable pub promised : Request A W → Listeners A W × W → Option (Listeners A W × W)
  unfolding remove told
  promised (add_for t self_attr listener) (l, w) =
      some (change self_attr.channel_id (grown t (add_all self_attr.id listener)) l, w)
  promised (add_pair t self_attr opposite_attr listener) (l, w) =
      some (
        change self_attr.channel_id (grown t (add_one self_attr.id opposite_attr.id listener)) l,
        w,
      )
  promised (remove_for self_attr) (l, w) =
      some (change self_attr.channel_id (shrunk (drop_all self_attr.id)) l, w)
  promised (remove_pair self_attr opposite_attr) (l, w) =
      some (change self_attr.channel_id (shrunk (drop_one self_attr.id opposite_attr.id)) l, w)
  promised close (l, w) = some (record l { closed = true }, w)
  promised (message channel_id oppo_id args) (l, w) =
      if l.closed
      then some (l, w)
      else do w' ← told oppo_id args (l.groups channel_id) w; some (l, w')

  unfoldable pub promised_all :
      List (Request A W) → Option (Listeners A W × W) → Option (Listeners A W × W)
  promised_all [] st = st
  promised_all (r ∷ rs) st = promised_all rs (st >>= promised r)

  -- An id is added to a channel again only after it is removed.
  abbrev pub FreshIn : Request A W → Listeners A W → Type 0
  FreshIn (add_for t self_attr listener) l =
      Unused self_attr.id (group_of t (l.groups self_attr.channel_id)).of_all
  FreshIn (add_pair t self_attr opposite_attr listener) l =
      Unused self_attr.id ((group_of t (l.groups self_attr.channel_id)).of_sender opposite_attr.id)
  FreshIn (remove_for self_attr) l = Unit
  FreshIn (remove_pair self_attr opposite_attr) l = Unit
  FreshIn close l = Unit
  FreshIn (message channel_id oppo_id args) l = Unit

  abbrev pub FreshAt : Request A W → Option (Listeners A W × W) → Type 0
  FreshAt r none = Unit
  FreshAt r (some st) = FreshIn r st.0

  abbrev pub AllFreshIn : List (Request A W) → Option (Listeners A W × W) → Type 0
  AllFreshIn [] st = Unit
  AllFreshIn (r ∷ rs) st = FreshAt r st × AllFreshIn rs (st >>= promised r)

unfoldable pub no_groups : {A W : Type 0} → Listeners A W
no_groups = record { closed = false; groups = λ c. none }

-- The world that is left, where one is
abbrev pub world_of : {S W : Type 0} → Option (S × W) → Option W
world_of none = none
world_of (some st) = some st.1
