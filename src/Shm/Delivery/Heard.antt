-- ===== src/Shm/Delivery/Heard.antt =====
-- A block that is read calls the listeners of its channel.
use hnu_middleware.Base.{
  ℕ, ◌≡◌, refl, ap, ap₂, ◌∙◌, false, Option, some, List, [], ◌∷◌, ◌==◌, ==_refl, ◌>>=◌,
}
use hnu_middleware.Serialize.Bytes.{ByteOrder}
use hnu_middleware.Serialize.Codec.{Codec}
use hnu_middleware.Listeners.Signal.Laws.{Entry, call_entries}
use hnu_middleware.Listeners.Signal.{call_cb}
use hnu_middleware.Listeners.Dispatcher.{Dispatcher, on_message}
use hnu_middleware.Listeners.Dispatcher.Promise.{Group, Listeners}
use hnu_middleware.Listeners.Dispatcher.Messages.{Stands, on_message-told}
use hnu_middleware.Shm.Message.{MessageInfo}
use hnu_middleware.Shm.Transfer.{
  BlockData, read_info, read_body, read_message, read_message-parts, received,
}
use hnu_middleware.Shm.Segment.{Segment, Memory}
use hnu_middleware.Shm.Delivery.{Reader}
use hnu_middleware.Shm.Delivery.Thread.{adapter, read_locked}
use hnu_middleware.Shm.Delivery.Read.{Args}

-- A listener of messages, under the id of its reader
pub record Listener (M W : Type 0) : Type 0 where
  pub id : ℕ
  pub call : M → MessageInfo → W → W

-- The call of every listener, in order
abbrev pub heard_by : {M W : Type 0} → List (Listener M W) → M → MessageInfo → W → W
heard_by [] msg info x = x
heard_by (l ∷ ls) msg info x = heard_by ls msg info (l.call msg info x)

module _ (m : Memory) (contents : Segment → ℕ → BlockData) {M W : Type 0} (c : Codec M)
    (host : ByteOrder) (table_size readable_block : ℕ) where
  -- The listeners behind their adapters
  abbrev pub adapted : List (Listener M W) → List (Entry Args (Option W))
  adapted [] = []
  adapted (l ∷ ls) =
      record {
        id = l.id;
        listener = some (adapter m contents c host table_size readable_block l.call);
      }
      ∷ adapted ls

  call_entries-adapted :
      (ls : List (Listener M W)) (rb : BlockData) (msg : M) (info : MessageInfo) (x : W)
      → read_body c host rb ≡ some msg
      → call_entries (adapted ls) (rb, info) (some x) ≡ some (heard_by ls msg info x)
  unfolding call_entries call_cb adapter
  call_entries-adapted [] rb msg info x e = refl
  call_entries-adapted (l ∷ ls) rb msg info x e =
      ap (λ b. call_entries (adapted ls) (rb, info) (b >>= λ v. some (l.call v info x))) e
      ∙ call_entries-adapted ls rb msg info (l.call msg info x) e

  -- What is promised of a channel whose listeners are `als` for all senders and `ones` for the hash 0
  pub record Adapted (l : Listeners Args (Option W)) (channel_id : ℕ)
      (als ones : List (Listener M W)) : Type 0 where
    pub group : Group Args (Option W)
    pub opened : l.closed ≡ false
    pub of_channel : l.groups channel_id ≡ some group
    pub typed : group.message_type ≡ readable_block
    pub to_all : group.of_all ≡ adapted als
    pub to_one : group.of_sender 0 ≡ adapted ones

  read_locked-eq :
      (channel_id index : ℕ) (rb : BlockData) (r : Reader Args (Option W)) (w : Option W)
      (info : MessageInfo) (d : Dispatcher Args (Option W)) (w' : Option W)
      → read_info c host rb ≡ some info
      → on_message table_size readable_block channel_id info.sender_id.hash_value
          (rb, info)
          r.dispatcher
          w
        ≡ some (d, w')
      → read_locked m contents c host table_size readable_block channel_id index rb r w
        ≡ some (record r { dispatcher = d }, w')
  unfolding read_locked
  read_locked-eq channel_id index rb r w info d w' read ran = rw (read, ran) refl

  pub read_locked-heard :
      (channel_id index : ℕ) (rb : BlockData) (msg : M) (info : MessageInfo)
      (r : Reader Args (Option W)) (l : Listeners Args (Option W)) (als ones : List (Listener M W))
      (x : W)
      → read_message c host rb ≡ some (msg, received info)
      → Stands table_size readable_block r.dispatcher l
      → Adapted l channel_id als ones
      → (d : Dispatcher Args (Option W)) × (read_locked m contents c host table_size readable_block
            channel_id index rb r
            (some x)
          ≡ some (
            record r { dispatcher = d },
            some (heard_by ones msg (received info) (heard_by als msg (received info) x)),
          ))
        × Stands table_size readable_block d l
  read_locked-heard channel_id index rb msg info r l als ones x read st ad =
      let (some_info, some_body) = read_message-parts c host rb msg (received info) read in
      let got = received info in
      let (d, e, st') =
        on_message-told table_size readable_block channel_id 0 (rb, got) r.dispatcher l (some x)
          ad.group st ad.opened ad.of_channel
          (ap (λ k. k == readable_block) ad.typed ∙ ==_refl readable_block) in
      let heard : call_entries (ad.group.of_sender 0) (rb, got)
            (call_entries ad.group.of_all (rb, got) (some x))
          ≡ some (heard_by ones msg got (heard_by als msg got x)) =
        ap₂ (λ f g. call_entries f (rb, got) (call_entries g (rb, got) (some x))) ad.to_one
          ad.to_all
        ∙ ap (λ v. call_entries (adapted ones) (rb, got) v)
            (call_entries-adapted als rb msg got x some_body)
        ∙ call_entries-adapted ones rb msg got (heard_by als msg got x) some_body in
      (
        d,
        read_locked-eq channel_id index rb r (some x) got d
            (some (heard_by ones msg got (heard_by als msg got x))) some_info
            (e ∙ ap (λ v. some (d, v)) heard),
        st',
      )
