-- ===== src/Shm/Multicast/Closing.antt =====
-- The sockets that a `MulticastNotifier` leaves open, and what it hears.
use hnu_middleware.Base.{
  ℕ, ◌≡◌, sym, ap, ◌∙◌, Bool, true, false, List, [], append-nil, Option, none, some, if◌then◌else◌,
  update, arith,
}
use hnu_middleware.Serialize.Bytes.{ByteOrder}
use hnu_middleware.Shm.Readable.{
  ReadableInfo, IsReadable, serialize_to, deserialize_from, deserialize-serialize_readable,
}
use hnu_middleware.Shm.Multicast.{ready, Sockets, Documented, Multicast, received, polled, listen}

-- The descriptors with one marked as open or as closed, if there is one
abbrev marked : Option ℕ → Bool → (ℕ → Bool) → ℕ → Bool
marked none b f = f
marked (some fd) b f = update f fd b

abbrev IsNew : Option ℕ → (ℕ → Bool) → Type 0
IsNew none f = Unit {0}
IsNew (some fd) f = f fd ≡ false

module _ {W : Type 0} (os : Sockets W) (d : Documented os) where
  -- What a call that began with some open descriptors leaves open: those, and the notifier's
  record Kept (base : ℕ → Bool) (m : Multicast) (w : W) : Type 0 where
    running : m.is_shutdown ≡ false
    new_notify : IsNew m.notify_fd base
    new_listen : IsNew m.listen_fd (marked m.notify_fd true base)
    opened : d.is_open w ≡ marked m.listen_fd true (marked m.notify_fd true base)

module _ {W : Type 0} (os : Sockets W) where
  -- `Listen` of a notifier that runs gives the info whose bytes a datagram has, if there is one in time.
  pub listen-serialize :
      (host : ByteOrder) (timeout_ms : ℕ) (m : Multicast) (info old : ReadableInfo) (w : W)
      → m.is_shutdown ≡ false
      → (os.poll m.listen_fd timeout_ms w).0 ≡ ready
      → (os.recvfrom m.listen_fd 32 (os.poll m.listen_fd timeout_ms w).1).0
        ≡ some (serialize_to host info)
      → IsReadable host info
      → ((listen os host timeout_ms m old w).0 ≡ true)
        × ((listen os host timeout_ms m old w).1 ≡ info)
  unfolding listen polled received
  listen-serialize host timeout_ms m info old w running there heard fit =
      let w1 = (os.poll m.listen_fd timeout_ms w).1 in
      let w2 = (os.recvfrom m.listen_fd 32 w1).1 in
      let got = (deserialize-serialize_readable host info old [] [] fit (omega arith)).0 in
      let steps : listen os host timeout_ms m old w ≡ (true, info, w2) =
        ap
          (λ b.
            if b
            then (false, old, w)
            else polled os host (os.poll m.listen_fd timeout_ms w).0 m old w1)
          running
        ∙ ap (λ p. polled os host p m old w1) there
        ∙ ap (λ o. ((received os host o old).0, (received os host o old).1, w2)) heard
        ∙ ap
            (λ (bytes : List ℕ).
              ((deserialize_from host bytes old).0, (deserialize_from host bytes old).1, w2))
            (sym (append-nil (serialize_to host info)))
        ∙ ap (λ (r : Bool × ReadableInfo). (r.0, r.1, w2)) got in
      (ap (λ r. r.0) steps, ap (λ r. r.1) steps)
