-- ===== src/Shm/Memory/Indicators/Heard.antt =====
-- What a `ConditionNotifier` hears that is constructed while another one is in use.
use hnu_middleware.Base.{
  ℕ, suc, ◌+◌, ◌*◌, ◌%◌, ◌^◌, ◌<◌, ◌≡◌, refl, sym, ap, subst, ◌∙◌, Bool, true, false, not, List,
  ◌∷◌, Option, none, some, if◌then◌else◌, ◌==◌, leb, ◌>>=◌, map, update, update_self, arith,
}
use hnu_middleware.Shm.Notifier.{Indicator, notify, listen, try_read, claim, put, k_buf_length}
use hnu_middleware.Shm.Memory.Pointers.{Pointer, null, address}
use hnu_middleware.Shm.Memory.System.{System, Documented, refused, eexist}
use hnu_middleware.Shm.Memory.Indicators.{
  Notifier, get_only, attach_only, open_only, create, init, started, new_notifier, indicator_at,
  store_at, notify_with, listen_at, listen_with,
}

module _ {I : Type 0} where
  -- The first turn of the loop of `Listen` after a notification hears it.
  pub try_read-notify :
      (info : I) (ind : Indicator I)
      → ind.next_seq < 2 ^ 64
      → try_read ind.next_seq (notify false info ind).1 ≡ some (info, (ind.next_seq + 1) % 2 ^ 64)
  unfolding try_read notify claim put
  try_read-notify info ind small =
      let s = ind.next_seq in
      let i = s % k_buf_length in
      let moved : ((s + 1) % 2 ^ 64 == s) ≡ false = ground arith in
      let within : leb s s ≡ true = ground arith in
      let numbered : update ind.seqs i s i ≡ s = update_self ind.seqs i s in
      let told : update ind.infos i info i ≡ info = update_self ind.infos i info in
      ap
        (λ (b : Bool).
          if not b
          then (if leb s (update ind.seqs i s i)
              then some (update ind.infos i info i, (update ind.seqs i s i + 1) % 2 ^ 64)
              else none)
          else none)
        moved
      ∙ ap (λ (n : ℕ). if leb s n then some (update ind.infos i info i, (n + 1) % 2 ^ 64) else none)
          numbered
      ∙ ap (λ (b : Bool). if b then some (update ind.infos i info i, (s + 1) % 2 ^ 64) else none)
          within
      ∙ ap (λ x. some (x, (s + 1) % 2 ^ 64)) told

  pub listen-hit :
      (ind : Indicator I) (views : List (Bool × Indicator I)) (timeout next : ℕ) (r : I × ℕ)
      → try_read next ind ≡ some r
      → listen ((false, ind) ∷ views) timeout next ≡ some (some r)
  unfolding listen
  listen-hit ind views timeout next r e = rw (e) refl

-- A notifier as the constructor leaves it, open at an address
abbrev pub notifier_at : ℕ → ℕ → Notifier
notifier_at base seq = record {
  managed_shm = address base;
  indicator = address base;
  next_seq = seq;
  is_shutdown = false;
}

module _ {W I : Type 0} (os : System W (Indicator I)) (d : Documented os) where
  create-existing :
      (unset : I) (key size tries : ℕ) (n : Notifier) (w : W)
      → (os.shmget_excl key size w).0 ≡ refused eexist
      → create os unset key size (suc tries) n w ≡ open_only os key n (os.shmget_excl key size w).1
  unfolding create
  create-existing unset key size tries n w e = rw (e, create) refl

  -- A notifier that finds the memory there, and attaches it, expects the next notification.
  pub new_notifier-opens :
      (unset : I) (key size id base : ℕ) (w : W)
      → (os.shmget_excl key size w).0 ≡ refused eexist
      → os.shmget key (os.shmget_excl key size w).1 ≡ some id
      → (os.shmat id (os.shmget_excl key size w).1).0 ≡ address base
      → let there = (os.shmat id (os.shmget_excl key size w).1).1 in
        new_notifier os unset key size w
        ≡ some (notifier_at base (d.contents id there).next_seq, there)
  unfolding new_notifier init started open_only get_only attach_only indicator_at
  new_notifier-opens unset key size id base w exists found at =
      let w1 = (os.shmget_excl key size w).1 in
      let there = (os.shmat id w1).1 in
      let members : Notifier = record {
        managed_shm = null;
        indicator = null;
        next_seq = 0;
        is_shutdown = false;
      } in
      ap (started os) (
        create-existing unset key size 1 members w exists
        ∙ ap (λ o. get_only os o members w1) found
        ∙ ap (λ p. attach_only os id p members there) at)
      ∙ ap (λ c. some (notifier_at base c.next_seq, there))
          (d.load_lem id base there (d.shmat_address id base w1 at).0)

  notify_with-address :
      (a id : ℕ) (info : I) (n : Notifier) (w : W)
      → n.is_shutdown ≡ false
      → n.indicator ≡ address a
      → d.attached a w ≡ some id
      → notify_with os info n w ≡ some (true, os.store a (notify false info (d.contents id w)).1 w)
  unfolding notify_with indicator_at store_at
  notify_with-address a id info n w running placed at =
      let called : Pointer → Option (Bool × W) = λ p.
        indicator_at os p w >>= λ ind. some (true, store_at os p (notify false info ind).1 w) in
      ap (λ b. if b then some (false, w) else called n.indicator) running
      ∙ ap called placed
      ∙ ap (λ c. some (true, os.store a (notify false info c).1 w)) (d.load_lem id a w at)

  listen_with-address :
      (b id timeout : ℕ) (r : I × ℕ) (n : Notifier) (w : W) (views : List (Bool × W))
      → n.is_shutdown ≡ false
      → n.indicator ≡ address b
      → d.attached b w ≡ some id
      → try_read n.next_seq (d.contents id w) ≡ some r
      → listen_with os ((false, w) ∷ views) timeout n
        ≡ some (some (r.0, record n { next_seq = r.1 }))
  unfolding listen_with listen_at
  listen_with-address b id timeout r n w views running placed at hit =
      let told : Option (Option (I × ℕ)) → Option (Option (I × Notifier)) =
        λ found. found >>= λ heard. some (heard >>= λ r. some (r.0, record n { next_seq = r.1 })) in
      let views' = map (λ (v : Bool × W). (v.0, os.load b v.1)) views in
      ap
        (λ c.
          if c
          then some none
          else told (listen_at os n.indicator ((false, w) ∷ views) (timeout * 1000) n.next_seq))
        running
      ∙ ap (λ p. told (listen_at os p ((false, w) ∷ views) (timeout * 1000) n.next_seq)) placed
      ∙ ap told (
          listen-hit (os.load b w) views' (timeout * 1000) n.next_seq r
            (ap (try_read n.next_seq) (d.load_lem id b w at) ∙ hit))

  -- A notifier that is constructed while the memory exists and gets an address hears the next
  -- notification: another notifier, which runs and has that memory too, notifies an info with success,
  -- and then the first turn of a `Listen` of the new one gives that info, whatever the timeout.
  pub new_notifier-hears :
      (unset info : I) (key size id a b timeout : ℕ) (other : Notifier) (w : W)
      (views : List (Bool × W))
      → (os.shmget_excl key size w).0 ≡ refused eexist
      → os.shmget key (os.shmget_excl key size w).1 ≡ some id
      → (os.shmat id (os.shmget_excl key size w).1).0 ≡ address b
      → other.is_shutdown ≡ false
      → other.indicator ≡ address a
      → d.attached a (os.shmat id (os.shmget_excl key size w).1).1 ≡ some id
      → (d.contents id (os.shmget_excl key size w).1).next_seq < 2 ^ 64
      → (n n' : Notifier) × (w1 w2 : W) × (new_notifier os unset key size w ≡ some (n, w1))
        × (notify_with os info other w1 ≡ some (true, w2))
        × (listen_with os ((false, w2) ∷ views) timeout n ≡ some (some (info, n')))
  new_notifier-hears unset info key size id a b timeout other w views exists found at running placed
        there small =
      let before = (os.shmget_excl key size w).1 in
      let w1 = (os.shmat id before).1 in
      let c = d.contents id w1 in
      let n = notifier_at b c.next_seq in
      let new = (notify false info c).1 in
      let w2 = os.store a new w1 in
      let at2 : d.attached b w2 ≡ some id =
        (d.store_same a b 0 new w1).0 ∙ (d.shmat_address id b before at).0 in
      let few : c.next_seq < 2 ^ 64 =
        subst (λ k. k.next_seq < 2 ^ 64) (sym (d.shmat_same id id 0 before).0) small in
      (
        n,
        record n { next_seq = (c.next_seq + 1) % 2 ^ 64 },
        w1,
        w2,
        new_notifier-opens unset key size id b w exists found at,
        notify_with-address a id info other w1 running placed there,
        listen_with-address b id timeout (info, (c.next_seq + 1) % 2 ^ 64) n w2 views refl refl at2
            (ap (try_read c.next_seq) (d.store_lem id a new w1 there) ∙ try_read-notify info c few),
      )
