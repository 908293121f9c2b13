-- ===== src/Shm/Memory/Xsi/Outcome.antt =====
-- That the result of `XsiSegment::OpenOrCreate` and `OpenOnly` is whether the segment is open.
use hnu_middleware.Base.{
  ℕ, zero, suc, ◌≡◌, ◌⊎◌, refl, sym, subst, Bool, true, false, Option, none, some, if◌then◌else◌,
  Bool-cases, inl, inr,
}
use hnu_middleware.Shm.Memory.Pointers.{Pointer, null, failed, address}
use hnu_middleware.Shm.Memory.System.{
  System, Got, created, refused, einval, eexist, other_error, detach,
}
use hnu_middleware.Shm.Memory.{Sizes, Contents, Members, forget}
use hnu_middleware.Shm.Memory.Xsi.Steps.{turn, create-turn}
use hnu_middleware.Shm.Memory.Xsi.{
  attach_only, get_only, open_only, attach_new, create, open_or_create, remove,
}

-- The result is whether the segment is open, and a segment that is not has kept its configuration.
pub record Told (x : Members) {W : Type 0} (r : Bool × Members × W) : Type 0 where
  pub told : r.0 ≡ r.1.init
  pub kept : (r.0 ≡ true) ⊎ (r.1.conf ≡ x.conf)

module _ {W : Type 0} (os : System W Contents) (sizes : Sizes) (key : ℕ) where
  attach_only-Told :
      (p : Pointer) (x : Members) (w : W) → x.init ≡ false → Told x (attach_only os sizes p x w)
  unfolding attach_only
  attach_only-Told null x w closed = record { told = sym closed; kept = inr refl }
  attach_only-Told failed x w closed = record { told = sym closed; kept = inr refl }
  attach_only-Told (address base) x w closed = record { told = refl; kept = inl refl }

  attach_new-Told :
      (id : ℕ) (p : Pointer) (x : Members) (w : W)
      → x.init ≡ false
      → Told x (attach_new os sizes id p x w)
  unfolding attach_new
  attach_new-Told id null x w closed = record { told = sym closed; kept = inr refl }
  attach_new-Told id failed x w closed = record { told = sym closed; kept = inr refl }
  attach_new-Told id (address base) x w closed = record { told = refl; kept = inl refl }

  get_only-Told :
      (got : Option ℕ) (x : Members) (w : W) → x.init ≡ false → Told x (get_only os sizes got x w)
  unfolding get_only
  get_only-Told none x w closed = record { told = sym closed; kept = inr refl }
  get_only-Told (some id) x w closed = attach_only-Told (os.shmat id w).0 x (os.shmat id w).1 closed

  open_only-Told : (x : Members) (w : W) → Told x (open_only os sizes key x w)
  unfolding open_only
  open_only-Told x w =
      let Goal : Bool → Type 0 =
        λ b. Told x (if b then (true, x, w) else get_only os sizes (os.shmget key w) x w) in
      elim (Bool-cases x.init) [
        | inl opened ↦ subst Goal (sym opened) (record { told = sym opened; kept = inl refl })
        | inr closed ↦ subst Goal (sym closed) (get_only-Told (os.shmget key w) x w closed)
      ]

  turn-Told :
      (tries : ℕ) (x : Members) (w : W) (got : Got)
      → x.init ≡ false
      → ((w' : W) → Told (forget x) (create os sizes key tries (forget x) w'))
      → Told x (turn os sizes key tries x w got)
  unfolding forget
  turn-Told tries x w (created id) closed later =
      attach_new-Told id (os.shmat id w).0 x (os.shmat id w).1 closed
  turn-Told tries x w (refused einval) closed later =
      let again = later (remove os key (detach os x.managed_shm w)).1 in
      record { told = again.told; kept = again.kept }
  turn-Told tries x w (refused eexist) closed later = open_only-Told x w
  turn-Told tries x w (refused other_error) closed later = record {
    told = sym closed;
    kept = inr refl;
  }

  create-Told :
      (tries : ℕ) (x : Members) (w : W) → x.init ≡ false → Told x (create os sizes key tries x w)
  unfolding create forget
  create-Told zero x w closed = record { told = sym closed; kept = inr refl }
  create-Told (suc tries) x w closed =
      let answer = os.shmget_excl key x.conf.managed_shm_size w in
      subst (λ r. Told x r) (sym (create-turn os sizes key tries x w answer.0 refl))
        (turn-Told tries x answer.1 answer.0 closed (λ w'. create-Told tries (forget x) w' closed))

  -- Whatever the system's calls give, the result of `OpenOrCreate` is whether the segment is open after it,
  -- and a segment that it does not open keeps its configuration.
  pub open_or_create-Told : (x : Members) (w : W) → Told x (open_or_create os sizes key x w)
  unfolding open_or_create
  open_or_create-Told x w =
      let Goal : Bool → Type 0 =
        λ b. Told x (if b then (true, x, w) else create os sizes key 2 x w) in
      elim (Bool-cases x.init) [
        | inl opened ↦ subst Goal (sym opened) (record { told = sym opened; kept = inl refl })
        | inr closed ↦ subst Goal (sym closed) (create-Told 2 x w closed)
      ]
