-- ===== src/Shm/Memory/Xsi/Balance.antt =====
-- How many addresses the calls of `XsiSegment` leave attached, on every branch.
use hnu_middleware.Base.{
  ℕ, zero, suc, ◌+◌, ◌≡◌, refl, sym, ap, subst, ◌∙◌, Bool, false, Option, none, some, if◌then◌else◌,
  Option-cases, inl, inr, arith,
}
use hnu_middleware.Shm.Memory.Pointers.{Pointer, null, failed, address}
use hnu_middleware.Shm.Memory.System.{
  System, Documented, Got, created, refused, einval, eexist, other_error, detach, remove_id,
}
use hnu_middleware.Shm.Memory.{Sizes, Contents, Members, forget}
use hnu_middleware.Shm.Memory.Xsi.Steps.{open_only-closed, open_or_create-closed, turn, create-turn}
use hnu_middleware.Shm.Memory.Xsi.{
  remove, attach_only, get_only, open_only, attach_new, create, open_or_create,
}

-- One address more if the result is true, and none if it is false
abbrev pub attached_by : Bool → ℕ
attached_by b = if b then 1 else 0

abbrev pub Balanced :
    {W : Type 0} {os : System W Contents} → Documented os → W → Bool × Members × W → Type 0
Balanced d w r = d.attachments r.2 ≡ d.attachments w + attached_by r.0

module _ {W : Type 0} (os : System W Contents) (d : Documented os) (sizes : Sizes) where
  remove_lem : (key : ℕ) (w : W) → d.attachments (remove os key w).1 ≡ d.attachments w
  unfolding remove remove_id
  remove_lem key w = elim (Option-cases (os.shmget key w)) [
    | inl e ↦ rw e refl
    | inr (id, e) ↦ rw e (d.rmid_same id w)
  ]

  attach_only-Balance :
      (p : Pointer) (x : Members) (w : W) (id : ℕ)
      → (os.shmat id w).0 ≡ p
      → Balanced d w (attach_only os sizes p x (os.shmat id w).1)
  unfolding attach_only
  attach_only-Balance failed x w id e = ground (arith, d.shmat_failed id w e)
  attach_only-Balance null x w id e = absurd (d.shmat_not_null id w e)
  attach_only-Balance (address base) x w id e =
      ((d.store_same base base 0 _ (os.shmat id w).1).1) ∙ (d.shmat_address id base w e).1

  attach_new-Balance :
      (p : Pointer) (x : Members) (w : W) (id : ℕ)
      → (os.shmat id w).0 ≡ p
      → Balanced d w (attach_new os sizes id p x (os.shmat id w).1)
  unfolding attach_new
  attach_new-Balance failed x w id e =
      d.rmid_same id (os.shmat id w).1 ∙ ground (arith, d.shmat_failed id w e)
  attach_new-Balance null x w id e = absurd (d.shmat_not_null id w e)
  attach_new-Balance (address base) x w id e =
      (d.store_same base base 0 _ _).1
      ∙ (d.store_same base base 0 _ _).1
      ∙ (d.store_same base base 0 _ (os.shmat id w).1).1
      ∙ (d.shmat_address id base w e).1

  get_only-Balance :
      (got : Option ℕ) (x : Members) (w : W) → Balanced d w (get_only os sizes got x w)
  unfolding get_only
  get_only-Balance none x w = omega arith
  get_only-Balance (some id) x w = attach_only-Balance (os.shmat id w).0 x w id refl

  -- `OpenOnly` of a segment that is not open leaves one address more attached if it gives true, and
  -- none more if it gives false.
  pub open_only-balance :
      (key : ℕ) (x : Members) (w : W) → x.init ≡ false → Balanced d w (open_only os sizes key x w)
  open_only-balance key x w closed =
      subst (Balanced d w) (sym (open_only-closed os sizes key x w closed))
        (get_only-Balance (os.shmget key w) x w)

  turn-Balance :
      (tries key : ℕ) (x : Members) (w : W) (got : Got)
      → x.init ≡ false
      → x.managed_shm ≡ null
      → ((w' : W) → Balanced d w' (create os sizes key tries (forget x) w'))
      → Balanced d w (turn os sizes key tries x w got)
  unfolding forget detach
  turn-Balance tries key x w (created id) closed unmapped later =
      attach_new-Balance (os.shmat id w).0 x w id refl
  turn-Balance tries key x w (refused einval) closed unmapped later =
      let cut : detach os x.managed_shm w ≡ w = ap (λ p. detach os p w) unmapped in
      later (remove os key (detach os x.managed_shm w)).1
      ∙ ap
          (λ n.
            n
            + attached_by
                (create os sizes key tries (forget x)
                  (remove os key (detach os x.managed_shm w)).1).0)
          (remove_lem key (detach os x.managed_shm w) ∙ ap d.attachments cut)
  turn-Balance tries key x w (refused eexist) closed unmapped later =
      open_only-balance key x w closed
  turn-Balance tries key x w (refused other_error) closed unmapped later = omega arith

  create-Balance :
      (tries key : ℕ) (x : Members) (w : W)
      → x.init ≡ false
      → x.managed_shm ≡ null
      → Balanced d w (create os sizes key tries x w)
  unfolding create forget
  create-Balance zero key x w closed unmapped = omega arith
  create-Balance (suc tries) key x w closed unmapped =
      let answer = os.shmget_excl key x.conf.managed_shm_size w in
      let turned : Balanced d answer.1 (turn os sizes key tries x answer.1 answer.0) =
        turn-Balance tries key x answer.1 answer.0 closed unmapped
          (λ w'. create-Balance tries key (forget x) w' closed refl) in
      subst (Balanced d w) (sym (create-turn os sizes key tries x w answer.0 refl)) (
        turned
        ∙ ap (λ n. n + attached_by (turn os sizes key tries x answer.1 answer.0).0)
            (d.shmget_same key x.conf.managed_shm_size w))

  -- `OpenOrCreate` of a segment that is neither open nor mapped leaves one address more attached if it
  -- gives true, and none more if it gives false, on every branch and after every failure.
  pub open_or_create-balance :
      (key : ℕ) (x : Members) (w : W)
      → x.init ≡ false
      → x.managed_shm ≡ null
      → Balanced d w (open_or_create os sizes key x w)
  open_or_create-balance key x w closed unmapped =
      subst (Balanced d w) (sym (open_or_create-closed os sizes key x w closed))
        (create-Balance 2 key x w closed unmapped)
