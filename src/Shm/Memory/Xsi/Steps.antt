-- ===== src/Shm/Memory/Xsi/Steps.antt =====
-- The branches of `XsiSegment::OpenOnly` and of a turn of the loop of `XsiSegment::OpenOrCreate`.
use hnu_middleware.Base.{ℕ, suc, ◌≡◌, refl, ap, Bool, true, false, if◌then◌else◌}
use hnu_middleware.Shm.Memory.System.{
  System, Got, created, refused, einval, eexist, other_error, detach,
}
use hnu_middleware.Shm.Memory.{Sizes, Contents, Members, forget}
use hnu_middleware.Shm.Memory.Xsi.{
  reset, remove, get_only, open_only, attach_new, create, open_or_create,
}

module _ {W : Type 0} (os : System W Contents) (sizes : Sizes) (key : ℕ) where
  pub open_only-closed :
      (x : Members) (w : W)
      → x.init ≡ false
      → open_only os sizes key x w ≡ get_only os sizes (os.shmget key w) x w
  unfolding open_only
  open_only-closed x w closed =
      ap (λ b. if b then (true, x, w) else get_only os sizes (os.shmget key w) x w) closed

  pub open_or_create-closed :
      (x : Members) (w : W)
      → x.init ≡ false
      → open_or_create os sizes key x w ≡ create os sizes key 2 x w
  unfolding open_or_create
  open_or_create-closed x w closed =
      ap (λ b. if b then (true, x, w) else create os sizes key 2 x w) closed

  -- What a turn does with the answer of `shmget`
  abbrev pub turn : ℕ → Members → W → Got → Bool × Members × W
  turn tries x w' (created shmid) =
      attach_new os sizes shmid (os.shmat shmid w').0 x (os.shmat shmid w').1
  turn tries x w' (refused einval) =
      create os sizes key tries (forget x) (remove os key (detach os x.managed_shm w')).1
  turn tries x w' (refused eexist) = open_only os sizes key x w'
  turn tries x w' (refused other_error) = (false, x, w')

  pub create-turn :
      (tries : ℕ) (x : Members) (w : W) (got : Got)
      → (os.shmget_excl key x.conf.managed_shm_size w).0 ≡ got
      → create os sizes key (suc tries) x w
        ≡ turn tries x (os.shmget_excl key x.conf.managed_shm_size w).1 got
  unfolding create reset
  create-turn tries x w (created shmid) e = rw (e, create) refl
  create-turn tries x w (refused einval) e = rw (e, create) refl
  create-turn tries x w (refused eexist) e = rw (e, create) refl
  create-turn tries x w (refused other_error) e = rw (e, create) refl
