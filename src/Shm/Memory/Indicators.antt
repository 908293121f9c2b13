-- ===== src/Shm/Memory/Indicators.antt =====
-- How a `ConditionNotifier` (transport/shm/notifier/condition_notifier.cpp) opens and closes the System V
-- memory that holds the `Indicator`, and what its methods do with it. A method that needs the indicator
-- while there is none gives `none`.
pub mod Heard
pub mod Closing
use hnu_middleware.Base.{
  ℕ, zero, suc, ◌*◌, Bool, true, false, List, map, Option, none, some, if◌then◌else◌, ◌>>=◌,
}
use hnu_middleware.Shm.Notifier.{Indicator, new_indicator, notify, listen}
use hnu_middleware.Shm.Memory.Pointers.{Pointer, null, failed, address}
use hnu_middleware.Shm.Memory.System.{
  System, Got, created, refused, einval, eexist, other_error, detach, remove_id,
}

-- `ConditionNotifier`
pub record Notifier : Type 0 where
  pub managed_shm : Pointer
  pub indicator : Pointer
  pub next_seq : ℕ
  pub is_shutdown : Bool

module _ {W I : Type 0} (os : System W (Indicator I)) where
  unfoldable pub reset : Notifier → W → Notifier × W
  reset n w = (record n { indicator = null; managed_shm = null }, detach os n.managed_shm w)

  unfoldable pub remove : ℕ → W → Bool × W
  remove key w = remove_id os (os.shmget key w) w

  -- `OpenOnly` from the pointer that `shmat` gives
  unfoldable pub attach_only : ℕ → Pointer → Notifier → W → Bool × Notifier × W
  attach_only shmid failed n w =
      (false, record n { managed_shm = failed }, (os.shmctl_rmid shmid w).1)
  attach_only shmid null n w =
      (false, record n { managed_shm = null; indicator = null }, os.shmdt null w)
  attach_only shmid (address base) n w =
      (true, record n { managed_shm = address base; indicator = address base }, w)

  unfoldable pub get_only : Option ℕ → Notifier → W → Bool × Notifier × W
  get_only none n w = (false, n, w)
  get_only (some shmid) n w = attach_only shmid (os.shmat shmid w).0 n (os.shmat shmid w).1

  unfoldable pub open_only : ℕ → Notifier → W → Bool × Notifier × W
  open_only key n w = get_only (os.shmget key w) n w

  -- `OpenOrCreate` from the pointer to the new memory, with the info that `ReadableInfo()` makes
  unfoldable pub attach_new : I → ℕ → Pointer → Notifier → W → Bool × Notifier × W
  attach_new unset shmid failed n w =
      (false, record n { managed_shm = failed }, (os.shmctl_rmid shmid w).1)
  attach_new unset shmid null n w = (
    false,
    record n { managed_shm = null; indicator = null },
    (os.shmctl_rmid shmid (os.shmdt null w)).1,
  )
  attach_new unset shmid (address base) n w = (
    true,
    record n { managed_shm = address base; indicator = address base },
    os.store base (new_indicator unset) w,
  )

  -- The loop of `OpenOrCreate`, with the number of tries it has left, and what follows it
  unfoldable pub create : I → ℕ → ℕ → ℕ → Notifier → W → Bool × Notifier × W
  create unset key size zero n w = (false, n, w)
  create unset key size (suc tries) n w =
      let (got, w') = os.shmget_excl key size w in
      elim got [
        | created shmid ↦ attach_new unset shmid (os.shmat shmid w').0 n (os.shmat shmid w').1
        | refused errno ↦ elim errno [
          | einval ↦ let (n1, w1) = reset n w' in create unset key size tries n1 (remove key w1).1
          | eexist ↦ open_only key n w'
          | other_error ↦ (false, n, w')
        ]
      ]

  -- `OpenOrCreate`, which is all of `Init`
  unfoldable pub init : I → ℕ → ℕ → Notifier → W → Bool × Notifier × W
  init unset key size n w = create unset key size 2 n w

  unfoldable pub indicator_at : Pointer → W → Option (Indicator I)
  indicator_at null w = none
  indicator_at failed w = none
  indicator_at (address base) w = some (os.load base w)

  unfoldable pub store_at : Pointer → Indicator I → W → W
  store_at null ind w = w
  store_at failed ind w = w
  store_at (address base) ind w = os.store base ind w

  -- The constructor from the result of `Init`
  unfoldable pub started : Bool × Notifier × W → Option (Notifier × W)
  started (false, n, w) = some (record n { is_shutdown = true }, w)
  started (true, n, w) = do
    ind ← indicator_at n.indicator w
    some (record n { next_seq = ind.next_seq }, w)

  unfoldable pub new_notifier : I → ℕ → ℕ → W → Option (Notifier × W)
  new_notifier unset key size w =
      let members : Notifier = record {
        managed_shm = null;
        indicator = null;
        next_seq = 0;
        is_shutdown = false;
      } in
      started (init unset key size members w)

  unfoldable pub shutdown : Notifier → W → Notifier × W
  shutdown n w = if n.is_shutdown then (n, w) else reset (record n { is_shutdown = true }) w

  -- `Notify` of a notifier, in one step
  unfoldable pub notify_with : I → Notifier → W → Option (Bool × W)
  notify_with info n w =
      let called = indicator_at n.indicator w >>= λ ind.
      some (true, store_at n.indicator (notify false info ind).1 w) in
      if n.is_shutdown then some (false, w) else called

  -- `Listen` of a notifier, on whether it is shut down in each turn of the loop and the world then;
  -- with the notifier after a true.
  unfoldable pub listen_at : Pointer → List (Bool × W) → ℕ → ℕ → Option (Option (I × ℕ))
  listen_at null views timeout_us next_seq = none
  listen_at failed views timeout_us next_seq = none
  listen_at (address base) views timeout_us next_seq =
      listen (map (λ v. (v.0, os.load base v.1)) views) timeout_us next_seq

  unfoldable pub listen_with : List (Bool × W) → ℕ → Notifier → Option (Option (I × Notifier))
  listen_with views timeout_ms n =
      let called = do
        heard ← listen_at n.indicator views (timeout_ms * 1000) n.next_seq
        some (do (info, next) ← heard; some (info, record n { next_seq = next }))
      in if n.is_shutdown then some none else called
