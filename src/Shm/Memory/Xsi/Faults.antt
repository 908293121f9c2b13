-- ===== src/Shm/Memory/Xsi/Faults.antt =====
-- What a writer does whose segment is to be remapped and is gone.
use hnu_middleware.Base.{
  ℕ, ◌<◌, ◌≡◌, refl, ap, ◌∙◌, Bool, true, false, not, Option, none, some, ltb, ◌>>=◌, if◌then◌else◌,
  lt→ltb,
}
use hnu_middleware.Shm.Memory.Pointers.{address}
use hnu_middleware.Shm.Memory.System.{System, detach}
use hnu_middleware.Shm.Memory.{Sizes, Contents, Members, forget}
use hnu_middleware.Shm.Memory.Xsi.{reset, get_only, open_only, open_or_create}
use hnu_middleware.Shm.Memory.Xsi.Steps.{open_only-closed}
use hnu_middleware.Shm.Memory.Xsi.Regrown.{MappedAt}
use hnu_middleware.Shm.Memory.Xsi.Calls.{
  contents_at, remap, recreate_at, recreate, remapped, grown, opened_to_write, ready_to_write,
}

module _ {W : Type 0} (os : System W Contents) (sizes : Sizes) (key : ℕ) where
  remap-gone :
      (a : ℕ) (x : Members) (w : W)
      → x.managed_shm ≡ address a
      → os.shmget key (os.shmdt (address a) w) ≡ none
      → remap os sizes key x w ≡ (false, forget (record x { init = false }), os.shmdt (address a) w)
  unfolding remap reset get_only detach forget
  remap-gone a x w mapped gone =
      let closed : Members = forget (record x { init = false }) in
      let left = os.shmdt (address a) w in
      ap (λ p. open_only os sizes key closed (detach os p w)) mapped
      ∙ open_only-closed os sizes key closed left refl
      ∙ ap (λ o. get_only os sizes o closed left) gone

  -- A writer is open at memory that another process has marked to be remapped, and there is no memory
  -- with the key: the other process has removed it and has not made the new one, or could not. If the
  -- writer's message is above the ceiling too, its call goes on after the failed remapping, and
  -- writes through `state_`, which is null.
  pub ready_to_write-faults :
      (a msg_size : ℕ) (x : Members) (w : W)
      → MappedAt a x
      → (os.load a w).state.need_remap ≡ true
      → os.shmget key (os.shmdt (address a) w) ≡ none
      → x.conf.ceiling_msg_size < msg_size
      → ready_to_write os sizes key msg_size x w ≡ none
  unfolding ready_to_write opened_to_write remapped contents_at grown recreate recreate_at forget
  ready_to_write-faults a msg_size x w h stale gone large =
      let step : Bool × Members × W → Option (Bool × Members × W) =
        opened_to_write os sizes key msg_size in
      let too_small : ltb x.conf.ceiling_msg_size msg_size ≡ true =
        lt→ltb x.conf.ceiling_msg_size msg_size large in
      let closed : Members = forget (record x { init = false }) in
      let left = os.shmdt (address a) w in
      ap (λ b. step (if not b then open_or_create os sizes key x w else (true, x, w))) h.is_open
      ∙ ap (λ p. remapped os sizes key (contents_at os p w) x w >>= grown os sizes key msg_size)
          h.state_at
      ∙ ap
          (λ b.
            some (if b then remap os sizes key x w else (true, x, w))
            >>= grown os sizes key msg_size)
          stale
      ∙ ap (grown os sizes key msg_size) (remap-gone a x w h.mapped_at gone)
      ∙ ap
          (λ b.
            if b then recreate os sizes key msg_size closed left else some (false, closed, left))
          too_small
