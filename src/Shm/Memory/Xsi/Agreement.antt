-- ===== src/Shm/Memory/Xsi/Agreement.antt =====
-- That a segment which `XsiSegment::OpenOrCreate` made and one that `XsiSegment::OpenOnly` opened agree.
use hnu_middleware.Base.{ℕ, ◌+◌, ◌%◌, ◌^◌, ◌<◌, ◌≤◌, ◌≡◌, ◌≢◌, sym, ap, subst, ◌∙◌, false}
use hnu_middleware.Shm.Conf.{ShmConf, conf_of, conf_of-ceiling}
use hnu_middleware.Shm.Segment.{increase_reference_counts}
use hnu_middleware.Shm.Memory.Pointers.{address}
use hnu_middleware.Shm.Memory.System.{ipc_private, System, Documented, created}
use hnu_middleware.Shm.Memory.{Sizes, Contents, Members, new_state, count_reference}
use hnu_middleware.Shm.Memory.Layout.{new_blocks-free}
use hnu_middleware.Shm.Memory.Xsi.{open_only, open_or_create}
use hnu_middleware.Shm.Memory.Xsi.Opening.{
  OpenAt, fresh, fresh_lem, open_only-Opened, created-Opened,
}

fresh_free :
    (conf : ShmConf) (c : Contents) (i : ℕ)
    → i < conf.block_num
    → (count_reference (fresh conf c)).locks i ≡ 0
unfolding count_reference
fresh_free conf c i below =
    new_blocks-free conf.block_num (new_state conf.ceiling_msg_size c) i below

counted_twice :
    (c : Contents) → c.state.reference_count ≡ 1 → (count_reference c).state.reference_count ≡ 2
unfolding count_reference increase_reference_counts
counted_twice c one = ap (λ n. (n + 1) % 2 ^ 32) one

module _ {W : Type 0} (os : System W Contents) (d : Documented os) (sizes : Sizes) where
  -- For a key other than `IPC_PRIVATE`: if `OpenOrCreate` makes new memory for a segment that is
  -- configured for some message size, and `OpenOnly` then opens the memory with that key for another segment, whatever that one's
  -- configuration, and both get an address, then both give true and both segments are open with the creator's
  -- configuration: the state, the blocks and the buffer of each block lie at the same offsets from the two
  -- addresses. The memory is as large as the configuration asks for, its blocks are free, and its state
  -- counts two references.
  pub open_or_create-open_only :
      (n key id a b i : ℕ) (x y : Members) (w : W)
      → key ≢ ipc_private
      → x.init ≡ false
      → x.conf ≡ conf_of n
      → (os.shmget_excl key x.conf.managed_shm_size w).0 ≡ created id
      → (os.shmat id (os.shmget_excl key x.conf.managed_shm_size w).1).0 ≡ address a
      → y.init ≡ false
      → (os.shmat id (open_or_create os sizes key x w).2).0 ≡ address b
      → i < x.conf.block_num
      → let (made, x', w') = open_or_create os sizes key x w in
        let (opened, y', v) = open_only os sizes key y w' in
        OpenAt sizes a x.conf (made, x')
        × OpenAt sizes b x.conf (opened, y')
        × (x.conf.managed_shm_size ≤ d.size id v)
        × ((d.contents id v).locks i ≡ 0)
        × ((d.contents id v).state.reference_count ≡ 2)
  open_or_create-open_only n key id a b i x y w shared closed known got at closed' at' below =
      let w1 = (os.shmget_excl key x.conf.managed_shm_size w).1 in
      let (made, found) = created-Opened os d sizes n key id a x w shared closed known got at in
      let w' = (open_or_create os sizes key x w).2 in
      let opened = open_only-Opened os d sizes key id b y w' closed' found at' in
      let (ceiling, one) = fresh_lem x.conf (d.contents id w1) in
      let agreed : conf_of (d.contents id w').ceiling_msg_size ≡ x.conf =
        ap (λ c. conf_of c.ceiling_msg_size) made.contents
        ∙ ap conf_of ceiling
        ∙ ap (λ c. conf_of c.ceiling_msg_size) known
        ∙ conf_of-ceiling n
        ∙ sym known in
      (
        made.open_at,
        subst
            (λ c.
              OpenAt sizes b c ((open_only os sizes key y w').0, (open_only os sizes key y w').1))
            agreed opened.open_at,
        subst (λ s. x.conf.managed_shm_size ≤ s) (sym (opened.size ∙ made.size))
            (d.created_found key x.conf.managed_shm_size id w shared got).1,
        ap (λ c. c.locks i) (opened.contents ∙ ap count_reference made.contents)
            ∙ fresh_free x.conf (d.contents id w1) i below,
        ap (λ c. c.state.reference_count) (opened.contents ∙ ap count_reference made.contents)
            ∙ counted_twice (fresh x.conf (d.contents id w1)) one,
      )
