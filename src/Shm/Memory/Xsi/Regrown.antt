-- ===== src/Shm/Memory/Xsi/Regrown.antt =====
-- A writer recreates a segment for a message that is too large, and a reader follows it.
use hnu_middleware.Base.{
  ℕ, ◌<◌, ◌≡◌, ◌≢◌, refl, sym, ap, subst, ◌∙◌, Bool, true, false, not, Option, some, ltb, leb,
  ◌>>=◌, if◌then◌else◌, lt→ltb, arith,
}
use mathlib.Core.Option.{some-injective}
use hnu_middleware.Shm.Conf.{ShmConf, conf_of, conf_of-ceiling}
use hnu_middleware.Shm.Segment.{set_need_remap}
use hnu_middleware.Shm.Memory.Pointers.{address}
use hnu_middleware.Shm.Memory.System.{ipc_private, System, Documented, created, detach}
use hnu_middleware.Shm.Memory.{Sizes, Contents, Members, forget}
use hnu_middleware.Shm.Memory.Xsi.{reset, remove, open_only, open_or_create}
use hnu_middleware.Shm.Memory.Xsi.Opening.{
  Opened, OpenAt, fresh_lem, created-Opened, open_only-Opened,
}
use hnu_middleware.Shm.Memory.Xsi.Others.{emptied, emptied_lem, created-others}
use hnu_middleware.Shm.Memory.Xsi.Calls.{
  contents_at, remap, recreate_at, recreate, remapped, grown, opened_to_write, ready_to_write,
  opened_to_read, ready_to_read,
}

-- A segment that is mapped at an address
pub record MappedAt (base : ℕ) (x : Members) : Type 0 where
  pub is_open : x.init ≡ true
  pub state_at : x.state ≡ address base
  pub mapped_at : x.managed_shm ≡ address base

-- What the writer's call makes of a segment that it recreates
abbrev pub recreated :
    {W : Type 0} → System W Contents → Sizes → ℕ → ℕ → ℕ → Members → W → Bool × Members × W
recreated os sizes key a msg_size x w =
    open_or_create os sizes key
      (record (forget (record x { init = false })) { conf = conf_of msg_size }) (emptied os key a w)

module _ {W : Type 0} (os : System W Contents) (sizes : Sizes) (key : ℕ) where
  -- A writer that is open at an address, at memory that needs no remapping, recreates the segment for a
  -- larger message.
  ready_to_write-recreates :
      (a msg_size : ℕ) (x : Members) (w : W)
      → MappedAt a x
      → (os.load a w).state.need_remap ≡ false
      → x.conf.ceiling_msg_size < msg_size
      → ready_to_write os sizes key msg_size x w
        ≡ some (
            open_or_create os sizes key
              (record (forget (record x { init = false })) { conf = conf_of msg_size })
              (emptied os key a w))
  unfolding ready_to_write opened_to_write remapped contents_at grown recreate recreate_at reset
      detach
  ready_to_write-recreates a msg_size x w h calm large =
      let c = os.load a w in
      let at : ℕ × Contents = (a, c) in
      let step : Bool × Members × W → Option (Bool × Members × W) =
        opened_to_write os sizes key msg_size in
      let too_small : ltb x.conf.ceiling_msg_size msg_size ≡ true =
        lt→ltb x.conf.ceiling_msg_size msg_size large in
      let marked = os.store a (record c { state = set_need_remap true c.state }) w in
      ap (λ b. step (if not b then open_or_create os sizes key x w else (true, x, w))) h.is_open
      ∙ ap (λ p. remapped os sizes key (contents_at os p w) x w >>= grown os sizes key msg_size)
          h.state_at
      ∙ ap
          (λ b.
            some (if b then remap os sizes key x w else (true, x, w))
            >>= grown os sizes key msg_size)
          calm
      ∙ ap (λ b. if b then recreate os sizes key msg_size x w else some (true, x, w)) too_small
      ∙ ap (λ p. recreate_at os sizes key msg_size (contents_at os p w) x w) h.state_at
      ∙ ap
          (λ p. some (
            open_or_create os sizes key
              (record (forget (record x { init = false })) { conf = conf_of msg_size })
              (remove os key (detach os p marked)).1))
          h.mapped_at

  -- A reader that is open at an address, at memory that needs to be remapped, opens the memory of its key.
  ready_to_read-remaps :
      (b index : ℕ) (y : Members) (w : W)
      → MappedAt b y
      → (os.load b w).state.need_remap ≡ true
      → index < y.conf.block_num
      → ready_to_read os sizes key index y w
        ≡ some
            (open_only os sizes key (forget (record y { init = false })) (os.shmdt (address b) w))
  unfolding ready_to_read opened_to_read remapped contents_at remap reset detach
  ready_to_read-remaps b index y w h stale below =
      let within : leb y.conf.block_num index ≡ false = ground arith in
      ap
        (λ c.
          opened_to_read os sizes key index
            (if not c then open_only os sizes key y w else (true, y, w)))
        h.is_open
      ∙ ap
          (λ c.
            if c then some (false, y, w) else remapped os sizes key (contents_at os y.state w) y w)
          within
      ∙ ap (λ p. remapped os sizes key (contents_at os p w) y w) h.state_at
      ∙ ap (λ c. some (if c then remap os sizes key y w else (true, y, w))) stale
      ∙ ap (λ p. some (open_only os sizes key (forget (record y { init = false })) (detach os p w)))
          h.mapped_at

module _ {W : Type 0} (os : System W Contents) (d : Documented os) (sizes : Sizes) where
  -- A segment that is open at an address, which was attached to some memory
  pub record OpenOn (id base : ℕ) (conf : ShmConf) (x : Members) (w : W) : Type 0 where
    pub open_at : OpenAt sizes base conf (true, x)
    pub attached : d.attached base w ≡ some id

  OpenOn-from :
      (id base bytes : ℕ) (conf conf' : ShmConf) (c : Contents) (r : Bool × Members × W)
      → conf ≡ conf'
      → Opened os d sizes id base conf c bytes r
      → OpenOn id base conf' r.1 r.2
  OpenOn-from id base bytes conf conf' c r same h = record {
    open_at =
        subst (λ t. OpenAt sizes base conf' (t, r.1)) h.open_at.done
          (subst (λ k. OpenAt sizes base k (r.0, r.1)) same h.open_at);
    attached = h.attached;
  }

  -- A reader of marked memory opens the memory that has the key now.
  ready_to_read-follows :
      (key b index id a b' : ℕ) (conf : ShmConf) (y : Members) (w : W)
      → MappedAt b y
      → (os.load b w).state.need_remap ≡ true
      → index < y.conf.block_num
      → b ≢ a
      → d.attached a w ≡ some id
      → conf_of (d.contents id w).ceiling_msg_size ≡ conf
      → os.shmget key w ≡ some id
      → (os.shmat id (os.shmdt (address b) w)).0 ≡ address b'
      → (y' : Members) × (v : W) × (ready_to_read os sizes key index y w ≡ some (true, y', v))
        × OpenOn id b' conf y' v
  unfolding forget
  ready_to_read-follows key b index id a b' conf y w hy stale below apart there agreed found at =
      let y1 : Members = forget (record y { init = false }) in
      let left = os.shmdt (address b) w in
      let (_, kept) = d.shmdt_kept b a id w apart there in
      let opened =
        open_only-Opened os d sizes key id b' y1 left refl (d.shmdt_key (address b) key w ∙ found)
          at in
      let q = open_only os sizes key y1 left in
      (
        q.1,
        q.2,
        ready_to_read-remaps os sizes key b index y w hy stale below
            ∙ ap (λ t. some (t, q.1, q.2)) opened.open_at.done,
        OpenOn-from id b' _ _ conf _ q (ap (λ c. conf_of c.ceiling_msg_size) kept ∙ agreed) opened,
      )

  -- For a key other than `IPC_PRIVATE`: a writer has a message above the ceiling of its segment, which
  -- needs no remapping, and another process has the same memory open at another address. The system makes
  -- new memory for the writer; the writer's attach of it succeeds, and so does that of the other process
  -- once it has detached the old memory. Then the writer's call opens the new memory, configured for the
  -- message; and the other process's next call to read a block finds the mark in the old memory, and opens
  -- the same new memory with the same configuration.
  pub ready_to_write-ready_to_read :
      (key a b a' b' index msg_size old id : ℕ) (x y : Members) (w : W)
      → key ≢ ipc_private
      → MappedAt a x
      → MappedAt b y
      → a ≢ b
      → d.attached a w ≡ some old
      → d.attached b w ≡ some old
      → (d.contents old w).state.need_remap ≡ false
      → x.conf.ceiling_msg_size < msg_size
      → index < y.conf.block_num
      → (os.shmget_excl key (conf_of msg_size).managed_shm_size (emptied os key a w)).0 ≡ created id
      → (os.shmat id
          (os.shmget_excl key (conf_of msg_size).managed_shm_size (emptied os key a w)).1).0
        ≡ address a'
      → (os.shmat id (os.shmdt (address b) (recreated os sizes key a msg_size x w).2)).0
        ≡ address b'
      → (x' y' : Members) × (w' v : W) × (ready_to_write os sizes key msg_size x w
          ≡ some (true, x', w'))
        × OpenOn id a' (conf_of msg_size) x' w'
        × (ready_to_read os sizes key index y w' ≡ some (true, y', v))
        × OpenOn id b' (conf_of msg_size) y' v
  unfolding forget set_need_remap
  ready_to_write-ready_to_read key a b a' b' index msg_size old id x y w shared hx hy apart at_a
        at_b calm large below got at at' =
      let conf = conf_of msg_size in
      let e = emptied os key a w in
      let x1 : Members = record (forget (record x { init = false })) { conf = conf } in
      let g = (os.shmget_excl key conf.managed_shm_size e).1 in
      let (there, marked) = emptied_lem os d key a b old w apart at_a at_b in
      let new : id ≢ old = λ same.
        d.created_new key conf.managed_shm_size b id e got
          (subst (λ o. d.attached b e ≡ some o) (sym same) there) in
      let (made, found) =
        created-Opened os d sizes msg_size key id a' x1 e shared refl refl got at in
      let r = open_or_create os sizes key x1 e in
      let (still, same) = created-others os d sizes key id a' b old x1 e refl got at there new in
      let apart' : b ≢ a' = λ eq. new (
        some-injective id old
          (sym made.attached ∙ subst (λ k. d.attached k r.2 ≡ some old) eq still)) in
      let agreed : conf_of (d.contents id r.2).ceiling_msg_size ≡ conf =
        ap (λ c. conf_of c.ceiling_msg_size) made.contents
        ∙ ap conf_of (fresh_lem conf (d.contents id g)).0
        ∙ conf_of-ceiling msg_size in
      let (y', v, reads, follows) =
        ready_to_read-follows key b index id a' b' conf y r.2 hy
          (ap (λ c. c.state.need_remap) (d.load_lem old b r.2 still ∙ same ∙ marked)) below apart'
          made.attached agreed found at' in
      (
        r.1,
        y',
        r.2,
        v,
        ready_to_write-recreates os sizes key a msg_size x w hx
              (ap (λ c. c.state.need_remap) (d.load_lem old a w at_a) ∙ calm) large
            ∙ ap (λ t. some (t, r.1, r.2)) made.open_at.done,
        OpenOn-from id a' _ conf conf _ r refl made,
        reads,
        follows,
      )
