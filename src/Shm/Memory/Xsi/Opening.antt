-- ===== src/Shm/Memory/Xsi/Opening.antt =====
-- What `XsiSegment::OpenOnly` makes of memory that is there, and `XsiSegment::OpenOrCreate` of new memory.
use hnu_middleware.Base.{
  ℕ, ◌+◌, ◌%◌, ◌^◌, ◌<◌, ◌≡◌, ◌≢◌, refl, sym, ap, subst, ◌∙◌, Bool, true, false, some,
}
use hnu_middleware.Shm.Conf.{ShmConf, conf_of, conf_of-ceiling}
use hnu_middleware.Shm.Segment.{State, increase_reference_counts}
use hnu_middleware.Shm.Memory.Pointers.{address}
use hnu_middleware.Shm.Memory.System.{ipc_private, System, Documented, created}
use hnu_middleware.Shm.Memory.{
  Sizes, Contents, Members, new_state, new_blocks, count_reference, blocks_address, buf_address,
  fill_buf_addrs,
}
use hnu_middleware.Shm.Memory.Layout.{fill_lem, new_blocks-state}
use hnu_middleware.Shm.Memory.Xsi.Steps.{open_only-closed, open_or_create-closed, create-turn}
use hnu_middleware.Shm.Memory.Xsi.{attach_only, get_only, open_only, attach_new, open_or_create}

-- A segment that is open at an address, for messages of a size
pub record OpenAt (sizes : Sizes) (base : ℕ) (conf : ShmConf) (r : Bool × Members) : Type 0 where
  pub done : r.0 ≡ true
  pub is_open : r.1.init ≡ true
  pub same_conf : r.1.conf ≡ conf
  pub state_at : r.1.state ≡ address base
  pub blocks_at : r.1.blocks ≡ address (blocks_address sizes base)
  pub mapped_at : r.1.managed_shm ≡ address base
  pub bufs_at :
      (i : ℕ)
      → i < conf.block_num
      → r.1.block_buf_addrs i ≡ some (address (buf_address sizes conf base i))

-- New contents, for a configuration, with a reference
abbrev pub fresh : ShmConf → Contents → Contents
fresh conf c = count_reference (new_blocks conf.block_num (new_state conf.ceiling_msg_size c))

pub fresh_lem :
    (conf : ShmConf) (c : Contents)
    → ((fresh conf c).ceiling_msg_size ≡ conf.ceiling_msg_size)
      × ((fresh conf c).state.reference_count ≡ 1)
unfolding count_reference increase_reference_counts new_state
fresh_lem conf c =
    let kept = new_blocks-state conf.block_num (new_state conf.ceiling_msg_size c) in
    (kept.1, ap (λ (s : State). (s.reference_count + 1) % 2 ^ 32) kept.0)

module _ {W : Type 0} (os : System W Contents) (d : Documented os) (sizes : Sizes) where
  -- What an opening leaves: a segment that is open at an address, its memory with some contents
  pub record Opened (id base : ℕ) (conf : ShmConf) (c : Contents) (bytes : ℕ)
      (r : Bool × Members × W) : Type 0 where
    pub open_at : OpenAt sizes base conf (r.0, r.1)
    pub attached : d.attached base r.2 ≡ some id
    pub contents : d.contents id r.2 ≡ c
    pub size : d.size id r.2 ≡ bytes

  attach_only-Opened :
      (id base : ℕ) (x : Members) (w : W)
      → (os.shmat id w).0 ≡ address base
      → Opened id base
          (conf_of (d.contents id w).ceiling_msg_size)
          (count_reference (d.contents id w))
          (d.size id w)
          (attach_only os sizes (address base) x (os.shmat id w).1)
  unfolding attach_only
  attach_only-Opened id base x w e =
      let w' = (os.shmat id w).1 in
      let at = (d.shmat_address id base w e).0 in
      let loaded : os.load base w' ≡ d.contents id w =
        d.load_lem id base w' at ∙ (d.shmat_same id id 0 w).0 in
      subst
        (λ c.
          Opened id base (conf_of c.ceiling_msg_size) (count_reference c) (d.size id w)
            (attach_only os sizes (address base) x w'))
        loaded
        (record {
          open_at = record {
            done = refl;
            is_open = refl;
            same_conf = refl;
            state_at = refl;
            blocks_at = refl;
            mapped_at = refl;
            bufs_at = λ i below. fill_lem sizes _ base _ x.block_buf_addrs i below;
          };
          attached = (d.store_same base base 0 _ w').0 ∙ at;
          contents = d.store_lem id base _ w' at;
          size = (d.store_same base base id _ w').2 ∙ (d.shmat_same id id 0 w).1;
        })

  -- What `OpenOnly` makes of the memory that has the segment's key
  pub open_only-Opened :
      (key id base : ℕ) (x : Members) (w : W)
      → x.init ≡ false
      → os.shmget key w ≡ some id
      → (os.shmat id w).0 ≡ address base
      → Opened id base
          (conf_of (d.contents id w).ceiling_msg_size)
          (count_reference (d.contents id w))
          (d.size id w)
          (open_only os sizes key x w)
  unfolding get_only
  open_only-Opened key id base x w closed found at =
      let Goal : Bool × Members × W → Type 0 =
        Opened id base (conf_of (d.contents id w).ceiling_msg_size)
          (count_reference (d.contents id w)) (d.size id w) in
      subst Goal
        (sym (
          open_only-closed os sizes key x w closed
          ∙ ap (λ o. get_only os sizes o x w) found
          ∙ ap (λ p. attach_only os sizes p x (os.shmat id w).1) at))
        (attach_only-Opened id base x w at)

  attach_new-Opened :
      (n id base : ℕ) (x : Members) (w : W)
      → x.conf ≡ conf_of n
      → (os.shmat id w).0 ≡ address base
      → Opened id base x.conf
          (fresh x.conf (d.contents id w))
          (d.size id w)
          (attach_new os sizes id (address base) x (os.shmat id w).1)
  unfolding attach_new new_state
  attach_new-Opened n id base x w known e =
      let w' = (os.shmat id w).1 in
      let at = (d.shmat_address id base w e).0 in
      let loaded : os.load base w' ≡ d.contents id w =
        d.load_lem id base w' at ∙ (d.shmat_same id id 0 w).0 in
      let ceiling = x.conf.ceiling_msg_size in
      let w1 = os.store base (new_state ceiling (os.load base w')) w' in
      let at1 : d.attached base w1 ≡ some id = (d.store_same base base 0 _ w').0 ∙ at in
      let there1 : os.load base w1 ≡ new_state ceiling (d.contents id w) =
        d.load_lem id base w1 at1 ∙ d.store_lem id base _ w' at ∙ ap (new_state ceiling) loaded in
      let conf = conf_of (os.load base w1).ceiling_msg_size in
      let agreed : conf ≡ x.conf =
        ap (λ c. conf_of c.ceiling_msg_size) there1
        ∙ ap (λ c. conf_of c.ceiling_msg_size) known
        ∙ conf_of-ceiling n
        ∙ sym known in
      let w2 = os.store base (new_blocks conf.block_num (os.load base w1)) w1 in
      let at2 : d.attached base w2 ≡ some id = (d.store_same base base 0 _ w1).0 ∙ at1 in
      let there2 : os.load base w2
          ≡ new_blocks x.conf.block_num (new_state ceiling (d.contents id w)) =
        d.load_lem id base w2 at2
        ∙ d.store_lem id base _ w1 at1
        ∙ ap (λ c. new_blocks c.block_num (os.load base w1)) agreed
        ∙ ap (new_blocks x.conf.block_num) there1 in
      record {
        open_at = record {
          done = refl;
          is_open = refl;
          same_conf = agreed;
          state_at = refl;
          blocks_at = refl;
          mapped_at = refl;
          bufs_at = λ i below.
              ap (λ c. fill_buf_addrs sizes c base c.block_num x.block_buf_addrs i) agreed
              ∙ fill_lem sizes x.conf base _ x.block_buf_addrs i below;
        };
        attached = (d.store_same base base 0 _ w2).0 ∙ at2;
        contents = d.store_lem id base _ w2 at2 ∙ ap count_reference there2;
        size =
            (d.store_same base base id _ w2).2
            ∙ (d.store_same base base id _ w1).2
            ∙ (d.store_same base base id _ w').2
            ∙ (d.shmat_same id id 0 w).1;
      }

  attach_new-found :
      (key id base : ℕ) (x : Members) (w : W)
      → os.shmget key (attach_new os sizes id (address base) x w).2 ≡ os.shmget key w
  unfolding attach_new
  attach_new-found key id base x w =
      (d.store_same base base key _ _).3
      ∙ (d.store_same base base key _ _).3
      ∙ (d.store_same base base key _ w).3

  pub created-Opened :
      (n key id a : ℕ) (x : Members) (w : W)
      → key ≢ ipc_private
      → x.init ≡ false
      → x.conf ≡ conf_of n
      → (os.shmget_excl key x.conf.managed_shm_size w).0 ≡ created id
      → (os.shmat id (os.shmget_excl key x.conf.managed_shm_size w).1).0 ≡ address a
      → let made = open_or_create os sizes key x w in
        let got = (os.shmget_excl key x.conf.managed_shm_size w).1 in
        Opened id a x.conf (fresh x.conf (d.contents id got)) (d.size id got) made
        × (os.shmget key made.2 ≡ some id)
  created-Opened n key id a x w shared closed known got at =
      let w1 = (os.shmget_excl key x.conf.managed_shm_size w).1 in
      let steps : attach_new os sizes id (address a) x (os.shmat id w1).1
          ≡ open_or_create os sizes key x w =
        sym (
          open_or_create-closed os sizes key x w closed
          ∙ create-turn os sizes key 1 x w (created id) got
          ∙ ap (λ p. attach_new os sizes id p x (os.shmat id w1).1) at) in
      let Goal : Bool × Members × W → Type 0 = λ r.
        Opened id a x.conf (fresh x.conf (d.contents id w1)) (d.size id w1) r
        × (os.shmget key r.2 ≡ some id) in
      subst Goal steps (
        attach_new-Opened n id a x w1 known at,
        attach_new-found key id a x (os.shmat id w1).1
            ∙ (d.shmat_same id id key w1).2
            ∙ (d.created_found key x.conf.managed_shm_size id w shared got).0,
      )
