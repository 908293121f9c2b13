-- ===== src/Shm/Memory/Xsi/Others.antt =====
-- What a call of one process leaves of memory that another process has open.
use hnu_middleware.Base.{
  ℕ, ◌≡◌, ◌≢◌, sym, ap, subst, ◌∙◌, true, false, some, Option-cases, inl, inr,
}
use hnu_middleware.Shm.Conf.{conf_of}
use hnu_middleware.Shm.Segment.{set_need_remap}
use hnu_middleware.Shm.Memory.Pointers.{address}
use hnu_middleware.Shm.Memory.System.{System, Documented, created, remove_id}
use hnu_middleware.Shm.Memory.{Sizes, Contents, Members, count_reference, new_state, new_blocks}
use hnu_middleware.Shm.Memory.Xsi.Steps.{open_or_create-closed, create-turn}
use hnu_middleware.Shm.Memory.Xsi.{remove, open_or_create, attach_new}

-- The world in which `Recreate` makes the new memory
abbrev pub emptied : {W : Type 0} → System W Contents → ℕ → ℕ → W → W
emptied os key a w =
    let c = os.load a w in
    let marked = os.store a (record c { state = set_need_remap true c.state }) w in
    (remove os key (os.shmdt (address a) marked)).1

module _ {W : Type 0} (os : System W Contents) (d : Documented os) where
  -- Memory with some contents, attached at an address
  abbrev Holds : ℕ → ℕ → Contents → W → Type 0
  Holds base id c w = (d.attached base w ≡ some id) × (d.contents id w ≡ c)

  remove-Holds :
      (key b id : ℕ) (c : Contents) (w : W) → Holds b id c w → Holds b id c (remove os key w).1
  unfolding remove remove_id
  remove-Holds key b id c w (at, there) = elim (Option-cases (os.shmget key w)) [
    | inl e ↦ subst (λ o. Holds b id c (remove_id os o w).1) (sym e) (at, there)
    | inr (gone, e) ↦
        let (at', there') = d.rmid_kept gone b id w at in
        subst (λ o. Holds b id c (remove_id os o w).1) (sym e) (at', there' ∙ there)
  ]

  pub emptied_lem :
      (key a b id : ℕ) (w : W)
      → a ≢ b
      → d.attached a w ≡ some id
      → d.attached b w ≡ some id
      → Holds b id
          (record (d.contents id w) { state = set_need_remap true (d.contents id w).state })
          (emptied os key a w)
  emptied_lem key a b id w apart at_a at_b =
      let c = os.load a w in
      let marked : Contents = record c { state = set_need_remap true c.state } in
      let w1 = os.store a marked w in
      let at1 : d.attached b w1 ≡ some id = (d.store_same a b 0 marked w).0 ∙ at_b in
      let (at2, same) = d.shmdt_kept a b id w1 apart at1 in
      remove-Holds key b id _ (os.shmdt (address a) w1) (
        at2,
        same
            ∙ d.store_lem id a marked w at_a
            ∙ ap (λ (k : Contents). record k { state = set_need_remap true k.state })
                (d.load_lem id a w at_a),
      )

  store-Holds :
      (id base b other : ℕ) (k c : Contents) (w : W)
      → d.attached base w ≡ some id
      → id ≢ other
      → Holds b other c w
      → Holds b other c (os.store base k w)
  store-Holds id base b other k c w at new (there, same) =
      ((d.store_same base b 0 k w).0 ∙ there, d.store_other id other base k w at new ∙ same)

  attach_new-Holds :
      (sizes : Sizes) (id base b other : ℕ) (c : Contents) (x : Members) (w : W)
      → (os.shmat id w).0 ≡ address base
      → id ≢ other
      → Holds b other c w
      → Holds b other c (attach_new os sizes id (address base) x (os.shmat id w).1).2
  unfolding attach_new
  attach_new-Holds sizes id base b other c x w e new (there, same) =
      let w0 = (os.shmat id w).1 in
      let at0 = (d.shmat_address id base w e).0 in
      let k1 = new_state x.conf.ceiling_msg_size (os.load base w0) in
      let w1 = os.store base k1 w0 in
      let at1 : d.attached base w1 ≡ some id = (d.store_same base base 0 k1 w0).0 ∙ at0 in
      let k2 =
        new_blocks (conf_of (os.load base w1).ceiling_msg_size).block_num (os.load base w1) in
      let w2 = os.store base k2 w1 in
      let at2 : d.attached base w2 ≡ some id = (d.store_same base base 0 k2 w1).0 ∙ at1 in
      store-Holds id base b other (count_reference (os.load base w2)) c w2 at2 new (
        store-Holds id base b other k2 c w1 at1 new (
          store-Holds id base b other k1 c w0 at0 new
            (d.shmat_kept id b other w there, (d.shmat_same id other 0 w).0 ∙ same)))

  pub created-others :
      (sizes : Sizes) (key id a b other : ℕ) (x : Members) (w : W)
      → x.init ≡ false
      → (os.shmget_excl key x.conf.managed_shm_size w).0 ≡ created id
      → (os.shmat id (os.shmget_excl key x.conf.managed_shm_size w).1).0 ≡ address a
      → d.attached b w ≡ some other
      → id ≢ other
      → (d.attached b (open_or_create os sizes key x w).2 ≡ some other)
        × (d.contents other (open_or_create os sizes key x w).2 ≡ d.contents other w)
  created-others sizes key id a b other x w closed got at there new =
      let g = (os.shmget_excl key x.conf.managed_shm_size w).1 in
      let (there', same) = d.excl_kept key x.conf.managed_shm_size b other w there in
      subst (λ r. Holds b other (d.contents other w) r.2)
        (sym (
          open_or_create-closed os sizes key x w closed
          ∙ create-turn os sizes key 1 x w (created id) got
          ∙ ap (λ p. attach_new os sizes id p x (os.shmat id g).1) at))
        (attach_new-Holds sizes id a b other (d.contents other w) x g at new (there', same))
