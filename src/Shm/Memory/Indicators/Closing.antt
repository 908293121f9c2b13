-- ===== src/Shm/Memory/Indicators/Closing.antt =====
-- That the constructor of a `ConditionNotifier` ends on every branch, and what `Shutdown` then leaves.
use hnu_middleware.Base.{
  ℕ, zero, suc, ◌+◌, ◌≡◌, refl, sym, ap, subst, ◌∙◌, Bool, true, false, Option, some, if◌then◌else◌,
  ◌>>=◌, Option-cases, inl, inr, arith,
}
use hnu_middleware.Shm.Notifier.{Indicator, new_indicator}
use hnu_middleware.Shm.Memory.Pointers.{Pointer, null, failed, address}
use hnu_middleware.Shm.Memory.System.{
  System, Documented, Got, created, refused, einval, eexist, other_error, detach, remove_id,
}
use hnu_middleware.Shm.Memory.Indicators.{
  Notifier, reset, remove, attach_only, get_only, open_only, attach_new, create, init, started,
  new_notifier, indicator_at, shutdown,
}

module _ {W I : Type 0} (os : System W (Indicator I)) (d : Documented os) where
  -- How `Init` ends: with an indicator at an address that it has attached, or with nothing attached.
  abbrev Ended : W → Bool × Notifier × W → Type 0
  Ended w (false, n, w') = d.attachments w' ≡ d.attachments w
  Ended w (true, n, w') =
      (base id : ℕ) × (n.managed_shm ≡ address base)
      × (n.indicator ≡ address base)
      × (n.is_shutdown ≡ false)
      × (d.attached base w' ≡ some id)
      × (d.attachments w' ≡ d.attachments w + 1)

  attach_only-Ended :
      (id : ℕ) (p : Pointer) (n : Notifier) (w : W)
      → n.is_shutdown ≡ false
      → (os.shmat id w).0 ≡ p
      → Ended w (attach_only os id p n (os.shmat id w).1)
  unfolding attach_only
  attach_only-Ended id failed n w running e =
      d.rmid_same id (os.shmat id w).1 ∙ d.shmat_failed id w e
  attach_only-Ended id null n w running e = absurd (d.shmat_not_null id w e)
  attach_only-Ended id (address base) n w running e =
      let (at, one) = d.shmat_address id base w e in (base, id, refl, refl, running, at, one)

  attach_new-Ended :
      (unset : I) (id : ℕ) (p : Pointer) (n : Notifier) (w : W)
      → n.is_shutdown ≡ false
      → (os.shmat id w).0 ≡ p
      → Ended w (attach_new os unset id p n (os.shmat id w).1)
  unfolding attach_new
  attach_new-Ended unset id failed n w running e =
      d.rmid_same id (os.shmat id w).1 ∙ d.shmat_failed id w e
  attach_new-Ended unset id null n w running e = absurd (d.shmat_not_null id w e)
  attach_new-Ended unset id (address base) n w running e =
      let (at, one) = d.shmat_address id base w e in
      let kept = d.store_same base base 0 (new_indicator unset) (os.shmat id w).1 in
      (base, id, refl, refl, running, kept.0 ∙ at, kept.1 ∙ one)

  open_only-Ended :
      (key : ℕ) (n : Notifier) (w : W) → n.is_shutdown ≡ false → Ended w (open_only os key n w)
  unfolding open_only get_only
  open_only-Ended key n w running = elim (Option-cases (os.shmget key w)) [
    | inl e ↦ subst (λ o. Ended w (get_only os o n w)) (sym e) refl
    | inr (id, e) ↦
        subst (λ o. Ended w (get_only os o n w)) (sym e)
          (attach_only-Ended id (os.shmat id w).0 n w running refl)
  ]

  remove-attachments : (key : ℕ) (w : W) → d.attachments (remove os key w).1 ≡ d.attachments w
  unfolding remove remove_id
  remove-attachments key w = elim (Option-cases (os.shmget key w)) [
    | inl e ↦ rw e refl
    | inr (id, e) ↦ rw e (d.rmid_same id w)
  ]

  Ended-from :
      (w w' : W) (r : Bool × Notifier × W)
      → d.attachments w' ≡ d.attachments w
      → Ended w' r
      → Ended w r
  Ended-from w w' (false, n, v) e h = h ∙ e
  Ended-from w w' (true, n, v) e (base, id, p, q, s, at, one) =
      (base, id, p, q, s, at, one ∙ ap (λ k. k + 1) e)

  module _ (unset : I) (key size : ℕ) where
    -- What a turn of the loop does with the answer of `shmget`
    abbrev turn : ℕ → Notifier → W → Got → Bool × Notifier × W
    turn tries n w' (created id) = attach_new os unset id (os.shmat id w').0 n (os.shmat id w').1
    turn tries n w' (refused einval) =
        create os unset key size tries (record n { indicator = null; managed_shm = null })
          (remove os key (detach os n.managed_shm w')).1
    turn tries n w' (refused eexist) = open_only os key n w'
    turn tries n w' (refused other_error) = (false, n, w')

    create-turn :
        (tries : ℕ) (n : Notifier) (w : W) (got : Got)
        → (os.shmget_excl key size w).0 ≡ got
        → create os unset key size (suc tries) n w ≡ turn tries n (os.shmget_excl key size w).1 got
    unfolding create reset
    create-turn tries n w (created id) e = rw (e, create) refl
    create-turn tries n w (refused einval) e = rw (e, create) refl
    create-turn tries n w (refused eexist) e = rw (e, create) refl
    create-turn tries n w (refused other_error) e = rw (e, create) refl

    turn-Ended :
        (tries : ℕ) (n : Notifier) (w : W) (got : Got)
        → n.is_shutdown ≡ false
        → n.managed_shm ≡ null
        → ((w' : W)
            → Ended w' (
                create os unset key size tries
                  (record n { indicator = null; managed_shm = null })
                  w'))
        → Ended w (turn tries n w got)
    unfolding detach
    turn-Ended tries n w (created id) running unmapped later =
        attach_new-Ended unset id (os.shmat id w).0 n w running refl
    turn-Ended tries n w (refused einval) running unmapped later =
        let cut : detach os n.managed_shm w ≡ w = ap (λ p. detach os p w) unmapped in
        let w' = (remove os key (detach os n.managed_shm w)).1 in
        Ended-from w w' (turn tries n w (refused einval))
          (remove-attachments key (detach os n.managed_shm w) ∙ ap d.attachments cut) (later w')
    turn-Ended tries n w (refused eexist) running unmapped later = open_only-Ended key n w running
    turn-Ended tries n w (refused other_error) running unmapped later = refl

    create-Ended :
        (tries : ℕ) (n : Notifier) (w : W)
        → n.is_shutdown ≡ false
        → n.managed_shm ≡ null
        → Ended w (create os unset key size tries n w)
    unfolding create
    create-Ended zero n w running unmapped = refl
    create-Ended (suc tries) n w running unmapped =
        let (got, w') = os.shmget_excl key size w in
        subst (Ended w) (sym (create-turn tries n w got refl)) (
          Ended-from w w' (turn tries n w' got) (d.shmget_same key size w) (
            turn-Ended tries n w' got running unmapped (λ v.
              create-Ended tries (record n { indicator = null; managed_shm = null }) v running
                refl)))

  -- A notifier that the constructor made, and what its `Shutdown` leaves
  abbrev pub ClosesAgain : W → Option (Notifier × W) → Type 0
  ClosesAgain w made =
      (n : Notifier) × (w' : W) × (made ≡ some (n, w'))
      × ((shutdown os n w').0.is_shutdown ≡ true)
      × (d.attachments (shutdown os n w').1 ≡ d.attachments w)

  started-ClosesAgain : (w : W) (r : Bool × Notifier × W) → Ended w r → ClosesAgain w (started os r)
  unfolding started shutdown reset detach indicator_at
  started-ClosesAgain w (false, n, w') h = (record n { is_shutdown = true }, w', refl, refl, h)
  started-ClosesAgain w (true, n, w') (base, id, mapped, placed, running, at, one) =
      let m = record n { next_seq = (os.load base w').next_seq } in
      let closed = record m { is_shutdown = true; indicator = null; managed_shm = null } in
      let steps : shutdown os m w' ≡ (closed, os.shmdt (address base) w') =
        ap (λ b. if b then (m, w') else (closed, detach os n.managed_shm w')) running
        ∙ ap (λ p. (closed, detach os p w')) mapped in
      (
        m,
        w',
        ap (λ p. indicator_at os p w' >>= λ ind. some (record n { next_seq = ind.next_seq }, w'))
            placed,
        ap (λ r. r.0.is_shutdown) steps,
        ap (λ r. d.attachments r.1) steps ∙ omega (arith, d.shmdt_address id base w' at, one),
      )

  -- The constructor of a notifier ends on every branch, with no read through a pointer that is not an address,
  -- and `Shutdown` of what it made leaves as many addresses attached as there were before, whether `Init`
  -- succeeded or not.
  pub shutdown-new_notifier :
      (unset : I) (key size : ℕ) (w : W)
      → (n : Notifier) × (w' : W) × (new_notifier os unset key size w ≡ some (n, w'))
        × ((shutdown os n w').0.is_shutdown ≡ true)
        × (d.attachments (shutdown os n w').1 ≡ d.attachments w)
  unfolding new_notifier init
  shutdown-new_notifier unset key size w =
      let members : Notifier = record {
        managed_shm = null;
        indicator = null;
        next_seq = 0;
        is_shutdown = false;
      } in
      started-ClosesAgain w (init os unset key size members w)
        (create-Ended unset key size 2 members w refl refl)
