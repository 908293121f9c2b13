-- ===== src/Tests/Locks.antt =====
-- The locks in states that two threads reach.
use hnu_middleware.Base.{◌-◌, ◌^◌, update, ℕ_discrete, ◌≡◌, refl, true, inl, inr, arith}
use hnu_middleware.Locks.Counting.{nothing}
use hnu_middleware.Locks.Block
use hnu_middleware.Locks.Block.{Reach-exclusive_block, Reach-counts, try_lock_for_read-ends}
use hnu_middleware.Locks.Atomic
use hnu_middleware.Locks.Atomic.Safety.{Reach-exclusive_rw_lock, ready-no_writer}

-- Thread 0 writes.
abbrev written : Block.System
written = record { lock_num = 2 ^ 32 - 1; pc = update (λ i. Block.idle) 0 Block.writing }

written-Reach : Block.Reach 2 written
written-Reach =
    Block.next Block.start
      (Block.step 0 (2 ^ 32 - 1) Block.writing (omega arith) (Block.write_win refl))

Reach-exclusive_block_example : Block.hold (written.pc 1) ≡ nothing
unfolding Block.hold ℕ_discrete
Reach-exclusive_block_example =
    Reach-exclusive_block 2 (omega arith) written 0 1 written-Reach (omega arith) (omega arith)
      (omega arith) refl

-- Thread 1 is before its compare-exchange, which thread 0 has made wrong.
abbrev reading_too : Block.System
reading_too = record { lock_num = 0; pc = update (λ i. Block.idle) 1 (Block.read_cas 0 0) }

reading_too-Reach : Block.Reach 2 reading_too
reading_too-Reach =
    Block.next Block.start
      (Block.step 1 0 (Block.read_cas 0 0) (omega arith) (Block.read_begin (omega arith)))

-- Thread 0 waits to write.
abbrev waiting : Atomic.System
waiting = record {
  shared = record { lock_num = 0; write_lock_wait_num = 1 };
  pc = update (λ i. Atomic.idle) 0 Atomic.write_cas;
}

waiting-Reach : Atomic.Reach true 2 waiting
waiting-Reach = Atomic.next Atomic.start (
    Atomic.step 0 (record { lock_num = 0; write_lock_wait_num = 1 }) Atomic.write_cas (omega arith)
      Atomic.write_begin)

abbrev entered : Atomic.System
entered = record {
  shared = record { lock_num = 2 ^ 32 - 1; write_lock_wait_num = 1 };
  pc = update waiting.pc 0 Atomic.write_leave;
}

entered-Reach : Atomic.Reach true 2 entered
unfolding ℕ_discrete
entered-Reach = Atomic.next waiting-Reach (
    Atomic.step 0 (record { lock_num = 2 ^ 32 - 1; write_lock_wait_num = 1 }) Atomic.write_leave
      (omega arith) (Atomic.write_win refl))

Reach-exclusive_rw_lock_example : Atomic.hold (entered.pc 1) ≡ nothing
unfolding Atomic.hold ℕ_discrete
Reach-exclusive_rw_lock_example =
    Reach-exclusive_rw_lock true 2 (omega arith) entered 0 1 entered-Reach (omega arith)
      (omega arith) (omega arith) refl

not_waiting : ¬ (Atomic.NeedWait true 0 0)
not_waiting (inl h) = omega arith
not_waiting (inr h) = omega (arith, h.1)

ready-no_writer_example : Atomic.waits (Atomic.init.pc 1) ≡ 0
ready-no_writer_example =
    ready-no_writer true 2 (omega arith) Atomic.init 0 1 refl Atomic.start (omega arith) not_waiting
