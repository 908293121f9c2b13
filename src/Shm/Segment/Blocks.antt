-- ===== src/Shm/Segment/Blocks.antt =====
-- Which blocks a segment hands out, and what their locks are then.
use hnu_middleware.Base.{
  ℕ, zero, suc, ◌+◌, ◌%◌, ◌^◌, ◌<◌, ◌≡◌, refl, ap, subst, ◌∙◌, Bool, true, false, some, update,
  update_self, if◌then◌else◌, leb, ltb, ◌⊎◌, inl, inr, arith,
}
use hnu_middleware.Locks.Block.{max_try_lock_times}
use hnu_middleware.Locks.Counting.{minus_one, increment, decrement, int_limit}
use hnu_middleware.Shm.Segment.{
  Segment, Memory, fetch_add_seq, try_lock_for_write, read_tries, try_lock_for_read,
  get_next_writable_block_index, acquire_block_to_read, release_read_block,
}

-- The place that the `k`-th turn of the loop tries
abbrev pub turn_index : Segment → ℕ → ℕ
turn_index s k = (s.state.seq + k) % 2 ^ 32 % s.conf.block_num

-- What the loop hands out: a block of the segment that was free, which it has locked for a writer,
-- with the other locks and the rest of the segment as they were.
pub record Handed (s : Segment) (index : ℕ) (s' : Segment) : Type 0 where
  pub below : index < s.conf.block_num
  pub was_free : s.locks index ≡ 0
  pub locked : s'.locks ≡ update s.locks index minus_one
  pub same_init : s'.init ≡ s.init
  pub same_conf : s'.conf ≡ s.conf
  pub same_remap : s'.state.need_remap ≡ s.state.need_remap

abbrev added : Segment → Segment
added s = record s { state = fetch_add_seq 1 s.state }

-- The spurious failures of the turns after the first one
abbrev later : (ℕ → Bool) → ℕ → Bool
later lost k = lost (suc k)

next_index-pass :
    (fuel : ℕ) (lost : ℕ → Bool) (s : Segment)
    → (try_lock_for_write (lost 0) (s.locks (s.state.seq % s.conf.block_num))).0 ≡ false
    → get_next_writable_block_index (suc fuel) lost s
      ≡ get_next_writable_block_index fuel (later lost) (added s)
unfolding get_next_writable_block_index
next_index-pass fuel lost s taken = rw (taken) refl

next_index-stop :
    (fuel : ℕ) (lost : ℕ → Bool) (s : Segment)
    → try_lock_for_write (lost 0) (s.locks (s.state.seq % s.conf.block_num)) ≡ (true, minus_one)
    → get_next_writable_block_index (suc fuel) lost s
      ≡ some (
        s.state.seq % s.conf.block_num,
        record (added s) { locks = update s.locks (s.state.seq % s.conf.block_num) minus_one },
      )
unfolding get_next_writable_block_index
next_index-stop fuel lost s won = rw (won) refl

-- `TryLockForWrite` fails, or it takes a block that was free; and where the compare-exchange does not
-- fail on a free block, it takes one.
write_lost_or_won :
    (lost : Bool) (lock_num : ℕ)
    → ((try_lock_for_write lost lock_num).0 ≡ false)
      ⊎ ((lock_num ≡ 0) × (try_lock_for_write lost lock_num ≡ (true, minus_one)))
unfolding try_lock_for_write
write_lost_or_won true zero = inl refl
write_lost_or_won true (suc n) = inl (ground arith)
write_lost_or_won false zero = inr (refl, refl)
write_lost_or_won false (suc n) = inl (ground arith)

write_wins :
    (lost : Bool) (lock_num : ℕ)
    → lost ≡ false
    → lock_num ≡ 0
    → try_lock_for_write lost lock_num ≡ (true, minus_one)
unfolding try_lock_for_write
write_wins lost lock_num wins free = rw (wins, free) refl

-- What `get_next_writable_block_index` gives where it ends.
abbrev Found : ℕ → (ℕ → Bool) → Segment → Type 0
Found fuel lost s =
    (index : ℕ) × (s' : Segment) × (get_next_writable_block_index fuel lost s ≡ some (index, s'))
    × Handed s index s'

found_here :
    (fuel : ℕ) (lost : ℕ → Bool) (s : Segment)
    → 0 < s.conf.block_num
    → s.locks (s.state.seq % s.conf.block_num) ≡ 0
    → try_lock_for_write (lost 0) (s.locks (s.state.seq % s.conf.block_num)) ≡ (true, minus_one)
    → Found (suc fuel) lost s
unfolding fetch_add_seq
found_here fuel lost s some_blocks now won = (
  s.state.seq % s.conf.block_num,
  record (added s) { locks = update s.locks (s.state.seq % s.conf.block_num) minus_one },
  next_index-stop fuel lost s won,
  record {
    below = omega arith;
    was_free = now;
    locked = refl;
    same_init = refl;
    same_conf = refl;
    same_remap = refl;
  },
)

found_later :
    (fuel : ℕ) (lost : ℕ → Bool) (s : Segment)
    → 0 < s.conf.block_num
    → Found fuel (later lost) (added s)
    → Found (suc fuel) lost s
unfolding fetch_add_seq
found_later fuel lost s some_blocks (index, s', e, h) =
    elim (write_lost_or_won (lost 0) (s.locks (s.state.seq % s.conf.block_num))) [
      | inr (now, won) ↦ found_here fuel lost s some_blocks now won
      | inl taken ↦ (
        index,
        s',
        next_index-pass fuel lost s taken ∙ e,
        record {
          below = h.below;
          was_free = h.was_free;
          locked = h.locked;
          same_init = h.same_init;
          same_conf = h.same_conf;
          same_remap = h.same_remap;
        },
      )
    ]

-- In a segment that has a block, and whose number `seq` is below 2^32, the loop of
-- `GetNextWritableBlockIndex` ends if, on one of its turns within the fuel, the place that it tries is
-- free and the weak compare-exchange does not fail spuriously. It ends with a block of the segment
-- that was free, which it has locked for a writer, and with all other locks as they were.
pub next_index-total :
    (fuel k : ℕ) (lost : ℕ → Bool) (s : Segment)
    → k < fuel
    → lost k ≡ false
    → s.state.seq < 2 ^ 32
    → 0 < s.conf.block_num
    → s.locks (turn_index s k) ≡ 0
    → (index : ℕ) × (s' : Segment) × (get_next_writable_block_index fuel lost s ≡ some (index, s'))
      × Handed s index s'
unfolding fetch_add_seq
next_index-total zero k lost s lt wins seq some_blocks free = ground arith
next_index-total (suc fuel) zero lost s lt wins seq some_blocks free =
    let here : (s.state.seq + 0) % 2 ^ 32 ≡ s.state.seq = omega arith in
    let now = subst (λ t. s.locks (t % s.conf.block_num) ≡ 0) here free in
    found_here fuel lost s some_blocks now
      (write_wins (lost 0) (s.locks (s.state.seq % s.conf.block_num)) wins now)
next_index-total (suc fuel) (suc k) lost s lt wins seq some_blocks free =
    let turn : (s.state.seq + suc k) % 2 ^ 32 ≡ ((s.state.seq + 1) % 2 ^ 32 + k) % 2 ^ 32 =
      omega arith in
    found_later fuel lost s some_blocks (
      next_index-total fuel k (later lost) (added s) (omega arith) wins (omega arith) some_blocks
        (subst (λ t. s.locks (t % s.conf.block_num) ≡ 0) turn free))

lt→ltb : (a b : ℕ) → a < b → ltb a b ≡ true
lt→ltb a b h = ground arith

either : {A : Type 0} (b : Bool) (a : A) → (if b then a else a) ≡ a
either true a = refl
either false a = refl

read_tries-win :
    (left j : ℕ) (lost : ℕ → Bool) (lock_num : ℕ)
    → j < left
    → lost j ≡ false
    → read_tries left lost lock_num ≡ (true, increment lock_num)
unfolding read_tries
read_tries-win zero j lost lock_num lt wins = ground arith
read_tries-win (suc left) zero lost lock_num lt wins = rw (wins) refl
read_tries-win (suc left) (suc j) lost lock_num lt wins =
    ap (λ r. if lost 0 then r else (true, increment lock_num))
      (read_tries-win left j (later lost) lock_num (omega arith) wins)
    ∙ either (lost 0) (true, increment lock_num)

-- A block that no writer has is locked where one of the five tries does not fail spuriously.
read_wins :
    (j : ℕ) (lost : ℕ → Bool) (lock_num : ℕ)
    → j < max_try_lock_times
    → lost j ≡ false
    → lock_num < int_limit
    → try_lock_for_read lost lock_num ≡ (true, increment lock_num)
unfolding try_lock_for_read
read_wins j lost lock_num few wins free =
    rw (lt→ltb lock_num int_limit free) (read_tries-win max_try_lock_times j lost lock_num few wins)

pub acquire-eq :
    (m : Memory) (lost : ℕ → Bool) (j index : ℕ) (s : Segment)
    → j < max_try_lock_times
    → lost j ≡ false
    → s.init ≡ true
    → s.state.need_remap ≡ false
    → index < s.conf.block_num
    → s.locks index < int_limit
    → acquire_block_to_read m lost index s
      ≡ (true, record s { locks = update s.locks index (increment (s.locks index)) })
unfolding acquire_block_to_read
acquire-eq m lost j index s tries wins open_now mapped below few =
    let outside : leb s.conf.block_num index ≡ false = ground arith in
    rw (open_now, mapped, outside, read_wins j lost (s.locks index) tries wins few) refl

pub release-eq :
    (index : ℕ) (s : Segment)
    → index < s.conf.block_num
    → release_read_block index s
      ≡ record s { locks = update s.locks index (decrement (s.locks index)) }
unfolding release_read_block
release-eq index s below = ground arith

release-locks :
    (index : ℕ) (s : Segment)
    → index < s.conf.block_num
    → (release_read_block index s).locks index ≡ decrement (s.locks index)
release-locks index s below =
    ap (λ t. t.locks index) (release-eq index s below)
    ∙ update_self s.locks index (decrement (s.locks index))

-- On an open segment that needs no new mapping, `AcquireBlockToRead` of a block that no writer has
-- succeeds where one of its tries does not fail spuriously, and adds one reader to its lock; and `ReleaseReadBlock` of the block then gives its lock back as
-- it was.
pub release-acquire :
    (m : Memory) (lost : ℕ → Bool) (j index : ℕ) (s : Segment)
    → j < max_try_lock_times
    → lost j ≡ false
    → s.init ≡ true
    → s.state.need_remap ≡ false
    → index < s.conf.block_num
    → s.locks index + 1 < int_limit
    → (s' : Segment) × (acquire_block_to_read m lost index s ≡ (true, s'))
      × (s'.locks index ≡ s.locks index + 1)
      × ((release_read_block index s').locks index ≡ s.locks index)
release-acquire m lost j index s tries wins open_now mapped below few = (
  record s { locks = update s.locks index (increment (s.locks index)) },
  acquire-eq m lost j index s tries wins open_now mapped below (omega arith),
  update_self s.locks index (increment (s.locks index)) ∙ omega arith,
  release-locks index (record s { locks = update s.locks index (increment (s.locks index)) }) below
      ∙ ap decrement (update_self s.locks index (increment (s.locks index)))
      ∙ omega arith,
)
