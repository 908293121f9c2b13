-- ===== src/Tests/Segment.antt =====
-- The blocks of a segment at fixed inputs.
use hnu_middleware.Base.{ℕ, ◌≡◌, refl, Bool, true, false, some, ◌==◌, update, ℕ_discrete, arith}
use hnu_middleware.Shm.Conf.{conf_of, get_ceiling_message_size, get_block_num}
use hnu_middleware.Shm.Segment.{Segment, Memory, get_next_writable_block_index}
use hnu_middleware.Shm.Segment.Blocks.{Handed, next_index-total}

-- Block 0 is read by one reader.
abbrev one_read : Segment
one_read = record {
  init = true;
  conf = conf_of 100;
  state = record { need_remap = false; seq = 0; reference_count = 1 };
  locks = update (λ i. 0) 0 1;
}

abbrev memory : Memory
memory = record {
  open_or_create = λ s. (true, s);
  open_only = λ s. (true, s);
  remove = λ s. (true, s);
  reset = λ s. s;
}

-- The compare-exchange of the second turn fails on a free block.
abbrev lost_once : ℕ → Bool
lost_once k = k == 1

next_index-total_example :
    (index : ℕ) × (s' : Segment) × (get_next_writable_block_index 4 lost_once one_read
      ≡ some (index, s'))
    × Handed one_read index s'
unfolding conf_of get_ceiling_message_size get_block_num ℕ_discrete
next_index-total_example =
    next_index-total 4 2 lost_once one_read (omega arith) refl (omega arith) (omega arith) refl
