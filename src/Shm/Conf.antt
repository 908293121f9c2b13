-- ===== src/Shm/Conf.antt =====
-- `ShmConf` (transport/shm/core/shm_conf.cpp): how many blocks a segment has, and of what size, for
-- the messages it is to hold.
use hnu_middleware.Base.{ℕ, ◌+◌, ◌*◌, ◌^◌, ◌%◌, ◌≤◌, ◌<◌, ◌≡◌, leb, ◌==◌, if◌then◌else◌, arith}

abbrev pub extra_size : ℕ
extra_size = 1024 * 4

abbrev pub state_size : ℕ
state_size = 1024

abbrev pub block_size : ℕ
block_size = 1024

abbrev pub message_info_size : ℕ
message_info_size = 1024

abbrev pub message_size_16k : ℕ
message_size_16k = 1024 * 16

abbrev pub message_size_128k : ℕ
message_size_128k = 1024 * 128

abbrev pub message_size_1m : ℕ
message_size_1m = 1024 * 1024

abbrev pub message_size_8m : ℕ
message_size_8m = 1024 * 1024 * 8

abbrev pub message_size_16m : ℕ
message_size_16m = 1024 * 1024 * 16

abbrev pub message_size_more : ℕ
message_size_more = 1024 * 1024 * 32

pub record ShmConf : Type 0 where
  pub ceiling_msg_size : ℕ
  pub block_buf_size : ℕ
  pub block_num : ℕ
  pub managed_shm_size : ℕ

unfoldable pub get_ceiling_message_size : ℕ → ℕ
get_ceiling_message_size real_msg_size =
    if leb real_msg_size message_size_16k
    then message_size_16k
    else if leb real_msg_size message_size_128k
    then message_size_128k
    else if leb real_msg_size message_size_1m
    then message_size_1m
    else if leb real_msg_size message_size_8m
    then message_size_8m
    else if leb real_msg_size message_size_16m
    then message_size_16m
    else message_size_more

unfoldable pub get_block_buf_size : ℕ → ℕ
get_block_buf_size ceiling_msg_size = (ceiling_msg_size + message_info_size) % 2 ^ 64

-- The `switch`, with 0 for an unknown ceiling.
unfoldable pub get_block_num : ℕ → ℕ
get_block_num ceiling_msg_size =
    if ceiling_msg_size == message_size_16k
    then 512
    else if ceiling_msg_size == message_size_128k
    then 128
    else if ceiling_msg_size == message_size_1m
    then 64
    else if ceiling_msg_size == message_size_8m
    then 32
    else if ceiling_msg_size == message_size_16m
    then 16
    else if ceiling_msg_size == message_size_more
    then 8
    else 0

-- `Update`
unfoldable pub conf_of : ℕ → ShmConf
conf_of real_msg_size =
    let ceiling = get_ceiling_message_size real_msg_size in
    let buf = get_block_buf_size ceiling in
    let num = get_block_num ceiling in
    record {
      ceiling_msg_size = ceiling;
      block_buf_size = buf;
      block_num = num;
      managed_shm_size = (extra_size + state_size + (block_size + buf) * num) % 2 ^ 64;
    }

-- `ShmConf()`
unfoldable pub default_conf : ShmConf
default_conf = conf_of message_size_16k

-- A segment for messages of a size up to 32 MiB has between 8 and 512 blocks; the buffer of each
-- holds such a message and 1024 bytes behind it; and the size of the segment is that of its parts,
-- with no wrap-around, below 2^29.
pub conf_of-fits :
    (real_msg_size : ℕ)
    → real_msg_size ≤ message_size_more
    → (real_msg_size + message_info_size ≤ (conf_of real_msg_size).block_buf_size)
      × (8 ≤ (conf_of real_msg_size).block_num)
      × ((conf_of real_msg_size).block_num ≤ 512)
      × ((conf_of real_msg_size).managed_shm_size
          ≡ extra_size
            + state_size
            + (block_size + (conf_of real_msg_size).block_buf_size)
              * (conf_of real_msg_size).block_num)
      × ((conf_of real_msg_size).managed_shm_size < 2 ^ 29)
unfolding conf_of get_ceiling_message_size get_block_buf_size get_block_num
conf_of-fits real_msg_size h = ground arith

-- A greater message size has a ceiling at least as high and at most as many blocks.
pub conf_of_mono :
    (a b : ℕ)
    → a ≤ b
    → ((conf_of a).ceiling_msg_size ≤ (conf_of b).ceiling_msg_size)
      × ((conf_of b).block_num ≤ (conf_of a).block_num)
unfolding conf_of get_ceiling_message_size get_block_num
conf_of_mono a b h = ground arith

-- The configuration for the ceiling of a size is the configuration for the size: an opener that knows
-- the ceiling alone finds the creator's layout.
pub conf_of-ceiling :
    (real_msg_size : ℕ) → conf_of ((conf_of real_msg_size).ceiling_msg_size) ≡ conf_of real_msg_size
unfolding conf_of get_ceiling_message_size
conf_of-ceiling real_msg_size = ground arith

-- No configuration has a buffer for a message above 32 MiB and 1024 bytes, the one made for it
-- included.
pub conf_of-overflow :
    (real_msg_size msg_size : ℕ)
    → message_size_more + message_info_size < msg_size
    → (conf_of real_msg_size).block_buf_size < msg_size
unfolding conf_of get_ceiling_message_size get_block_buf_size
conf_of-overflow real_msg_size msg_size h = ground arith

pub conf_of-room :
    (real_msg_size : ℕ)
    → ((conf_of real_msg_size).block_buf_size
        ≡ (conf_of real_msg_size).ceiling_msg_size + message_info_size)
      × ((conf_of real_msg_size).ceiling_msg_size ≤ message_size_more)
unfolding conf_of get_ceiling_message_size get_block_buf_size
conf_of-room real_msg_size = ground arith
