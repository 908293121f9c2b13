-- ===== src/Tests/Memory.antt =====
-- Segments and notifiers in shared memory at fixed inputs.
use hnu_middleware.Base.{
  Bool, ℕ, ◌+◌, ◌-◌, ◌*◌, ◌≤◌, ◌≡◌, ◌≢◌, refl, ap, subst, true, false, [], ◌∷◌, Option, none, some,
  update, ℕ_discrete, arith,
}
use mathlib.Core.Option.{some-injective}
use hnu_middleware.Shm.Conf.{
  conf_of, default_conf, get_ceiling_message_size, get_block_num, get_block_buf_size,
}
use hnu_middleware.Shm.Memory.Pointers.{address}
use hnu_middleware.Shm.Memory.System.{System, created, refused, eexist, remove_id}
use hnu_middleware.Shm.Memory.{
  Sizes, Contents, Members, forget, new_segment, blocks_address, buf_address,
}
use hnu_middleware.Shm.Memory.Layout.{buf_address-fits}
use hnu_middleware.Shm.Memory.Xsi.{open_or_create, create, open_only, attach_new}
use hnu_middleware.Shm.Memory.Xsi.Opening.{OpenAt}
use hnu_middleware.Shm.Memory.Xsi.Agreement.{open_or_create-open_only}
use hnu_middleware.Shm.Memory.Xsi.Balance.{open_or_create-balance, Balanced}
use hnu_middleware.Shm.Memory.Xsi.Calls.{ready_to_write, ready_to_read}
use hnu_middleware.Shm.Memory.Xsi.Regrown.{OpenOn, ready_to_write-ready_to_read}
use hnu_middleware.Shm.Memory.Xsi.{remove}
use hnu_middleware.Shm.Memory.Xsi.Faults.{ready_to_write-faults}
use hnu_middleware.Shm.Memory.Objects
use hnu_middleware.Shm.Memory.Objects.{Objects as Calls}
use hnu_middleware.Shm.Memory.Posix
use hnu_middleware.Shm.Memory.Posix.Balance.{open_or_create-clean, mapped_by}
use hnu_middleware.Shm.Memory.Posix.Buffers.{open_or_create-no_buffers}
use hnu_middleware.Shm.Notifier.{Indicator}
use hnu_middleware.Shm.Memory.Indicators.{
  Notifier, new_notifier, notify_with, listen_with, shutdown,
}
use hnu_middleware.Shm.Memory.Indicators.Heard.{notifier_at, new_notifier-hears}
use hnu_middleware.Shm.Memory.Indicators.Closing.{shutdown-new_notifier}
use hnu_middleware.Tests.SystemV.{Machine, machine, documented, not_null, not_failed}

abbrev sizes : Sizes
sizes = record { state = 32; block = 32 }

buf_address-fits_example :
    let conf = conf_of 20000 in
    (blocks_address sizes 4096 + conf.block_num * sizes.block ≤ buf_address sizes conf 4096 3)
    × (buf_address sizes conf 4096 3 + conf.block_buf_size ≤ buf_address sizes conf 4096 5)
    × (buf_address sizes conf 4096 5 + conf.block_buf_size ≤ 4096 + conf.managed_shm_size)
unfolding conf_of get_ceiling_message_size get_block_num
buf_address-fits_example =
    buf_address-fits sizes 20000 4096 3 5 (omega arith) (omega arith) (omega arith) (omega arith)

abbrev nothing : Contents
nothing = record {
  state = record { need_remap = false; seq = 0; reference_count = 0 };
  ceiling_msg_size = 0;
  locks = λ i. 0;
}

-- A system without shared memory
abbrev empty : Machine Contents
empty = record { keys = λ k. none; cells = λ id. nothing; sizes = λ id. 0; maps = [] }

abbrev os : System (Machine Contents) Contents
os = machine nothing

abbrev key : ℕ
key = 77

open_or_create-open_only_example :
    let (made, x', w') = open_or_create os sizes key new_segment empty in
    let (opened, y', v) = open_only os sizes key new_segment w' in
    OpenAt sizes 1 new_segment.conf (made, x')
    × OpenAt sizes 3 new_segment.conf (opened, y')
    × (new_segment.conf.managed_shm_size ≤ (documented nothing).size 1 v)
    × (((documented nothing).contents 1 v).locks 7 ≡ 0)
    × (((documented nothing).contents 1 v).state.reference_count ≡ 2)
unfolding open_or_create create attach_new new_segment default_conf conf_of get_ceiling_message_size
    get_block_num get_block_buf_size ℕ_discrete
open_or_create-open_only_example =
    open_or_create-open_only os (documented nothing) sizes 16384 key 1 1 3 7 new_segment new_segment
      empty (omega arith) refl refl refl refl refl refl (omega arith)

open_or_create-balance_example :
    Balanced (documented nothing) empty (open_or_create os sizes key new_segment empty)
unfolding new_segment
open_or_create-balance_example =
    open_or_create-balance os (documented nothing) sizes key new_segment empty refl refl

-- The writer and a reader have the memory 1, for messages of up to 16 KiB, open at 10 and at 20.
abbrev opened : Machine Contents
opened = record {
  keys = update (λ k. none) key (some 1);
  cells = λ id. record nothing { ceiling_msg_size = 16384 };
  sizes = λ id. 9442304;
  maps = (10, 1) ∷ (20, 1) ∷ [];
}

abbrev open_at : ℕ → Members
open_at base = record new_segment { init = true; state = address base; managed_shm = address base }

ready_to_write-ready_to_read_example :
    (x' y' : Members) × (w' v : Machine Contents) × (ready_to_write os sizes key 20000
        (open_at 10)
        opened
      ≡ some (true, x', w'))
    × OpenOn os (documented nothing) sizes 22 22 (conf_of 20000) x' w'
    × (ready_to_read os sizes key 5 (open_at 20) w' ≡ some (true, y', v))
    × OpenOn os (documented nothing) sizes 22 45 (conf_of 20000) y' v
unfolding new_segment default_conf conf_of get_ceiling_message_size get_block_num remove remove_id
    open_or_create forget create attach_new documented ℕ_discrete
ready_to_write-ready_to_read_example =
    ready_to_write-ready_to_read os (documented nothing) sizes key 10 20 22 45 5 20000 1 22
      (open_at 10) (open_at 20) opened (omega arith)
      (record { is_open = refl; state_at = refl; mapped_at = refl })
      (record { is_open = refl; state_at = refl; mapped_at = refl }) (omega arith) refl refl refl
      (omega arith) (omega arith) refl refl refl

-- The memory 1 is marked, and no key leads to it.
abbrev removed : Machine Contents
removed = record opened {
  keys = λ k. none;
  cells =
      λ id. record nothing { state = record { need_remap = true; seq = 0; reference_count = 2 } };
}

ready_to_write-faults_example : ready_to_write os sizes key 20000 (open_at 10) removed ≡ none
unfolding new_segment default_conf conf_of get_ceiling_message_size
ready_to_write-faults_example =
    ready_to_write-faults os sizes key 10 20000 (open_at 10) removed
      (record { is_open = refl; state_at = refl; mapped_at = refl }) refl refl (omega arith)

-- Infos are numbers here.
abbrev ring : Indicator ℕ
ring = record { next_seq = 6; infos = λ i. 0; seqs = λ i. 0 }

abbrev rings : System (Machine (Indicator ℕ)) (Indicator ℕ)
rings = machine ring

abbrev with_ring : Machine (Indicator ℕ)
with_ring = record {
  keys = update (λ k. none) key (some 1);
  cells = λ id. ring;
  sizes = λ id. 200000;
  maps = (10, 1) ∷ [];
}

new_notifier-hears_example :
    (n n' : Notifier) × (w1 w2 : Machine (Indicator ℕ)) × (new_notifier rings 0 key 200000 with_ring
      ≡ some (n, w1))
    × (notify_with rings 42 (notifier_at 10 0) w1 ≡ some (true, w2))
    × (listen_with rings ((false, w2) ∷ []) 0 n ≡ some (some (42, n')))
unfolding documented ℕ_discrete
new_notifier-hears_example =
    new_notifier-hears rings (documented ring) 0 42 key 200000 1 10 12 0 (notifier_at 10 0)
      with_ring [] refl refl refl refl refl refl (omega arith)

shutdown-new_notifier_example :
    (n : Notifier) × (w' : Machine (Indicator ℕ)) × (new_notifier rings 0 key 200000 with_ring
      ≡ some (n, w'))
    × ((shutdown rings n w').0.is_shutdown ≡ true)
    × ((documented ring).attachments (shutdown rings n w').1
        ≡ (documented ring).attachments with_ring)
shutdown-new_notifier_example = shutdown-new_notifier rings (documented ring) 0 key 200000 with_ring

-- POSIX memory: which descriptors are open, and how many addresses are mapped. It gives the descriptor 3
-- or none, and its contents stay as they are.
record Desk : Type 0 where
  fds : ℕ → Bool
  count : ℕ

abbrev opened_3 : Bool → Desk → Option ℕ × Desk
opened_3 true w = (none, w)
opened_3 false w = (some 3, record w { fds = update w.fds 3 true })

abbrev files : Calls Desk Contents
files = record {
  shm_open_excl = λ name w. (refused eexist, w);
  shm_open = λ name w. opened_3 (w.fds 3) w;
  ftruncate = λ fd size w. (true, w);
  fstat = λ fd w. some 4096;
  mmap = λ size fd w. (address 1, record w { count = w.count + 1 });
  close = λ fd w. record w { fds = update w.fds fd false };
  munmap = λ p size w. record w { count = w.count - 1 };
  shm_unlink = λ name w. (true, w);
  load = λ base w. nothing;
  store = λ base c w. w;
}

refused_not_created : (fd : ℕ) → refused eexist ≢ created fd
refused_not_created fd e = cc

opened_3-some :
    (b : Bool) (fd : ℕ) (w : Desk)
    → w.fds 3 ≡ b
    → (opened_3 b w).0 ≡ some fd
    → (w.fds fd ≡ false) × ((opened_3 b w).1.fds ≡ update w.fds fd true)
opened_3-some true fd w was e = cc
opened_3-some false fd w was e =
    let three : ◌≡◌ {A = ℕ} 3 fd = some-injective 3 fd e in
    (subst (λ k. w.fds k ≡ false) three was, ap (λ k. update w.fds k true) three)

opened_3-none : (b : Bool) (w : Desk) → (opened_3 b w).0 ≡ none → (opened_3 b w).1.fds ≡ w.fds
opened_3-none true w e = refl
opened_3-none false w e = cc

opened_3-count : (b : Bool) (w : Desk) → (opened_3 b w).1.count ≡ w.count
opened_3-count true w = refl
opened_3-count false w = refl

abbrev files_documented : Objects.Documented files
files_documented = record {
  is_open = λ w. w.fds;
  mappings = λ w. w.count;
  excl_opened = λ name fd w e. absurd (refused_not_created fd e);
  excl_refused = λ name e w p. refl;
  excl_mappings = λ name w. refl;
  open_found = λ name fd w e. opened_3-some (w.fds 3) fd w refl e;
  open_missing = λ name w e. opened_3-none (w.fds 3) w e;
  open_mappings = λ name w. opened_3-count (w.fds 3) w;
  ftruncate_same = λ fd size w. (refl, refl);
  mmap_not_null = λ size fd w e. not_null 1 e;
  mmap_failed = λ size fd w e. absurd (not_failed 1 e);
  mmap_address = λ size fd base w e. refl;
  mmap_same = λ size fd w. refl;
  close_lem = λ fd w. (refl, refl);
  unlink_same = λ name w. (refl, refl);
  store_same = λ base c w. (refl, refl);
}

abbrev desk : Desk
desk = record { fds = λ fd. false; count = 3 }

open_or_create-clean_example :
    ((Posix.open_or_create files sizes 5 new_segment desk).2.fds ≡ desk.fds)
    × ((Posix.open_or_create files sizes 5 new_segment desk).2.count
        ≡ 3 + mapped_by (Posix.open_or_create files sizes 5 new_segment desk).0)
unfolding new_segment
open_or_create-clean_example =
    open_or_create-clean files files_documented sizes 5 new_segment desk refl

open_or_create-no_buffers_example :
    (Posix.open_or_create files sizes 5 new_segment desk).1.block_buf_addrs 3 ≡ none
unfolding new_segment
open_or_create-no_buffers_example =
    open_or_create-no_buffers files sizes 5 3 new_segment desk refl refl refl
