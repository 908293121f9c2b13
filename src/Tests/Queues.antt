-- ===== src/Tests/Queues.antt =====
-- The bounded queue of capacity 1 in states that its threads reach, and an object pool.
use hnu_middleware.Queues.Unbounded.{Queue, new_queue}
use hnu_middleware.Queues.Unbounded.Holds.{Holds}
use hnu_middleware.Queues.Unbounded.Refine.{
  QueueCall, enqueued, dequeued, asked, cleared, queue_calls, list_queue_calls, queue_calls-refines,
}
use hnu_middleware.Queues.Waits.{
  Round, timeout_block, empty_wait, turn_of, wait_with, Among, GivesUp, wait_with-GivesUp,
}
use hnu_middleware.Queues.Bounded.Waiting.{wait_call}
use hnu_middleware.Queues.Pool
use hnu_middleware.Queues.Pool.{
  Call, take_one, give_back, use_pool, use_all, get_object, new_pool, count, get_object-fresh,
}
use hnu_middleware.Base.{
  ℕ, ◌+◌, ◌<◌, ◌≤◌, ◌≡◌, ◌≢◌, ◌⊎◌, refl, List, [], ◌∷◌, true, false, none, some, length, take,
  ℕ_discrete, arith,
}
use hnu_middleware.Queues.Bounded
use hnu_middleware.Queues.Bounded.{
  System, Shared, Pc, get_index, u64, Reach, start, later, pick, init, size,
}
use hnu_middleware.Queues.Bounded.Waiting.{Turn}
use hnu_middleware.Queues.Bounded.Safety.{Reach-fifo}

room_left : get_index 3 (u64 (1 + 1)) ≢ get_index 3 0
unfolding get_index
room_left = omega arith

-- Thread 0 has enqueued 8.
unfoldable one_inside : (s : System ℕ) × Reach 3 5 s
unfolding ℕ_discrete
one_inside = (
  _,
  later
      (later
        (later
          (later (later (start (λ i. 0)) (pick 0 (Bounded.enq_begin 8)))
            (pick 0 (Bounded.enq_room room_left)))
          (pick 0 (Bounded.enq_win refl)))
        (pick 0 Bounded.store))
      (pick 0 (Bounded.commit_win refl)),
)

abbrev final : System ℕ
final = one_inside.0

Reach-fifo_example :
    (final.left ≡ take (length final.left) final.entered)
    × (length final.entered ≤ length final.left + 1)
    × (size final.mem + length final.left ≡ length final.entered)
Reach-fifo_example = Reach-fifo 1 5 (omega arith) (omega arith) one_inside.1

abbrev turns : List (Turn ℕ)
turns =
    record { break_all_wait = false; attempt = none; empty_wait = true }
    ∷ record { break_all_wait = true; attempt = none; empty_wait = true }
    ∷ []

abbrev calls : List Call
calls = take_one ∷ take_one ∷ give_back 0 ∷ []

get_object-fresh_example :
    (((get_object (use_all calls (new_pool 2, [])).0).0 ≡ none)
      × (count 1 (use_all calls (new_pool 2, [])).1 ≡ 1))
    ⊎ ((x : ℕ) × ((get_object (use_all calls (new_pool 2, [])).0).0 ≡ some x)
        × (x < 2)
        × (count x (use_all calls (new_pool 2, [])).1 ≡ 0))
get_object-fresh_example = get_object-fresh 2 calls 1 (omega arith)

calls-next : (get_object (use_all calls (new_pool 2, [])).0).0 ≡ some 0
unfolding get_object use_all use_pool new_pool Pool.link_objects Pool.put_free Pool.get_head
    Pool.release_object ℕ_discrete
calls-next = refl

abbrev some_calls : List (QueueCall ℕ)
some_calls = enqueued 5 ∷ enqueued 6 ∷ dequeued ∷ asked ∷ cleared ∷ dequeued ∷ []

queue_calls-refines_example :
    (r : Queue ℕ) × (queue_calls 9 0 some_calls (new_queue 0)
      ≡ some ((list_queue_calls some_calls []).0, r))
    × Holds r (list_queue_calls some_calls []).1
queue_calls-refines_example = queue_calls-refines 9 0 some_calls (omega arith)

-- A full queue, twice, and a second wait that ends by its timeout
abbrev two_rounds : List (Round ℕ)
two_rounds =
    record { break_all_wait = false; attempt = none; timed_out = false }
    ∷ record { break_all_wait = false; attempt = none; timed_out = true }
    ∷ []

wait_with-GivesUp_example : (r : Round ℕ) × Among r two_rounds × GivesUp (timeout_block 100) r
unfolding wait_with wait_call turn_of empty_wait
wait_with-GivesUp_example = wait_with-GivesUp (timeout_block 100) two_rounds refl
