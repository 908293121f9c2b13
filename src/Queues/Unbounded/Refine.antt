-- ===== src/Queues/Unbounded/Refine.antt =====
-- A run of calls on an `UnboundedQueue`, beside the same calls on a list.
use hnu_middleware.Base.{
  ℕ, ◌+◌, ◌%◌, ◌^◌, ◌<◌, ◌≤◌, ◌≡◌, refl, ap, ◌∙◌, List, [], ◌∷◌, ◌++◌, length, length-append,
  Option, none, some, ◌>>=◌, arith,
}
use hnu_middleware.Queues.Unbounded.{Queue, enqueue, dequeue, new_queue, clear}
use hnu_middleware.Queues.Unbounded.Chain.{dequeue_nothing}
use hnu_middleware.Queues.Unbounded.Holds.{
  Holds, enqueue-Holds, dequeue-Holds, clear-Holds, new_queue-Holds,
}

pub data QueueCall (A : Type 0) : Type 0 where
  enqueued : A → QueueCall A
  dequeued asked cleared : QueueCall A

-- What a call gives: nothing, the element if there was one, or the size
pub data Result (A : Type 0) : Type 0 where
  done : Result A
  taken : Option A → Result A
  counted : ℕ → Result A

module _ {A : Type 0} where
  -- A call on the queue, with the fuel of `Destroy` and the item of the nodes that `Reset` makes
  unfoldable pub call : ℕ → A → QueueCall A → Queue A → Option (Result A × Queue A)
  call fuel x (enqueued y) q = do r ← enqueue y q; some (done, r)
  call fuel x dequeued q = do (o, r) ← dequeue q; some (taken o, r)
  call fuel x asked q = some (counted q.size, q)
  call fuel x cleared q = do r ← clear fuel x q; some (done, r)

  unfoldable pub queue_calls :
      ℕ → A → List (QueueCall A) → Queue A → Option (List (Result A) × Queue A)
  queue_calls fuel x [] q = some ([], q)
  queue_calls fuel x (c ∷ cs) q = do
    (o, r) ← call fuel x c q
    (os, r') ← queue_calls fuel x cs r
    some (o ∷ os, r')

  -- The same call on a list
  unfoldable pub list_call : QueueCall A → List A → Result A × List A
  list_call (enqueued y) xs = (done, xs ++ y ∷ [])
  list_call dequeued [] = (taken none, [])
  list_call dequeued (x ∷ xs) = (taken (some x), xs)
  list_call asked xs = (counted (length xs % 2 ^ 64), xs)
  list_call cleared xs = (done, [])

  unfoldable pub list_queue_calls : List (QueueCall A) → List A → List (Result A) × List A
  list_queue_calls [] xs = ([], xs)
  list_queue_calls (c ∷ cs) xs =
      let (o, ys) = list_call c xs in let (os, zs) = list_queue_calls cs ys in (o ∷ os, zs)

  call-Holds :
      (fuel : ℕ) (x : A) (c : QueueCall A) (xs : List A) (q : Queue A)
      → Holds q xs
      → length xs < fuel
      → (r : Queue A) × (call fuel x c q ≡ some ((list_call c xs).0, r))
        × Holds r (list_call c xs).1
        × (length (list_call c xs).1 ≤ length xs + 1)
  unfolding call list_call
  call-Holds fuel x (enqueued y) xs q h enough =
      let (r, e, h') = enqueue-Holds y xs q h in
      (r, ap (λ o. o >>= λ s. some (done, s)) e, h', omega (arith, length-append xs (y ∷ [])))
  call-Holds fuel x dequeued [] q h enough = (
    q,
    ap (λ o. o >>= λ r. some (taken r.0, r.1)) (dequeue_nothing h.first q h.chain),
    h,
    omega arith,
  )
  call-Holds fuel x dequeued (y ∷ xs) q h enough =
      let (r, e, h') = dequeue-Holds y xs q h in
      (r, ap (λ o. o >>= λ r. some (taken r.0, r.1)) e, h', omega arith)
  call-Holds fuel x asked xs q h enough =
      (q, ap (λ n. some (counted n, q)) h.counted_as, h, omega arith)
  call-Holds fuel x cleared xs q h enough =
      let (r, e, h') = clear-Holds fuel x xs q h enough in
      (r, ap (λ o. o >>= λ s. some (done, s)) e, h', omega arith)

  queue_calls-Holds :
      (fuel : ℕ) (x : A) (cs : List (QueueCall A)) (xs : List A) (q : Queue A)
      → Holds q xs
      → length xs + length cs ≤ fuel
      → (r : Queue A) × (queue_calls fuel x cs q ≡ some ((list_queue_calls cs xs).0, r))
        × Holds r (list_queue_calls cs xs).1
  unfolding queue_calls list_queue_calls
  queue_calls-Holds fuel x [] xs q h enough = (q, refl, h)
  queue_calls-Holds fuel x (c ∷ cs) xs q h enough =
      let (r, e, h', short) = call-Holds fuel x c xs q h (omega (arith, enough)) in
      let (r', e', h'') =
        queue_calls-Holds fuel x cs (list_call c xs).1 r h' (omega (arith, enough, short)) in
      (
        r',
        ap
              (λ o. o >>= λ (s : Result A × Queue A).
                (queue_calls fuel x cs s.1 >>= λ (t : List (Result A) × Queue A).
                some (s.0 ∷ t.0, t.1)))
              e
            ∙ ap
                (λ o. o >>= λ (t : List (Result A) × Queue A). some ((list_call c xs).0 ∷ t.0, t.1))
                e',
        h'',
      )

  -- Any run of `Enqueue`, `Dequeue`, `Size` and `Clear` on a new queue reads and writes only nodes that are there,
  -- and gives what the same calls give on a list: first in, first out, and the size modulo 2^64. Then the
  -- heap has the nodes of the queue and no other: each node that left the queue was deleted. A
  -- fuel of the number of calls is enough for each `Clear`.
  pub queue_calls-refines :
      (fuel : ℕ) (x : A) (cs : List (QueueCall A))
      → length cs ≤ fuel
      → (r : Queue A) × (queue_calls fuel x cs (new_queue x) ≡ some ((list_queue_calls cs []).0, r))
        × Holds r (list_queue_calls cs []).1
  queue_calls-refines fuel x cs enough =
      queue_calls-Holds fuel x cs [] (new_queue x) (new_queue-Holds x) (omega (arith, enough))
