-- ===== src/BoundedQueue/Fifo.antt =====
-- What holds of the queue after any calls of any threads, in the order in which the mutex admits
-- them: bounds, counters, order of delivery.
use mini_gateway.Prelude.{
  ℕ, suc, ◌%◌, ◌≤◌, ◌≡◌, refl, true, List, [], ◌∷◌, ◌++◌, append_assoc, arith, length,
  length-append, u64_mod, ok,
}
use mini_gateway.BoundedQueue.{
  BoundedQueue, Popped, blocked, finished, value, EnqueueResult, accepted, full, stopping, create,
  try_push, pop_front, wait_pop, close, stats,
}

pub data Call {ℓ} (T : Type ℓ) : Type ℓ where
  push : T → Call T
  pop : Call T
  shut : Call T

-- The queue with what has gone in and come out so far, oldest first, and how many were refused for
-- want of room.
pub record History {ℓ} (T : Type ℓ) : Type ℓ where
  pub queue : BoundedQueue T
  pub stored : List T
  pub delivered : List T
  pub refused : ℕ

module _ {ℓ} {T : Type ℓ} where
  abbrev pub begin : BoundedQueue T → History T
  begin q = record { queue = q; stored = []; delivered = []; refused = 0 }

  unfoldable pub after_push : T → History T → EnqueueResult × BoundedQueue T → History T
  after_push x h (accepted, q) = record h { queue = q; stored = h.stored ++ x ∷ [] }
  after_push x h (full, q) = record h { queue = q; refused = suc h.refused }
  after_push x h (stopping, q) = record h { queue = q }

  unfoldable pub after_pop : History T → Popped T → History T
  after_pop h blocked = h
  after_pop h finished = h
  after_pop h (value x q) = record h { queue = q; delivered = h.delivered ++ x ∷ [] }

  unfoldable pub step : History T → Call T → History T
  unfolding after_push after_pop
  step h (push x) = after_push x h (try_push x h.queue)
  step h pop = after_pop h (wait_pop h.queue)
  step h shut = record h { queue = close h.queue }

  unfoldable pub run : History T → List (Call T) → History T
  run h [] = h
  run h (c ∷ cs) = run (step h c) cs

  pub record IsSound (h : History T) : Type ℓ where
    pub bounded : (stats h.queue).size ≤ (stats h.queue).capacity
    pub in_order : h.stored ≡ h.delivered ++ h.queue.queue
    pub counted : (stats h.queue).accepted ≡ length h.stored % u64_mod
    pub refusals : (stats h.queue).rejected_full ≡ h.refused % u64_mod

  push-IsSound : (x : T) (h : History T) → IsSound h → IsSound (step h (push x))
  unfolding step try_push stats
  push-IsSound x h s = ground (
    arith,
    append_assoc h.delivered h.queue.queue (x ∷ []),
    length-append h.stored (x ∷ []),
    length-append h.queue.queue (x ∷ []),
  )

  pop_front-IsSound :
      (xs : List T) (h : History T)
      → h.queue.queue ≡ xs
      → IsSound h
      → IsSound (after_pop h (pop_front xs h.queue))
  unfolding after_pop pop_front stats
  pop_front-IsSound [] h e s = s
  pop_front-IsSound (x ∷ xs) h e s = ground (arith, append_assoc h.delivered (x ∷ []) xs)

  pop-IsSound : (h : History T) → IsSound h → IsSound (step h pop)
  unfolding step wait_pop
  pop-IsSound h s = ground (arith, pop_front-IsSound h.queue.queue h refl s)

  pub step-IsSound : (h : History T) (c : Call T) → IsSound h → IsSound (step h c)
  step-IsSound h (push x) s = push-IsSound x h s
  step-IsSound h pop s = pop-IsSound h s
  step-IsSound h shut s = unfold step close stats in ground arith

  pub run-IsSound : (h : History T) (cs : List (Call T)) → IsSound h → IsSound (run h cs)
  unfolding run
  run-IsSound h [] s = s
  run-IsSound h (c ∷ cs) s = run-IsSound (step h c) cs (step-IsSound h c s)

  begin-IsSound : (capacity : ℕ) {q : BoundedQueue T} → create capacity ≡ ok q → IsSound (begin q)
  unfolding create stats
  begin-IsSound capacity e = ground arith

  -- From a new queue, after any calls: the size is within the capacity; what was delivered,
  -- followed by what is queued, is what was accepted, in that order, so nothing is lost, duplicated
  -- or reordered; and the two counters of `stats` count the accepted values and the refusals for
  -- want of room, modulo 2^64.
  pub run-create-IsSound :
      (capacity : ℕ) (cs : List (Call T)) {q : BoundedQueue T}
      → create capacity ≡ ok q
      → IsSound (run (begin q) cs)
  run-create-IsSound capacity cs {q} e = run-IsSound (begin q) cs (begin-IsSound capacity e)

  step_closed :
      (h : History T) (c : Call T)
      → h.queue.closed ≡ true
      → ((step h c).stored ≡ h.stored) × ((step h c).queue.closed ≡ true)
  unfolding step try_push wait_pop close pop_front after_pop
  step_closed h c e = ground arith

  -- A closed queue stays closed and accepts nothing more, whatever is called.
  pub run_closed :
      (h : History T) (cs : List (Call T))
      → h.queue.closed ≡ true
      → ((run h cs).stored ≡ h.stored) × ((run h cs).queue.closed ≡ true)
  unfolding run
  run_closed h [] e = (refl, e)
  run_closed h (c ∷ cs) e = ground (arith, step_closed h c e, run_closed (step h c) cs)
