-- ===== src/BoundedQueue/Drain.antt =====
-- The shutdown of the queue: a closed queue accepts nothing, keeps no consumer waiting, and hands
-- over what it still holds.
use mini_gateway.Prelude.{
  ℕ, zero, suc, ◌<◌, ◌≡◌, refl, true, List, [], ◌∷◌, Option, none, some, arith, length,
}
use mini_gateway.BoundedQueue.{BoundedQueue, blocked, finished, value, pop_front, wait_pop}

module _ {ℓ} {T : Type ℓ} where
  -- `while (queue.wait_pop(item)) use(item);` on fuel, with the items in the order of use; `none`
  -- if the consumer waits or the fuel runs out.
  pub drain : ℕ → BoundedQueue T → Option (List T)
  drain zero q = none
  drain (suc fuel) q = elim (wait_pop q) [
    | blocked ↦ none
    | finished ↦ some []
    | value x rest ↦ elim (drain fuel rest) [ none ↦ none | some xs ↦ some (x ∷ xs) ]
  ]

  drain_from :
      (fuel : ℕ) (xs : List T) (q : BoundedQueue T)
      → q.queue ≡ xs
      → q.closed ≡ true
      → length xs < fuel
      → drain fuel q ≡ some xs
  unfolding drain wait_pop pop_front
  drain_from zero xs q e c h = absurd (omega arith)
  drain_from (suc fuel) [] q e c h = ground arith
  drain_from (suc fuel) (x ∷ xs) q e c h =
      ground (arith, drain_from fuel xs (record q { queue = xs }) refl c)

  -- On a closed queue the consumer's loop ends: it has used every entry that was left, oldest
  -- first, and has never waited. One round more than there are entries is fuel enough.
  pub drain-closed :
      (fuel : ℕ) (q : BoundedQueue T)
      → q.closed ≡ true
      → length q.queue < fuel
      → drain fuel q ≡ some q.queue
  drain-closed fuel q c h = drain_from fuel q.queue q refl c h
