-- ===== src/BoundedQueue/Tests.antt =====
-- Runs of the bounded queue, and the theorems at concrete inputs.
use mini_gateway.Prelude.{ℕ, ◌≡◌, refl, true, false, List, [], ◌∷◌, some, arith}
use mini_gateway.BoundedQueue.{BoundedQueue, create, try_push, wait_pop, close}
use mini_gateway.BoundedQueue.Fifo.{
  Call, push, pop, shut, begin, run, step, IsSound, run-create-IsSound, run_closed,
}
use mini_gateway.BoundedQueue.Drain.{drain, drain-closed}

abbrev small : BoundedQueue ℕ
small = record { capacity = 2; queue = []; closed = false; accepted = 0; rejected_full = 0 }

abbrev calls : List (Call ℕ)
calls = pop ∷ push 7 ∷ push 8 ∷ push 9 ∷ pop ∷ push 10 ∷ shut ∷ push 11 ∷ pop ∷ []

run-calls :
    let h = run (begin small) calls in
    (h.stored ≡ 7 ∷ 8 ∷ 10 ∷ []) × (h.delivered ≡ 7 ∷ 8 ∷ []) × (h.queue.rejected_full ≡ 1)
unfolding run step try_push wait_pop close
run-calls = (refl, refl, refl)

run-create-IsSound_example : IsSound (run (begin small) calls)
unfolding create
run-create-IsSound_example = run-create-IsSound 2 calls refl

abbrev shut_down : BoundedQueue ℕ
shut_down = record small { queue = 4 ∷ 5 ∷ []; closed = true; accepted = 2 }

run_closed_example :
    let h = run (begin shut_down) (push 6 ∷ pop ∷ []) in (h.stored ≡ []) × (h.queue.closed ≡ true)
run_closed_example = run_closed (begin shut_down) (push 6 ∷ pop ∷ []) refl

drain-closed_example : drain 3 shut_down ≡ some (4 ∷ 5 ∷ [])
drain-closed_example = drain-closed 3 shut_down refl (omega arith)
