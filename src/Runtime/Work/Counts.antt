-- ===== src/Runtime/Work/Counts.antt =====
-- What the runtime's counters say about the work done.
use mini_gateway.Prelude.{
  count, Bool, true, false, ℕ, ◌+◌, ◌*◌, ◌%◌, ◌≡◌, refl, ◌∙◌, List, [], ◌∷◌, arith, length, u64_mod,
  increment, Result, ok, err,
}
use mini_gateway.Prelude.Int.{ℤ}
use mini_gateway.Model.{RawBatch, Event}
use mini_gateway.Model.Std.{Platform}
use mini_gateway.Normalizer.{normalize}
use mini_gateway.Processing.{ProcessingPipeline, ProcessingContext, Processed, process}
use mini_gateway.Runtime.Work.{
  Counters, EventPublishResult, accepted, unavailable, rejected, count_publish, publish_event,
  Processing, process_batch, process_batches,
}

-- The publications by their outcome.
abbrev pub published : Counters → ℕ
published c = c.accepted + c.unavailable + c.rejected + c.errors

count_publish_lem :
    (result : Result EventPublishResult) (c : Counters)
    → (published (count_publish result c) % u64_mod ≡ (published c + 1) % u64_mod)
      × ((count_publish result c).attempts ≡ c.attempts)
      × ((count_publish result c).delivered_events ≡ c.delivered_events)
unfolding count_publish
count_publish_lem (ok accepted) c = (omega arith, refl, refl)
count_publish_lem (ok unavailable) c = (omega arith, refl, refl)
count_publish_lem (ok rejected) c = (omega arith, refl, refl)
count_publish_lem (err thrown) c = (omega arith, refl, refl)

abbrev was_accepted : Result EventPublishResult → Bool
was_accepted (ok accepted) = true
was_accepted _ = false

abbrev was_unavailable : Result EventPublishResult → Bool
was_unavailable (ok unavailable) = true
was_unavailable _ = false

abbrev was_rejected : Result EventPublishResult → Bool
was_rejected (ok rejected) = true
was_rejected _ = false

abbrev was_thrown : Result EventPublishResult → Bool
was_thrown (err thrown) = true
was_thrown _ = false

-- One answer moves its own counter.
answer_lem :
    (result : Result EventPublishResult) (c : Counters)
    → let after = count_publish result c in
      (after.attempts ≡ c.attempts)
      × (after.accepted % u64_mod ≡ (c.accepted + count was_accepted (result ∷ [])) % u64_mod)
      × (after.unavailable % u64_mod
          ≡ (c.unavailable + count was_unavailable (result ∷ [])) % u64_mod)
      × (after.rejected % u64_mod ≡ (c.rejected + count was_rejected (result ∷ [])) % u64_mod)
      × (after.errors % u64_mod ≡ (c.errors + count was_thrown (result ∷ [])) % u64_mod)
unfolding count_publish
answer_lem (ok accepted) c = (refl, omega arith, omega arith, omega arith, omega arith)
answer_lem (ok unavailable) c = (refl, omega arith, omega arith, omega arith, omega arith)
answer_lem (ok rejected) c = (refl, omega arith, omega arith, omega arith, omega arith)
answer_lem (err thrown) c = (refl, omega arith, omega arith, omega arith, omega arith)

module _ {Q W : Type 0} (publish : Q → Event → W → Result EventPublishResult × W) where
  -- Both counts grow by the number of publishers.
  publish_event_counts :
      (publishers : List Q) (event : Event) (w : W) (c : Counters)
      → let after : Counters = (publish_event publish publishers event w c).1 in
        (after.attempts % u64_mod ≡ (c.attempts + length publishers) % u64_mod)
        × (published after % u64_mod ≡ (published c + length publishers) % u64_mod)
        × (after.delivered_events ≡ c.delivered_events)
  unfolding publish_event
  publish_event_counts [] event w c = (omega arith, omega arith, refl)
  publish_event_counts (q ∷ qs) event w c =
      let tried : Result EventPublishResult × W = publish q event w in
      let begun : Counters = record c { attempts = increment c.attempts } in
      let (attempts, outcomes, delivered) =
        publish_event_counts qs event tried.1 (count_publish tried.0 begun) in
      let (counted, same, kept) = count_publish_lem tried.0 begun in
      (omega (arith, attempts, same), omega (arith, outcomes, counted), delivered ∙ kept)

  -- What the publishers answer, each called once and in order, and the world after them.
  unfoldable pub answers_of : List Q → Event → W → List (Result EventPublishResult) × W
  answers_of [] event w = ([], w)
  answers_of (q ∷ qs) event w =
      let (result, w') = publish q event w in
      let (results, last) = answers_of qs event w' in (result ∷ results, last)

  -- The event is offered to every publisher once and in order, whatever the ones before it answer or
  -- throw, and the world is as these calls leave it: the attempts grow by the number of publishers,
  -- and each kind of answer by the number of publishers that gave it, a throw counting as an error
  -- (all modulo 2^64).
  pub publish_event_lem :
      (publishers : List Q) (event : Event) (w : W) (c : Counters)
      → let (results, last) = answers_of publishers event w in
        let (after_w, after) = publish_event publish publishers event w c in
        (after_w ≡ last)
        × (after.attempts % u64_mod ≡ (c.attempts + length publishers) % u64_mod)
        × (after.accepted % u64_mod ≡ (c.accepted + count was_accepted results) % u64_mod)
        × (after.unavailable % u64_mod ≡ (c.unavailable + count was_unavailable results) % u64_mod)
        × (after.rejected % u64_mod ≡ (c.rejected + count was_rejected results) % u64_mod)
        × (after.errors % u64_mod ≡ (c.errors + count was_thrown results) % u64_mod)
  unfolding publish_event answers_of
  publish_event_lem [] event w c =
      (refl, omega arith, omega arith, omega arith, omega arith, omega arith)
  publish_event_lem (q ∷ qs) event w c =
      let tried : Result EventPublishResult × W = publish q event w in
      let begun : Counters = record c { attempts = increment c.attempts } in
      let (same, tries, a, u, r, e) =
        publish_event_lem qs event tried.1 (count_publish tried.0 begun) in
      let (tries', a', u', r', e') = answer_lem tried.0 begun in
      (
        same,
        omega (arith, tries, tries'),
        omega (arith, a, a'),
        omega (arith, u, u'),
        omega (arith, r, r'),
        omega (arith, e, e'),
      )

module _ {P Q W : Type 0} (std : Platform)
    (process_one : P → ProcessingContext W → Event → W → Processed P W)
    (publish : Q → Event → W → Result EventPublishResult × W) (publishers : List Q) where
  -- Every batch that the worker takes becomes one event: it is counted once by the pipeline and once as
  -- delivered, and there is one attempt for every publisher, each with one outcome, whatever
  -- processors and publishers throw (all counts modulo 2^64).
  pub process_batches_counts :
      (work : List (ℤ × ℤ × RawBatch)) (s : Processing P W)
      → let after : Processing P W = process_batches std process_one publish publishers work s in
        (after.counters.delivered_events % u64_mod
          ≡ (s.counters.delivered_events + length work) % u64_mod)
        × (after.pipeline.events % u64_mod ≡ (s.pipeline.events + length work) % u64_mod)
        × (after.counters.attempts % u64_mod
            ≡ (s.counters.attempts + length work * length publishers) % u64_mod)
        × (published after.counters % u64_mod
            ≡ (published s.counters + length work * length publishers) % u64_mod)
  unfolding process_batches process_batch process
  process_batches_counts [] s = (omega arith, omega arith, omega arith, omega arith)
  process_batches_counts ((received_at, now_ns, batch) ∷ rest) s =
      let event : Event = (normalize std s.normalizer received_at batch).0 in
      let piped : ProcessingPipeline P W × Event × W =
        process process_one s.pipeline now_ns event s.world in
      let delivered : Counters = record s.counters {
        delivered_events = increment s.counters.delivered_events;
      } in
      let (attempts, outcomes, kept) =
        publish_event_counts publish publishers piped.1 piped.2 delivered in
      let (d, e, a, o) =
        process_batches_counts rest
          (process_batch std process_one publish publishers received_at now_ns batch s) in
      (
        omega (arith, d, kept),
        omega (arith, e),
        grind (arith, a, attempts),
        grind (arith, o, outcomes),
      )
