-- ===== src/Processing/Isolated.antt =====
-- The pipeline isolates its processors from one another's exceptions.
use mini_gateway.Prelude.{
  ℕ, suc, ◌+◌, ◌%◌, ◌≡◌, refl, Bool, true, false, List, [], ◌∷◌, arith, u64_mod, increment,
  if◌then◌else◌,
}
use mini_gateway.Prelude.Int.{ℤ}
use mini_gateway.Model.{Event}
use mini_gateway.Processing.{
  ProcessingContext, ProcessingPipeline, Processed, process_each, process,
}

module _ {P W : Type 0} (process_one : P → ProcessingContext W → Event → W → Processed P W)
    (context : ProcessingContext W) where
  -- Every processor is called once, in order, on the event and the world that the call before it
  -- left, by an exception or not; the number counts the exceptions.
  pub data CallsEach : List P → Event → W → List P → Event → W → ℕ → Type 0 where
    done : {event : Event} {w : W} → CallsEach [] event w [] event w 0
    call :
        (p : P) (event : Event) (w : W) {ps ps' : List P} {event' : Event} {w' : W} {throws : ℕ}
        → (process_one p context event w).threw ≡ false
        → CallsEach ps
            (process_one p context event w).event
            (process_one p context event w).world
            ps'
            event'
            w'
            throws
        → CallsEach
            (p ∷ ps)
            event
            w
            ((process_one p context event w).processor ∷ ps')
            event'
            w'
            throws
    call_throws :
        (p : P) (event : Event) (w : W) {ps ps' : List P} {event' : Event} {w' : W} {throws : ℕ}
        → (process_one p context event w).threw ≡ true
        → CallsEach ps
            (process_one p context event w).event
            (process_one p context event w).world
            ps'
            event'
            w'
            throws
        → CallsEach
            (p ∷ ps)
            event
            w
            ((process_one p context event w).processor ∷ ps')
            event'
            w'
            (suc throws)

  process_each-CallsEach :
      (ps : List P) (event : Event) (w : W) (errors : ℕ)
      → let (ps', event', w', errors') = process_each process_one context ps event w errors in
        (throws : ℕ) × CallsEach ps event w ps' event' w' throws
        × (errors' % u64_mod ≡ (errors + throws) % u64_mod)
  unfolding process_each
  process_each-CallsEach [] event w errors = (0, done, omega arith)
  process_each-CallsEach (p ∷ ps) event w errors =
      go here.threw refl (process_each-CallsEach ps here.event here.world)
    where
      here : Processed P W
      here = process_one p context event w

      go :
          (b : Bool)
          → here.threw ≡ b
          → ((errors : ℕ)
              → let (ps', event', w', errors') =
                  process_each process_one context ps here.event here.world errors in
                (throws : ℕ) × CallsEach ps here.event here.world ps' event' w' throws
                × (errors' % u64_mod ≡ (errors + throws) % u64_mod))
          → let (ps', event', w', errors') =
              process_each process_one context ps here.event here.world
                (if b then increment errors else errors) in
            (throws : ℕ) × CallsEach (p ∷ ps) event w (here.processor ∷ ps') event' w' throws
            × (errors' % u64_mod ≡ (errors + throws) % u64_mod)
      go true h rest =
          let (throws, calls, counted) = rest (increment errors) in
          (suc throws, call_throws p event w h calls, omega (arith, counted))
      go false h rest =
          let (throws, calls, counted) = rest errors in (throws, call p event w h calls, counted)

module _ {P W : Type 0} (process_one : P → ProcessingContext W → Event → W → Processed P W) where
  -- `process` calls every processor once, in the order of the pipeline, in the context of its
  -- control sink and the time read once; each call gets the event and the world as the one before
  -- left them, whether that one threw or returned. The error counter grows by the number of calls
  -- that threw (modulo 2^64), the event counter by one, and the sink stays.
  pub process-CallsEach :
      (pipeline : ProcessingPipeline P W) (now_ns : ℤ) (event : Event) (w : W)
      → let (after, event', w') = process process_one pipeline now_ns event w in
        (throws : ℕ) × CallsEach process_one
          (record { now_ns = now_ns; control = pipeline.control })
          pipeline.processors
          event
          w
          after.processors
          event'
          w'
          throws
        × (after.processor_errors % u64_mod ≡ (pipeline.processor_errors + throws) % u64_mod)
        × (after.events ≡ increment pipeline.events)
        × (after.control ≡ pipeline.control)
  unfolding process
  process-CallsEach pipeline now_ns event w =
      let (throws, calls, counted) =
        process_each-CallsEach process_one (record { now_ns = now_ns; control = pipeline.control })
          pipeline.processors event w pipeline.processor_errors in
      (throws, calls, counted, refl, refl)
