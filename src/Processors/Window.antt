-- ===== src/Processors/Window.antt =====
-- What the sliding average keeps and emits.
use mini_gateway.Prelude.{
  ℕ, ◌+◌, ◌≤◌, ◌<◌, ◌≡◌, refl, ap, ◌∙◌, sym, subst, min, Bool, true, false, not, none, some, List,
  [], ◌∷◌, ◌++◌, ltb, ◌==◌, length, length-append, arith, if◌then◌else◌, lookup, insert,
  lookup-insert_self, ◌⊎◌, inl, inr,
}
use mini_gateway.Model.{of_double, Reading, Event}
use mini_gateway.Model.Std.{Double, Platform}
use mini_gateway.Processors.{
  WindowAverageProcessor, trim, window_of, accumulate, emit_average, process_window_average,
  good_input, derived_reading, push_reading,
}

trim_lem :
    (window : ℕ) (vs : List Double)
    → (dropped : List Double) × (vs ≡ dropped ++ trim window vs)
      × (length (trim window vs) ≡ min window (length vs))
unfolding trim
trim_lem window [] = ([], refl, omega arith)
trim_lem window (v ∷ vs) = go (ltb window (length (v ∷ vs))) refl (trim_lem window vs)
  where
    go :
        (b : Bool)
        → ltb window (length (v ∷ vs)) ≡ b
        → (dropped : List Double) × (vs ≡ dropped ++ trim window vs)
          × (length (trim window vs) ≡ min window (length vs))
        → (dropped : List Double) × (v ∷ vs ≡ dropped ++ (if b then trim window vs else v ∷ vs))
          × (length (if b then trim window vs else v ∷ vs) ≡ min window (length (v ∷ vs)))
    go true e (dropped, split, size) = (v ∷ dropped, ap (λ xs. v ∷ xs) split, ground arith)
    go false e h = ([], refl, ground arith)

-- After a good input the device's window holds the last values.
pub record IsSliding (std : Platform) (p : WindowAverageProcessor) (event : Event) (input : Reading)
    (value : Double) (after : WindowAverageProcessor × Event) : Type 0 where
  pub values : List Double
  pub dropped : List Double
  pub stored : lookup event.device_id after.0.windows ≡ some values
  pub newest : window_of p.windows event.device_id ++ value ∷ [] ≡ dropped ++ values
  pub size : length values ≡ min p.window (length (window_of p.windows event.device_id) + 1)
  pub emitted :
      ((length values < p.window) × (after.1 ≡ event))
      ⊎ ((length values ≡ p.window)
          × (after.1
              ≡ push_reading event (
                  derived_reading p.output
                    (of_double (std.div (accumulate std values std.zero) (std.of_size p.window)))
                    input.source_time_ns
                    input.received_time_ns)))

emit_lem :
    (std : Platform) (p : WindowAverageProcessor) (event : Event) (input : Reading)
    (values : List Double)
    → length values ≤ p.window
    → ((length values < p.window) × (emit_average std p event input values ≡ event))
      ⊎ ((length values ≡ p.window)
          × (emit_average std p event input values
              ≡ push_reading event (
                  derived_reading p.output
                    (of_double (std.div (accumulate std values std.zero) (std.of_size p.window)))
                    input.source_time_ns
                    input.received_time_ns)))
unfolding emit_average
emit_lem std p event input values h = go (length values == p.window) refl
  where
    averaged : ℕ → Event
    averaged size = push_reading event (
        derived_reading p.output
          (of_double (std.div (accumulate std values std.zero) (std.of_size size)))
          input.source_time_ns input.received_time_ns)

    go :
        (b : Bool)
        → (length values == p.window) ≡ b
        → ((length values < p.window)
            × ((if not b then event else averaged (length values)) ≡ event))
          ⊎ ((length values ≡ p.window)
              × ((if not b then event else averaged (length values)) ≡ averaged p.window))
    go true e = let same : length values ≡ p.window = ground arith in inr (same, ap averaged same)
    go false e = inl (ground arith, refl)

-- On an event with a good numeric input, the processor appends the value to the window of the event's device
-- and drops the oldest values over the window's size: the window then holds the last values, as
-- many as there are up to that size. A derived reading, the sum of these values over their
-- number, at the times of the input, is pushed on the event exactly when the window is full; else
-- the event stays.
pub process_window_average-IsSliding :
    (std : Platform) (p : WindowAverageProcessor) (event : Event) (input : Reading) (value : Double)
    → good_input std event p.input ≡ some (input, value)
    → IsSliding std p event input value (process_window_average std p event)
unfolding process_window_average
process_window_average-IsSliding std p event input value h =
    subst
      (λ found. IsSliding std p event input value (elim found [
        | none ↦ (p, event)
        | some (i, v) ↦
            let values = trim p.window (window_of p.windows event.device_id ++ v ∷ []) in
            (
              record p { windows = insert event.device_id values p.windows },
              emit_average std p event i values,
            )
      ]))
      (sym h) slid
  where
    longer : List Double
    longer = window_of p.windows event.device_id ++ value ∷ []

    kept : List Double
    kept = trim p.window longer

    slid : IsSliding std p event input value (
      record p { windows = insert event.device_id kept p.windows },
      emit_average std p event input kept,
    )
    slid =
        let (dropped, split, size) = trim_lem p.window longer in
        let grown : length longer ≡ length (window_of p.windows event.device_id) + 1 =
          length-append (window_of p.windows event.device_id) (value ∷ []) in
        record {
          values = kept;
          dropped = dropped;
          stored = lookup-insert_self event.device_id kept p.windows;
          newest = split;
          size = size ∙ ap (min p.window) grown;
          emitted = emit_lem std p event input kept (omega (arith, size));
        }
