-- ===== src/Processors/Reference.antt =====
-- The sliding average against a definition without state: the window of a device holds the last of the
-- values that its events had.
use mini_gateway.Prelude.{
  ℕ, ◌≡◌, refl, ap, sym, subst, ◌∙◌, Bool, true, false, String, Option, none, some, List, [], ◌∷◌,
  ◌++◌, append_assoc, append-nil, if◌then◌else◌, str_eq, eq_iff, Bool-cases, inl, inr, insert, ok,
}
use mini_gateway.Model.{Reading, Event}
use mini_gateway.Model.Std.{Double, Platform}
use mini_gateway.Processors.{
  WindowAverageProcessor, create_window_average, trim, window_of, process_window_average,
  good_input, emit_average,
}
use mini_gateway.Processors.LastValues.{
  last_values, values_of, process_all, trim-last_values, trim-trim, window_of-insert_self,
  window_of-insert_ne, trim_again, refl_trim, empty_window, created,
}

module _ (std : Platform) where
  -- One event: the window of its device takes the value, and the other windows stay.
  step_window :
      (p : WindowAverageProcessor) (event : Event) (events : List Event) (device_id : String)
      → trim p.window
          (window_of p.windows device_id ++ values_of std p.input device_id (event ∷ events))
        ≡ trim p.window (
            window_of (process_window_average std p event).0.windows device_id
            ++ values_of std p.input device_id events)
  unfolding process_window_average values_of
  step_window p event events device_id =
      go (good_input std event p.input) (str_eq event.device_id device_id) refl
    where
      rest : List Double
      rest = values_of std p.input device_id events

      go :
          (found : Option (Reading × Double)) (b : Bool)
          → str_eq event.device_id device_id ≡ b
          → trim p.window (
              window_of p.windows device_id
              ++ (if b
                  then (elim found as (λ x. List Double) [
                    | none ↦ rest
                    | some (reading, value) ↦ value ∷ rest
                  ])
                  else rest))
            ≡ trim p.window (
                window_of
                  (elim found as (λ x. WindowAverageProcessor × Event) [
                    | none ↦ (p, event)
                    | some (input, value) ↦
                        let values =
                          trim p.window (window_of p.windows event.device_id ++ value ∷ []) in
                        (
                          record p { windows = insert event.device_id values p.windows },
                          emit_average std p event input values,
                        )
                  ]).0.windows
                  device_id
                ++ rest)
      go none true e = refl
      go none false e = refl
      go (some (reading, value)) true e =
          let same : event.device_id ≡ device_id = (eq_iff event.device_id device_id).0 e in
          let window : List Double = window_of p.windows device_id in
          let stored : window_of
                (insert event.device_id
                  (trim p.window (window_of p.windows event.device_id ++ value ∷ [])) p.windows)
                device_id
              ≡ trim p.window (window ++ value ∷ []) =
            ap
              (λ k.
                window_of
                  (insert event.device_id
                    (trim p.window (window_of p.windows event.device_id ++ value ∷ [])) p.windows)
                  k)
              (sym same)
            ∙ window_of-insert_self event.device_id _ p.windows
            ∙ ap (λ k. trim p.window (window_of p.windows k ++ value ∷ [])) same in
          ap (trim p.window) (sym (append_assoc window (value ∷ []) rest))
          ∙ sym (trim-trim p.window (window ++ value ∷ []) rest)
          ∙ ap (λ ws. trim p.window (ws ++ rest)) (sym stored)
      go (some (reading, value)) false e =
          ap (λ ws. trim p.window (ws ++ rest))
            (sym (window_of-insert_ne event.device_id device_id _ p.windows e))

  -- Processing leaves the settings.
  settings :
      (p : WindowAverageProcessor) (event : Event)
      → ((process_window_average std p event).0.window ≡ p.window)
        × ((process_window_average std p event).0.input ≡ p.input)
  unfolding process_window_average
  settings p event = go (good_input std event p.input)
    where
      go :
          (found : Option (Reading × Double))
          → let after : WindowAverageProcessor × Event =
              elim found as (λ x. WindowAverageProcessor × Event) [
                | none ↦ (p, event)
                | some (input, value) ↦
                    let values =
                      trim p.window (window_of p.windows event.device_id ++ value ∷ []) in
                    (
                      record p { windows = insert event.device_id values p.windows },
                      emit_average std p event input values,
                    )
              ] in
            (after.0.window ≡ p.window) × (after.0.input ≡ p.input)
      go none = (refl, refl)
      go (some found) = (refl, refl)

  all_windows :
      (events : List Event) (p : WindowAverageProcessor) (device_id : String)
      → trim p.window (window_of (process_all std p events).windows device_id)
        ≡ trim p.window (window_of p.windows device_id ++ values_of std p.input device_id events)
  unfolding process_all values_of
  all_windows [] p device_id = ap (trim p.window) (sym (append-nil _))
  all_windows (event ∷ events) p device_id =
      let q : WindowAverageProcessor = (process_window_average std p event).0 in
      let (same_window, same_input) = settings p event in
      let rest = all_windows events q device_id in
      ap (λ w. trim w (window_of (process_all std q events).windows device_id)) (sym same_window)
      ∙ rest
      ∙ ap (λ w. trim w (window_of q.windows device_id ++ values_of std q.input device_id events))
          same_window
      ∙ ap (λ i. trim p.window (window_of q.windows device_id ++ values_of std i device_id events))
          same_input
      ∙ sym (step_window p event events device_id)

  -- No window is over the size.
  abbrev Fits : WindowAverageProcessor → Type 0
  Fits p =
      (device_id : String)
      → trim p.window (window_of p.windows device_id) ≡ window_of p.windows device_id

  process-Fits :
      (p : WindowAverageProcessor) (event : Event)
      → Fits p
      → Fits (process_window_average std p event).0
  unfolding process_window_average
  process-Fits p event fits device_id = go (good_input std event p.input)
    where
      stored : Double → List Double
      stored value = trim p.window (window_of p.windows event.device_id ++ value ∷ [])

      changed :
          (value : Double)
          → trim p.window (window_of (insert event.device_id (stored value) p.windows) device_id)
            ≡ window_of (insert event.device_id (stored value) p.windows) device_id
      changed value = elim (Bool-cases (str_eq event.device_id device_id)) [
        | inl e ↦
            subst
              (λ k.
                trim p.window (window_of (insert event.device_id (stored value) p.windows) k)
                ≡ window_of (insert event.device_id (stored value) p.windows) k)
              ((eq_iff event.device_id device_id).0 e)
              (subst (λ ws. trim p.window ws ≡ ws)
                (sym (window_of-insert_self event.device_id (stored value) p.windows))
                (trim_again p.window (window_of p.windows event.device_id ++ value ∷ [])))
        | inr e ↦
            subst (λ ws. trim p.window ws ≡ ws)
              (sym (window_of-insert_ne event.device_id device_id (stored value) p.windows e))
              (fits device_id)
      ]

      go :
          (found : Option (Reading × Double))
          → let after : WindowAverageProcessor × Event =
              elim found as (λ x. WindowAverageProcessor × Event) [
                | none ↦ (p, event)
                | some (input, value) ↦
                    let values =
                      trim p.window (window_of p.windows event.device_id ++ value ∷ []) in
                    (
                      record p { windows = insert event.device_id values p.windows },
                      emit_average std p event input values,
                    )
              ] in
            trim after.0.window (window_of after.0.windows device_id)
            ≡ window_of after.0.windows device_id
      go none = fits device_id
      go (some (input, value)) = changed value

  process_all-Fits :
      (events : List Event) (p : WindowAverageProcessor) (device_id : String)
      → Fits p
      → trim p.window (window_of (process_all std p events).windows device_id)
        ≡ window_of (process_all std p events).windows device_id
  unfolding process_all
  process_all-Fits [] p device_id fits = fits device_id
  process_all-Fits (event ∷ events) p device_id fits =
      let q : WindowAverageProcessor = (process_window_average std p event).0 in
      ap (λ w. trim w (window_of (process_all std q events).windows device_id))
        (sym (settings p event).0)
      ∙ process_all-Fits events q device_id (process-Fits p event fits)

  -- A processor that was created with a size keeps, after any events of any devices, as the window of a
  -- device the last values that the device's events had for the input, at most so many: what the
  -- processor computes event by event agrees with the list of all values, cut at the end.
  pub process_all-last_values :
      (input : String) (window : ℕ) (output : String) (events : List Event) (device_id : String)
      {p : WindowAverageProcessor}
      → create_window_average input window output ≡ ok p
      → window_of (process_all std p events).windows device_id
        ≡ last_values window (values_of std input device_id events)
  process_all-last_values input window output events device_id {p} h =
      let new = created input window output h in
      subst
        (λ q.
          window_of (process_all std q events).windows device_id
          ≡ last_values window (values_of std input device_id events))
        new
        (sym (process_all-Fits events fresh device_id (refl_trim window))
          ∙ all_windows events fresh device_id
          ∙ ap (λ ws. trim window (ws ++ values_of std input device_id events))
              (empty_window device_id)
          ∙ trim-last_values window (values_of std input device_id events))
    where
      fresh : WindowAverageProcessor
      fresh = record { input = input; window = window; output = output; windows = [] }
