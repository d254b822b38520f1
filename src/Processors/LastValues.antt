-- ===== src/Processors/LastValues.antt =====
-- The last values of a list, and what the sliding average has to do with them.
use mini_gateway.Prelude.{
  ℕ, zero, suc, ◌-◌, ◌≡◌, refl, ap, sym, ◌∙◌, true, false, ltb, String, none, some, List, [], ◌∷◌,
  ◌++◌, append-nil, length, arith, if◌then◌else◌, str_eq, Bool-cases, ◌⊎◌, inl, inr, Table, lookup,
  insert, lookup-insert, lookup-insert_self, length-append, ok,
}
use mini_gateway.Model.{Event}
use mini_gateway.Model.Std.{Double, Platform}
use mini_gateway.Processors.{
  WindowAverageProcessor, create_window_average, trim, window_of, process_window_average,
  good_input,
}

abbrev pub drop : ℕ → List Double → List Double
drop n [] = []
drop zero (v ∷ vs) = v ∷ vs
drop (suc n) (v ∷ vs) = drop n vs

-- The last values of a list, at most so many.
abbrev pub last_values : ℕ → List Double → List Double
last_values n vs = drop (length vs - n) vs

-- The values that the events of a device have for an input.
unfoldable pub values_of : Platform → String → String → List Event → List Double
values_of std input device_id [] = []
values_of std input device_id (event ∷ events) =
    let rest = values_of std input device_id events in
    if str_eq event.device_id device_id
    then (elim (good_input std event input) [ none ↦ rest | some (reading, value) ↦ value ∷ rest ])
    else rest

-- The processor after some events.
unfoldable pub process_all : Platform → WindowAverageProcessor → List Event → WindowAverageProcessor
process_all std p [] = p
process_all std p (event ∷ events) = process_all std (process_window_average std p event).0 events

pub trim-last_values : (window : ℕ) (vs : List Double) → trim window vs ≡ last_values window vs
unfolding trim
trim-last_values window [] = refl
trim-last_values window (v ∷ vs) =
    go (Bool-cases (ltb window (length (v ∷ vs)))) (trim-last_values window vs)
  where
    go :
        (ltb window (length (v ∷ vs)) ≡ true) ⊎ (ltb window (length (v ∷ vs)) ≡ false)
        → trim window vs ≡ last_values window vs
        → trim window (v ∷ vs) ≡ last_values window (v ∷ vs)
    go (inl more) h =
        let shift : length (v ∷ vs) - window ≡ suc (length vs - window) = ground arith in
        ap (λ b. if b then trim window vs else v ∷ vs) more
        ∙ h
        ∙ sym (ap (λ n. drop n (v ∷ vs)) shift)
    go (inr few) h =
        let none_more : length (v ∷ vs) - window ≡ zero = ground arith in
        ap (λ b. if b then trim window vs else v ∷ vs) few
        ∙ sym (ap (λ n. drop n (v ∷ vs)) none_more)

-- What is dropped early would be dropped later.
pub trim-trim :
    (window : ℕ) (vs ws : List Double) → trim window (trim window vs ++ ws) ≡ trim window (vs ++ ws)
unfolding trim
trim-trim window [] ws = refl
trim-trim window (v ∷ vs) ws = ground (arith, trim-trim window vs ws, length-append vs ws)

pub window_of-insert_self :
    (k : String) (vs : List Double) (t : Table (List Double)) → window_of (insert k vs t) k ≡ vs
window_of-insert_self k vs t =
    ap (λ o. elim o as (λ x. List Double) [ none ↦ [] | some ws ↦ ws ]) (lookup-insert_self k vs t)

pub window_of-insert_ne :
    (k j : String) (vs : List Double) (t : Table (List Double))
    → str_eq k j ≡ false
    → window_of (insert k vs t) j ≡ window_of t j
window_of-insert_ne k j vs t e =
    ap (λ o. elim o as (λ x. List Double) [ none ↦ [] | some ws ↦ ws ])
      (lookup-insert k j vs t ∙ ap (λ b. if b then some vs else lookup j t) e)

pub trim_again : (window : ℕ) (vs : List Double) → trim window (trim window vs) ≡ trim window vs
trim_again window vs =
    ap (trim window) (sym (append-nil (trim window vs)))
    ∙ trim-trim window vs []
    ∙ ap (trim window) (append-nil vs)

pub refl_trim : (window : ℕ) (k : String) → trim window (window_of [] k) ≡ window_of [] k
unfolding trim lookup
refl_trim window k = refl

pub empty_window : (k : String) → window_of [] k ≡ []
unfolding lookup
empty_window k = refl

pub created :
    (input : String) (window : ℕ) (output : String) {p : WindowAverageProcessor}
    → create_window_average input window output ≡ ok p
    → record { input = input; window = window; output = output; windows = [] } ≡ p
unfolding create_window_average
created input window output h = ground arith
