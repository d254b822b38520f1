-- ===== src/Runtime/Lifecycle/Collect.antt =====
-- The plugins that a list of calls names in calls of one kind.
use mini_gateway.Prelude.{
  ℕ, String, Option, none, some, List, [], ◌∷◌, ◌++◌, map, ◌≡◌, refl, ap, ◌∙◌, Bool, true, false,
}
use mini_gateway.Runtime.Lifecycle.{
  Act, start_publisher, stop_publisher, start_driver, stop_driver, start_source, stop_source,
  start_dispatcher, join_dispatcher, start_worker, join_worker, when,
}

abbrev pub collect {ℓ κ} : {A : Type ℓ} {B : Type κ} → (A → Option B) → List A → List B
collect f [] = []
collect f (x ∷ xs) = elim (f x) [ none ↦ collect f xs | some b ↦ b ∷ collect f xs ]

pub collect-append {ℓ κ} :
    {A : Type ℓ} {B : Type κ} (f : A → Option B) (xs ys : List A)
    → collect f (xs ++ ys) ≡ collect f xs ++ collect f ys
collect-append f [] ys = refl
collect-append {A = A} {B = B} f (x ∷ xs) ys = go (f x) (collect-append f xs ys)
  where
    go :
        (o : Option B)
        → collect f (xs ++ ys) ≡ collect f xs ++ collect f ys
        → (elim o [ none ↦ collect f (xs ++ ys) | some b ↦ b ∷ collect f (xs ++ ys) ])
          ≡ (elim o [ none ↦ collect f xs | some b ↦ b ∷ collect f xs ]) ++ collect f ys
    go none rest = rest
    go (some b) rest = ap (λ bs. b ∷ bs) rest

-- Calls of the one kind name all the plugins; calls of another kind name none.
pub collect-map-some {ℓ κ} :
    {A : Type ℓ} {B : Type κ} (f : A → Option B) (c : B → A) (xs : List B)
    → ((x : B) → f (c x) ≡ some x)
    → collect f (map c xs) ≡ xs
collect-map-some f c [] h = refl
collect-map-some f c (x ∷ xs) h =
    ap (λ o. elim o [ none ↦ collect f (map c xs) | some b ↦ b ∷ collect f (map c xs) ]) (h x)
    ∙ ap (λ bs. x ∷ bs) (collect-map-some f c xs h)

pub collect-map-none {ℓ κ μ} :
    {A : Type ℓ} {B : Type κ} {D : Type μ} (f : A → Option B) (c : D → A) (xs : List D)
    → ((x : D) → f (c x) ≡ none)
    → collect f (map c xs) ≡ []
collect-map-none f c [] h = refl
collect-map-none f c (x ∷ xs) h =
    ap (λ o. elim o [ none ↦ collect f (map c xs) | some b ↦ b ∷ collect f (map c xs) ]) (h x)
    ∙ collect-map-none f c xs h

abbrev pub publisher_started : Act → Option String
publisher_started (start_publisher x) = some x
publisher_started _ = none

abbrev pub publisher_stopped : Act → Option String
publisher_stopped (stop_publisher x) = some x
publisher_stopped _ = none

abbrev pub driver_started : Act → Option String
driver_started (start_driver x) = some x
driver_started _ = none

abbrev pub driver_stopped : Act → Option String
driver_stopped (stop_driver x) = some x
driver_stopped _ = none

abbrev pub source_started : Act → Option ℕ
source_started (start_source x) = some x
source_started _ = none

abbrev pub source_stopped : Act → Option ℕ
source_stopped (stop_source x) = some x
source_stopped _ = none

abbrev pub dispatcher_started : Act → Option (Unit {0})
dispatcher_started start_dispatcher = some tt
dispatcher_started _ = none

abbrev pub dispatcher_joined : Act → Option (Unit {0})
dispatcher_joined join_dispatcher = some tt
dispatcher_joined _ = none

abbrev pub worker_started : Act → Option (Unit {0})
worker_started start_worker = some tt
worker_started _ = none

abbrev pub worker_joined : Act → Option (Unit {0})
worker_joined join_worker = some tt
worker_joined _ = none

pub collect-when_none {κ} :
    {B : Type κ} (f : Act → Option B) (b : Bool) (acts : List Act)
    → collect f acts ≡ []
    → collect f (when b acts) ≡ []
collect-when_none f true acts h = h
collect-when_none f false acts h = refl
