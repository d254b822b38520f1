-- ===== src/Control/Service/Conserved.antt =====
-- What a trace of the service says of the operations: none is lost and none is doubled.
use mini_gateway.Prelude.{
  ◌≡◌, refl, sym, ap, ◌∙◌, List, [], ◌∷◌, ◌++◌, append-nil, append_assoc, if◌then◌else◌,
}
use mini_gateway.Control.Queue.{ControlOperation}
use mini_gateway.Control.Service.{
  Service, Event, Serves, rests, refuses, accepts, completes, closes, Trace, starts, goes_on,
  accepted_one, accepted_of,
}
use mathlib.Core.List.{perm_append_singleton}
use mathlib.Mathlib.Data.Multiset.Defs.{of_list, coe-eq-coe}
use mathlib.Mathlib.Data.Multiset.ZeroCons.{cons}
use mathlib.Mathlib.Data.Multiset.AddSub.{add, cons-add, add-cons}

pub accepted_of-append :
    (xs ys : List Event) → accepted_of (xs ++ ys) ≡ accepted_of xs ++ accepted_of ys
unfolding accepted_of
accepted_of-append [] ys = refl
accepted_of-append (x ∷ xs) ys =
    ap (λ rest. accepted_one x ++ rest) (accepted_of-append xs ys)
    ∙ sym (append_assoc (accepted_one x) (accepted_of xs) (accepted_of ys))

-- an operation at the end of a list
last :
    (xs : List ControlOperation) (x : ControlOperation)
    → of_list (xs ++ x ∷ []) ≡ cons x (of_list xs)
last xs x = coe-eq-coe.1 (perm_append_singleton x xs)

-- The accepted operations are those that are completed and those that are pending.
abbrev pub IsConserved : List ControlOperation → Service → Type 0
IsConserved operations t = of_list operations ≡ add (of_list t.completed) t.pending

same-IsConserved :
    (operations : List ControlOperation) (s t : Service)
    → t.pending ≡ s.pending
    → t.completed ≡ s.completed
    → IsConserved operations s
    → IsConserved (operations ++ []) t
same-IsConserved operations s t p c h =
    ap of_list (append-nil operations)
    ∙ h
    ∙ ap (λ done. add (of_list done) s.pending) (sym c)
    ∙ ap (λ rest. add (of_list t.completed) rest) (sym p)

Serves-IsConserved :
    (operations : List ControlOperation) (event : Event) (s t : Service)
    → Serves event s t
    → IsConserved operations s
    → IsConserved (operations ++ accepted_one event) t
Serves-IsConserved operations _ s t (rests a p c) h = same-IsConserved operations s t p c h
Serves-IsConserved operations _ s t (closes a b p c) h = same-IsConserved operations s t p c h
Serves-IsConserved operations _ s t (refuses {operation} {result} r a p c) h =
    ap (λ b. of_list (operations ++ (if b then operation ∷ [] else []))) r
    ∙ same-IsConserved operations s t p c h
Serves-IsConserved operations _ s t (accepts {operation} a b p c) h =
    last operations operation
    ∙ ap (cons operation) (h ∙ ap (λ done. add (of_list done) s.pending) (sym c))
    ∙ sym (add-cons operation (of_list t.completed) s.pending)
    ∙ ap (λ rest. add (of_list t.completed) rest) (sym p)
Serves-IsConserved operations _ s t (completes operation a p c) h =
    ap of_list (append-nil operations)
    ∙ h
    ∙ ap (λ rest. add (of_list s.completed) rest) p
    ∙ add-cons operation (of_list s.completed) t.pending
    ∙ sym (cons-add operation (of_list s.completed) t.pending)
    ∙ ap (λ done. add done t.pending) (sym (last s.completed operation) ∙ ap of_list (sym c))

-- Whatever the service does, each operation that it accepted is completed or pending, as often as it
-- was accepted.
pub Trace-IsConserved :
    (s t : Service) (events : List Event)
    → Trace s events t
    → IsConserved [] s
    → IsConserved (accepted_of events) t
unfolding accepted_of
Trace-IsConserved s _ _ starts h = h
Trace-IsConserved s u _ (goes_on {t = t} {events = events} {event = event} before last_one) h =
    ap of_list (
      accepted_of-append events (event ∷ [])
      ∙ ap (λ rest. accepted_of events ++ rest) (append-nil (accepted_one event)))
    ∙ Serves-IsConserved (accepted_of events) event t u last_one
        (Trace-IsConserved s t events before h)
