-- ===== src/Runtime/Lifecycle/Order.antt =====
-- The order of a shutdown.
use mini_gateway.Prelude.{
  ℕ, Bool, true, false, ◌≤◌, List, [], ◌∷◌, ◌++◌, map, ◌≡◌, arith, All, All-append, All-imp,
}
use mini_gateway.Runtime.Lifecycle.{
  Act, stop_publisher, stop_driver, request_dispatcher_stop, join_dispatcher, join_worker,
  close_queue, refuse_controls, request_source_stop, stop_source, request_scheduler_stop,
  join_scheduler, when,
}

-- The place of a call in a shutdown; a start has none.
abbrev pub phase : Act → ℕ
phase refuse_controls = 0
phase (request_source_stop i) = 1
phase request_scheduler_stop = 2
phase join_scheduler = 3
phase request_dispatcher_stop = 4
phase join_dispatcher = 5
phase (stop_source i) = 6
phase (stop_driver d) = 7
phase close_queue = 8
phase join_worker = 9
phase (stop_publisher p) = 10
phase _ = 11

-- From phase `n` on, no call comes before one of an earlier phase.
abbrev pub InOrder : ℕ → List Act → Type 0
InOrder n [] = Unit
InOrder n (act ∷ acts) = (n ≤ phase act) × InOrder (phase act) acts

-- In order, and all of phases from `n` to `k`.
pub record Within (n k : ℕ) (acts : List Act) : Type 0 where
  pub in_order : InOrder n acts
  pub up_to : All (λ act. phase act ≤ k) acts
  pub ordered : n ≤ k

InOrder-weaken : (m n : ℕ) (acts : List Act) → m ≤ n → InOrder n acts → InOrder m acts
InOrder-weaken m n [] h k = tt
InOrder-weaken m n (act ∷ acts) h k = (omega (arith, k.0), k.1)

InOrder-append :
    (n k m : ℕ) (xs ys : List Act)
    → InOrder n xs
    → All (λ act. phase act ≤ k) xs
    → n ≤ k
    → InOrder m ys
    → k ≤ m
    → InOrder n (xs ++ ys)
InOrder-append n k m [] ys i all le j h = InOrder-weaken n m ys (omega (arith, le)) j
InOrder-append n k m (x ∷ xs) ys i all le j h =
    (i.0, InOrder-append (phase x) k m xs ys i.1 all.1 all.0 j h)

pub Within-append :
    (n k m l : ℕ) {xs ys : List Act} → Within n k xs → Within m l ys → k ≤ m → Within n l (xs ++ ys)
Within-append n k m l {xs} {ys} a b h = record {
  in_order = InOrder-append n k m xs ys a.in_order a.up_to a.ordered b.in_order h;
  up_to =
      All-append (λ act. phase act ≤ l) xs ys
        (All-imp (λ act. phase act ≤ k) (λ act. phase act ≤ l) xs
          (λ act c. omega (arith, c, h, b.ordered)) a.up_to)
        b.up_to;
  ordered = omega (arith, a.ordered, h, b.ordered);
}

pub Within-map :
    {A : Type 0} (n : ℕ) (c : A → Act) (xs : List A)
    → ((x : A) → phase (c x) ≡ n)
    → Within n n (map c xs)
Within-map n c [] h = record { in_order = tt; up_to = tt; ordered = omega arith }
Within-map n c (x ∷ xs) h =
    let rest : Within n n (map c xs) = Within-map n c xs h in
    record {
      in_order = (
        omega (arith, h x),
        InOrder-weaken (phase (c x)) n (map c xs) (omega (arith, h x)) rest.in_order,
      );
      up_to = (omega (arith, h x), rest.up_to);
      ordered = rest.ordered;
    }

pub Within-when :
    (n k : ℕ) (b : Bool) {acts : List Act} → Within n k acts → Within n k (when b acts)
Within-when n k true h = h
Within-when n k false h = record { in_order = tt; up_to = tt; ordered = h.ordered }

-- a call, then what comes in its phase or later
pub Within-cons :
    (act : Act) (n k m : ℕ) {acts : List Act}
    → n ≤ phase act
    → phase act ≤ m
    → Within m k acts
    → Within n k (act ∷ acts)
Within-cons act n k m {acts} h l a = record {
  in_order = (h, InOrder-weaken (phase act) m acts l a.in_order);
  up_to = (omega (arith, l, a.ordered), a.up_to);
  ordered = omega (arith, h, l, a.ordered);
}

pub Within-one : (act : Act) → Within (phase act) (phase act) (act ∷ [])
Within-one act = record {
  in_order = (omega arith, tt);
  up_to = (omega arith, tt);
  ordered = omega arith;
}

pub Within-two : (a b : Act) → phase a ≤ phase b → Within (phase a) (phase b) (a ∷ b ∷ [])
Within-two a b h = Within-cons a (phase a) (phase b) (phase b) (omega arith) h (Within-one b)
