-- ===== src/Control/Dispatcher/Submit.antt =====
-- What `submit` answers, and why.
use mini_gateway.Prelude.{
  ℕ, max, ◌+◌, ◌%◌, ◌≤◌, ◌≡◌, ◌≢◌, ◌⊎◌, inl, inr, eq_iff, refl, Bool, true, false, not, ◌||◌, List,
  [], ◌∷◌, ◌++◌, arith, if◌then◌else◌, Result, length, length-append, u64_mod, leb, increment,
  leb→le,
}
use mini_gateway.Control.{
  DeviceControlRequest, ControlStats, ControlSubmitResult, accepted, queue_full, unknown_device,
  invalid_request, stopping,
}
use mini_gateway.Control.Queue.{ControlOperation, ControlQueue, ControlCompletion, try_push}
use mini_gateway.Control.Dispatcher.{
  Dispatcher, submit, count_submission, valid_request, is_resolved,
}

-- The submissions counted by their answers.
abbrev pub answers : ControlStats → ℕ
answers s = s.accepted + s.queue_full + s.unknown_device + s.invalid_requests + s.stopping

count_submission_lem :
    (result : ControlSubmitResult) (s : ControlStats)
    → answers (count_submission result s) % u64_mod ≡ (answers s + 1) % u64_mod
unfolding count_submission
count_submission_lem accepted s = omega arith
count_submission_lem queue_full s = omega arith
count_submission_lem unknown_device s = omega arith
count_submission_lem invalid_request s = omega arith
count_submission_lem stopping s = omega arith

submitted_lem :
    (result : ControlSubmitResult) (s : ControlStats)
    → (count_submission result s).submitted ≡ s.submitted
unfolding count_submission
submitted_lem accepted s = refl
submitted_lem queue_full s = refl
submitted_lem unknown_device s = refl
submitted_lem invalid_request s = refl
submitted_lem stopping s = refl

-- Why a submission is answered as it is, and the queue that it leaves.
pub data Reason (request : DeviceControlRequest) (completion : ControlCompletion)
    (driver : Result Bool) (now : ℕ) (d : Dispatcher)
    : ControlSubmitResult → ControlQueue → Type 0 where
  malformed :
      (request.device_id ≡ "") ⊎ (request.command ≡ "")
      → Reason request completion driver now d invalid_request d.queue
  not_running :
      (d.started ≡ false) ⊎ (d.stopping ≡ true) ⊎ (d.queue.closed ≡ true)
      → Reason request completion driver now d stopping d.queue
  unresolved :
      is_resolved driver ≡ false → Reason request completion driver now d unknown_device d.queue
  no_room :
      d.queue.capacity ≤ length d.queue.queue
      → Reason request completion driver now d queue_full
          (record d.queue { rejected_full = increment d.queue.rejected_full })
  stored :
      (request.device_id ≢ "") × (request.command ≢ "")
      → (d.started ≡ true) × (d.stopping ≡ false) × (is_resolved driver ≡ true)
      → (queue : ControlQueue)
      → queue.queue
        ≡ d.queue.queue
          ++ record { request = request; completion = completion; enqueued_at = now } ∷ []
      → length queue.queue ≤ queue.capacity
      → queue.accepted ≡ increment d.queue.accepted
      → Reason request completion driver now d accepted queue

pub record IsSubmission (request : DeviceControlRequest) (completion : ControlCompletion)
    (driver : Result Bool) (now : ℕ) (d : Dispatcher) (after : ControlSubmitResult × Dispatcher)
    : Type 0 where
  pub counted : answers after.1.stats % u64_mod ≡ (answers d.stats + 1) % u64_mod
  pub total : after.1.stats.submitted ≡ increment d.stats.submitted
  pub reason : Reason request completion driver now d after.0 after.1.queue

malformed_lem :
    (request : DeviceControlRequest)
    → valid_request request ≡ false
    → (request.device_id ≡ "") ⊎ (request.command ≡ "")
unfolding valid_request
malformed_lem request e = ground (arith, eq_iff request.device_id "", eq_iff request.command "")

named_lem :
    (request : DeviceControlRequest)
    → valid_request request ≡ true
    → (request.device_id ≢ "") × (request.command ≢ "")
unfolding valid_request
named_lem request e =
    (ground (arith, eq_iff request.device_id ""), ground (arith, eq_iff request.command ""))

module _ (request : DeviceControlRequest) (completion : ControlCompletion) (driver : Result Bool)
    (now : ℕ) (d : Dispatcher) where
  abbrev entered : ControlStats
  entered = record d.stats { submitted = increment d.stats.submitted }

  answered-IsSubmission :
      (result : ControlSubmitResult) (queue : ControlQueue)
      → Reason request completion driver now d result queue
      → IsSubmission request completion driver now d
          (result, record d { queue = queue; stats = count_submission result entered })
  answered-IsSubmission result queue reason = record {
    counted = count_submission_lem result entered;
    total = submitted_lem result entered;
    reason = reason;
  }

  push-Reason :
      (request.device_id ≢ "") × (request.command ≢ "")
      → (d.started ≡ true) × (d.stopping ≡ false) × (is_resolved driver ≡ true)
      → let (result, queue) = try_push request completion now d.queue in
        Reason request completion driver now d result queue
  unfolding try_push
  push-Reason named running =
      go d.queue.closed (leb d.queue.capacity (length d.queue.queue)) refl refl
    where
      q : ControlQueue
      q = d.queue

      longer : List ControlOperation
      longer =
          q.queue ++ record { request = request; completion = completion; enqueued_at = now } ∷ []

      go :
          (closed full : Bool)
          → q.closed ≡ closed
          → leb q.capacity (length q.queue) ≡ full
          → let tried : ControlSubmitResult × ControlQueue =
              if closed
              then (stopping, q)
              else if full
              then (queue_full, record q { rejected_full = increment q.rejected_full })
              else (
                accepted,
                record q {
                  queue = longer;
                  max_size = max q.max_size (length longer);
                  accepted = increment q.accepted;
                },
              ) in
            Reason request completion driver now d tried.0 tried.1
      go true full e k = not_running (inr (inr e))
      go false true e k = no_room (leb→le q.capacity (length q.queue) k)
      go false false e k =
          stored named running _ refl
            (ground (
              arith,
              length-append q.queue
                  (record { request = request; completion = completion; enqueued_at = now } ∷ []),
            ))
            refl

  pub submit-IsSubmission :
      IsSubmission request completion driver now d (submit request completion driver now d)
  unfolding submit
  submit-IsSubmission =
      go (valid_request request) d.started d.stopping (is_resolved driver) refl refl refl refl
    where
      go :
          (valid started stop resolved : Bool)
          → valid_request request ≡ valid
          → d.started ≡ started
          → d.stopping ≡ stop
          → is_resolved driver ≡ resolved
          → IsSubmission request completion driver now d (
              if not valid
              then (invalid_request, record d { stats = count_submission invalid_request entered })
              else if not started || stop
              then (stopping, record d { stats = count_submission stopping entered })
              else if not resolved
              then (unknown_device, record d { stats = count_submission unknown_device entered })
              else let (result, queue) = try_push request completion now d.queue in
                (result, record d { queue = queue; stats = count_submission result entered }))
      go false started stop resolved v a b r =
          answered-IsSubmission invalid_request d.queue (malformed (malformed_lem request v))
      go true false stop resolved v a b r =
          answered-IsSubmission stopping d.queue (not_running (inl a))
      go true true true resolved v a b r =
          answered-IsSubmission stopping d.queue (not_running (inr (inl b)))
      go true true false false v a b r = answered-IsSubmission unknown_device d.queue (unresolved r)
      go true true false true v a b r =
          let tried : ControlSubmitResult × ControlQueue =
            try_push request completion now d.queue in
          answered-IsSubmission tried.0 tried.1 (push-Reason (named_lem request v) (a, b, r))
