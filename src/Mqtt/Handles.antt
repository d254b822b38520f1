-- ===== src/Mqtt/Handles.antt =====
-- The client's handle over the calls of a publisher and the callbacks of the client library.
use mini_gateway.Prelude.{
  ℕ, suc, ◌+◌, ◌%◌, ◌≡◌, Bool, true, false, List, [], ◌∷◌, ◌++◌, count, count-append, arith,
  if◌then◌else◌, u64_mod, Result, ok, err,
}
use mini_gateway.Model.{GatewayConfig}
use mini_gateway.Mqtt.{
  MqttEventPublisher, Codes, ReturnCode, Act, made, destroyed, StartAnswers, configure, start,
  publish, stop, on_connected, on_disconnected, on_publish_success,
}

pub data Call : Type 0 where
  configure_publisher : GatewayConfig → Call
  start_publisher : StartAnswers → Call
  publish_event : ℕ → ReturnCode → Call
  stop_publisher : ReturnCode → Bool → Call
  connect_success reconnected connect_failure connection_lost acknowledgement : Call

-- The publisher with what was done to handles, oldest first, and how many events were offered.
pub record History : Type 0 where
  pub publisher : MqttEventPublisher
  pub acts : List Act
  pub offered : ℕ

abbrev pub begin : MqttEventPublisher → History
begin p = record { publisher = p; acts = []; offered = 0 }

abbrev pub after_configure : History → Result MqttEventPublisher → History
after_configure h (ok p) = record h { publisher = p }
after_configure h (err thrown) = h

unfoldable pub step : Codes → History → Call → History
unfolding configure start publish stop on_connected on_disconnected on_publish_success
step codes h (configure_publisher gateway) = after_configure h (configure gateway h.publisher)
step codes h (start_publisher a) =
    let called = start codes a h.publisher in
    record h { publisher = called.publisher; acts = h.acts ++ called.acts }
step codes h (publish_event payload_size send) = record h {
  publisher = (publish payload_size send h.publisher).0;
  offered = suc h.offered;
}
step codes h (stop_publisher disconnect in_time) =
    let stopped = stop disconnect in_time h.publisher in
    record h { publisher = stopped.0; acts = h.acts ++ stopped.1 }
step codes h connect_success = record h { publisher = on_connected h.publisher }
step codes h reconnected = record h { publisher = on_connected h.publisher }
step codes h connect_failure = record h { publisher = on_disconnected h.publisher }
step codes h connection_lost = record h { publisher = on_disconnected h.publisher }
step codes h acknowledgement = record h { publisher = on_publish_success h.publisher }

unfoldable pub run : Codes → History → List Call → History
unfolding step
run codes h [] = h
run codes h (c ∷ calls) = run codes (step codes h c) calls

abbrev pub is_made : Act → Bool
is_made made = true
is_made destroyed = false

abbrev pub is_destroyed : Act → Bool
is_destroyed made = false
is_destroyed destroyed = true

-- The publisher holds a handle exactly while it runs, each handle that was made and is not held has
-- been destroyed, and every event that was offered is counted once.
pub record IsTidy (h : History) : Type 0 where
  pub running : h.publisher.client ≡ h.publisher.started
  pub handles :
      count is_made h.acts ≡ count is_destroyed h.acts + (if h.publisher.started then 1 else 0)
  pub counted :
      (h.publisher.accepted + h.publisher.unavailable + h.publisher.rejected) % u64_mod
      ≡ h.offered % u64_mod

-- A call that makes or destroys handles, and counts no event.
pub moves-IsTidy :
    (h : History) (q : MqttEventPublisher) (acts : List Act)
    → IsTidy h
    → q.client ≡ q.started
    → count is_made acts + (if h.publisher.started then 1 else 0)
      ≡ count is_destroyed acts + (if q.started then 1 else 0)
    → (q.accepted ≡ h.publisher.accepted)
      × (q.unavailable ≡ h.publisher.unavailable)
      × (q.rejected ≡ h.publisher.rejected)
    → IsTidy (record h { publisher = q; acts = h.acts ++ acts })
moves-IsTidy h q acts t running moved (a, u, r) = record {
  running = running;
  handles = omega (
    arith,
    t.handles,
    moved,
    count-append is_made h.acts acts,
    count-append is_destroyed h.acts acts,
  );
  counted = omega (arith, t.counted, a, u, r);
}
