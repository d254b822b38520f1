-- ===== src/Mqtt/Tidy.antt =====
-- Every call and callback keeps the publisher tidy.
use mini_gateway.Prelude.{
  ℕ, ◌+◌, ◌≡◌, refl, ap, sym, ◌∙◌, Bool, true, false, not, ◌&&◌, List, [], ◌∷◌, ◌++◌, arith,
  if◌then◌else◌, increment, String, >>=_returns, ok_injective, subst, throw_if, ◌>>◌, logic_error,
  Result, ok, err,
}
use mini_gateway.Model.{GatewayConfig}
use mini_gateway.Mqtt.{
  MqttPublisherConfig, MqttEventPublisher, Codes, ReturnCode, Act, made, destroyed, Called,
  StartAnswers, create, configure, start, connect_client, cleanup, is_success, count_send, publish,
  stop, check_devices, paho_error, validate_config, on_connected, on_disconnected,
  on_publish_success,
}
use mini_gateway.Mqtt.Handles.{
  Call, configure_publisher, start_publisher, publish_event, stop_publisher, connect_success,
  reconnected, connect_failure, connection_lost, acknowledgement, History, begin, after_configure,
  step, run, IsTidy, moves-IsTidy,
}

module _ (codes : Codes) where
  configure-IsTidy :
      (h : History) (gateway : GatewayConfig)
      → IsTidy h
      → IsTidy (step codes h (configure_publisher gateway))
  unfolding step configure
  configure-IsTidy h gateway t =
      go h.publisher.started (validate_config h.publisher.config) (check_devices gateway.devices)
    where
      go :
          (b : Bool) (valid checked : Result (Unit {0}))
          → IsTidy (
              after_configure h (
                throw_if b (logic_error "cannot configure a running MQTT event publisher")
                >> (valid >> (checked >> ok (record h.publisher { configured = true })))))
      go true valid checked = t
      go false (err thrown) checked = t
      go false (ok u) (err thrown) = t
      go false (ok u) (ok v) = record {
        running = t.running;
        handles = t.handles;
        counted = t.counted;
      }

  connect_client-IsTidy :
      (h : History) (a : StartAnswers)
      → IsTidy h
      → h.publisher.started ≡ false
      → IsTidy (record h {
        publisher = (connect_client codes a (record h.publisher { client = true })).publisher;
        acts = h.acts ++ (connect_client codes a (record h.publisher { client = true })).acts;
      })
  unfolding connect_client cleanup
  connect_client-IsTidy h a t idle =
      go (is_success a.set_connection_lost) (is_success a.set_connected) (is_success a.connect)
    where
      p : MqttEventPublisher
      p = record h.publisher { client = true }

      undone :
          (operation : String) (rc : ReturnCode)
          → IsTidy (record h {
            publisher = (cleanup codes operation rc p).publisher;
            acts = h.acts ++ (cleanup codes operation rc p).acts;
          })
      undone operation rc =
          moves-IsTidy h _ _ t refl (ap (λ b. 1 + (if b then 1 else 0)) idle) (refl, refl, refl)

      go :
          (lost connected connect : Bool)
          → let called : Called (Unit {0}) =
              if not lost
              then cleanup codes "MQTTAsync_setConnectionLostCallback" a.set_connection_lost p
              else if not connected
              then cleanup codes "MQTTAsync_setConnected" a.set_connected p
              else if not connect
              then cleanup codes "MQTTAsync_connect" a.connect p
              else record {
                publisher = record p { started = true };
                acts = made ∷ [];
                result = ok tt;
              } in
            IsTidy (record h { publisher = called.publisher; acts = h.acts ++ called.acts })
      go false connected connect =
          undone "MQTTAsync_setConnectionLostCallback" a.set_connection_lost
      go true false connect = undone "MQTTAsync_setConnected" a.set_connected
      go true true false = undone "MQTTAsync_connect" a.connect
      go true true true =
          moves-IsTidy h _ _ t refl (ap (λ b. 1 + (if b then 1 else 0)) idle) (refl, refl, refl)

  start-IsTidy :
      (h : History) (a : StartAnswers) → IsTidy h → IsTidy (step codes h (start_publisher a))
  unfolding step start
  start-IsTidy h a t = go h.publisher.configured h.publisher.started (is_success a.create) refl
    where
      go :
          (configured started created : Bool)
          → h.publisher.started ≡ started
          → let called : Called (Unit {0}) =
              if not configured
              then record {
                publisher = h.publisher;
                acts = [];
                result = err (logic_error "MQTT event publisher is not configured");
              }
              else if started
              then record {
                publisher = h.publisher;
                acts = [];
                result = err (logic_error "MQTT event publisher is already running");
              }
              else if not created
              then record {
                publisher = record h.publisher {
                  client = false;
                  started = false;
                  connected = false;
                };
                acts = [];
                result = err (paho_error codes "MQTTAsync_create" a.create);
              }
              else connect_client codes a (record h.publisher { client = true }) in
            IsTidy (record h { publisher = called.publisher; acts = h.acts ++ called.acts })
      go false started created e = moves-IsTidy h h.publisher [] t t.running refl (refl, refl, refl)
      go true true created e = moves-IsTidy h h.publisher [] t t.running refl (refl, refl, refl)
      go true false false e =
          moves-IsTidy h _ [] t refl (ap (λ b. 0 + (if b then 1 else 0)) e) (refl, refl, refl)
      go true false true e = connect_client-IsTidy h a t e

  publish-IsTidy :
      (h : History) (payload_size : ℕ) (send : ReturnCode)
      → IsTidy h
      → IsTidy (step codes h (publish_event payload_size send))
  unfolding step publish count_send
  publish-IsTidy h payload_size send t = ground arith

  stop-IsTidy :
      (h : History) (disconnect : ReturnCode) (in_time : Bool)
      → IsTidy h
      → IsTidy (step codes h (stop_publisher disconnect in_time))
  unfolding step stop
  stop-IsTidy h disconnect in_time t = go h.publisher.client refl
    where
      go :
          (client : Bool)
          → h.publisher.client ≡ client
          → let stopped : MqttEventPublisher × List Act =
              if not client
              then (record h.publisher { started = false; connected = false }, [])
              else (
                record h.publisher {
                  client = false;
                  started = false;
                  connected = false;
                  disconnect_complete = is_success disconnect && in_time;
                },
                destroyed ∷ [],
              ) in
            IsTidy (record h { publisher = stopped.0; acts = h.acts ++ stopped.1 })
      go false e =
          moves-IsTidy h _ [] t e (ap (λ b. 0 + (if b then 1 else 0)) (sym t.running ∙ e))
            (refl, refl, refl)
      go true e =
          moves-IsTidy h _ (destroyed ∷ []) t refl
            (ap (λ b. 0 + (if b then 1 else 0)) (sym t.running ∙ e)) (refl, refl, refl)

  -- A callback changes no handle and counts no event.
  callback-IsTidy :
      (h : History) (connected : Bool) (acknowledged : ℕ)
      → IsTidy h
      → IsTidy (record h {
        publisher = record h.publisher { connected = connected; acknowledged = acknowledged };
      })
  callback-IsTidy h connected acknowledged t = record {
    running = t.running;
    handles = t.handles;
    counted = t.counted;
  }

  step-IsTidy : (h : History) (c : Call) → IsTidy h → IsTidy (step codes h c)
  unfolding step on_connected on_disconnected on_publish_success
  step-IsTidy h (configure_publisher gateway) t = configure-IsTidy h gateway t
  step-IsTidy h (start_publisher a) t = start-IsTidy h a t
  step-IsTidy h (publish_event payload_size send) t = publish-IsTidy h payload_size send t
  step-IsTidy h (stop_publisher disconnect in_time) t = stop-IsTidy h disconnect in_time t
  step-IsTidy h connect_success t = callback-IsTidy h true h.publisher.acknowledged t
  step-IsTidy h reconnected t = callback-IsTidy h true h.publisher.acknowledged t
  step-IsTidy h connect_failure t = callback-IsTidy h false h.publisher.acknowledged t
  step-IsTidy h connection_lost t = callback-IsTidy h false h.publisher.acknowledged t
  step-IsTidy h acknowledgement t =
      callback-IsTidy h h.publisher.connected (increment h.publisher.acknowledged) t

  run_all-IsTidy : (calls : List Call) (h : History) → IsTidy h → IsTidy (run codes h calls)
  unfolding run
  run_all-IsTidy [] h t = t
  run_all-IsTidy (c ∷ calls) h t = run_all-IsTidy calls (step codes h c) (step-IsTidy h c t)

  begin-IsTidy :
      (config : MqttPublisherConfig) {p : MqttEventPublisher}
      → create config ≡ ok p
      → IsTidy (begin p)
  unfolding create
  begin-IsTidy config {p} e =
      let (u, h₁, valid) = >>=_returns (validate_config config) _ e in
      subst (λ q. IsTidy (begin q)) (ok_injective h₁)
        (record { running = refl; handles = refl; counted = refl })

  -- From a new publisher, after any calls and callbacks in any order, whatever the client library
  -- answers: the publisher holds a client exactly while it runs; every client that was made has been
  -- destroyed, but for that one; and every event that was offered is counted once, as accepted,
  -- unavailable or rejected (modulo 2^64).
  pub run-create-IsTidy :
      (config : MqttPublisherConfig) (calls : List Call) {p : MqttEventPublisher}
      → create config ≡ ok p
      → IsTidy (run codes (begin p) calls)
  run-create-IsTidy config calls {p} e = run_all-IsTidy calls (begin p) (begin-IsTidy config e)
