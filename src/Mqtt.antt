-- ===== src/Mqtt.antt =====
-- include/mqtt/mqtt_event_publisher.hpp and src/publisher/mqtt/mqtt_event_publisher.cpp: the MQTT publisher.
-- The client library's return codes, and what it says of them, are inputs; its callbacks are calls
-- of their own. The payload is given by its size.
pub mod Handles
pub mod Tidy
pub mod Make
mod Tests
use mini_gateway.Prelude.{
  ℕ, ◌-◌, ◌^◌, Bool, true, false, not, ◌&&◌, ◌||◌, String, concat, Option, none, some, List, [],
  ◌∷◌, ◌++◌, ltb, leb, ◌==◌, is_empty, is_some, if◌then◌else◌, increment, Error, runtime_error,
  invalid_argument, logic_error, Result, ok, err, ◌>>=◌, ◌>>◌, throw_if,
}
use mini_gateway.Prelude.Int.{ℤ, pos, negsuc}
use mini_gateway.Model.{GatewayConfig, DeviceConfig}
use mini_gateway.Runtime.Work.{EventPublishResult, accepted, unavailable, rejected}
use text.Mathlib.Text.{find?}

pub record MqttPublisherConfig : Type 0 where
  pub host : String
  pub port : ℤ
  pub keepalive : ℤ
  pub client_id : String
  pub topic_prefix : String
  pub qos : ℤ
  pub retain : Bool
  pub clean_session : Bool
  pub username : String
  pub password : String
  pub reconnect_delay : ℕ
  pub reconnect_delay_max : ℕ
  pub reconnect_exponential_backoff : Bool

-- A return code of the client library, as far as the publisher tells them apart.
pub data ReturnCode : Type 0 where
  success disconnected max_messages_inflight no_more_msgids : ReturnCode
  operation_incomplete max_buffered_messages : ReturnCode
  other : ℤ → ReturnCode

-- What `<<` writes for a code, and `MQTTAsync_strerror`.
pub record Codes : Type 0 where
  pub number : ReturnCode → String
  pub strerror : ReturnCode → Option String

unfoldable pub paho_error : Codes → String → ReturnCode → Error
paho_error codes operation rc = runtime_error (
    concat operation (
      concat " failed (" (
        concat (codes.number rc)
          (concat (elim (codes.strerror rc) [ none ↦ "" | some text ↦ concat ": " text ]) ")"))))

unfoldable pub is_temporarily_unavailable : ReturnCode → Bool
is_temporarily_unavailable disconnected = true
is_temporarily_unavailable max_messages_inflight = true
is_temporarily_unavailable no_more_msgids = true
is_temporarily_unavailable operation_incomplete = true
is_temporarily_unavailable max_buffered_messages = true
is_temporarily_unavailable success = false
is_temporarily_unavailable (other code) = false

-- `minimum <= value && value <= maximum`, for a minimum that is not negative
abbrev pub within : ℕ → ℕ → ℤ → Bool
within minimum maximum (pos value) = leb minimum value && leb value maximum
within minimum maximum (negsuc value) = false

abbrev pub is_one : ℤ → Bool
is_one (pos value) = value == 1
is_one (negsuc value) = false

-- the test of a topic's text for wildcards and NUL
unfoldable pub has_wildcard : String → Bool
has_wildcard text =
    is_some (find? text "+") || is_some (find? text "#") || is_some (find? text "\0")

unfoldable pub validate_config : MqttPublisherConfig → Result (Unit {0})
unfolding has_wildcard
validate_config c = do
  throw_if (is_empty c.host || is_empty c.client_id || is_empty c.topic_prefix)
      (invalid_argument "MQTT host, client_id and topic_prefix are required")
  throw_if (not (within 1 65_535 c.port)) (invalid_argument "MQTT port must be between 1 and 65535")
  throw_if (not (within 0 65_535 c.keepalive) || is_one c.keepalive)
      (invalid_argument "MQTT keepalive must be 0 or in range 2..65535")
  throw_if (has_wildcard c.topic_prefix)
      (invalid_argument "MQTT topic_prefix must not contain +, # or NUL")
  throw_if (not (within 0 2 c.qos)) (invalid_argument "MQTT QoS must be 0, 1 or 2")
  throw_if
      ((c.reconnect_delay == 0)
        || ltb c.reconnect_delay_max c.reconnect_delay
        || ltb (2 ^ 31 - 1) c.reconnect_delay_max)
      (invalid_argument "MQTT reconnect delays must satisfy 1 <= delay <= delay_max <= INT_MAX")
  throw_if (not c.reconnect_exponential_backoff)
      (invalid_argument "Paho MQTTAsync requires exponential reconnect backoff")
  ok tt

-- `client` is whether the handle is not null.
pub record MqttEventPublisher : Type 0 where
  pub config : MqttPublisherConfig
  pub client : Bool
  pub disconnect_complete : Bool
  pub configured : Bool
  pub started : Bool
  pub connected : Bool
  pub accepted : ℕ
  pub acknowledged : ℕ
  pub unavailable : ℕ
  pub rejected : ℕ

-- the constructor
unfoldable pub create : MqttPublisherConfig → Result MqttEventPublisher
unfolding validate_config
create config = do
  validate_config config
  ok (record {
    config = config;
    client = false;
    disconnect_complete = false;
    configured = false;
    started = false;
    connected = false;
    accepted = 0;
    acknowledged = 0;
    unavailable = 0;
    rejected = 0;
  })

-- the loop of `configure`
unfoldable pub check_devices : List DeviceConfig → Result (Unit {0})
unfolding has_wildcard
check_devices [] = ok tt
check_devices (device ∷ devices) = do
  throw_if (has_wildcard device.id)
      (invalid_argument (concat "MQTT topic device id must not contain +, # or NUL: " device.id))
  check_devices devices

unfoldable pub configure : GatewayConfig → MqttEventPublisher → Result MqttEventPublisher
unfolding validate_config check_devices
configure gateway p = do
  throw_if p.started (logic_error "cannot configure a running MQTT event publisher")
  validate_config p.config
  check_devices gateway.devices
  ok (record p { configured = true })

-- What is done to the client's handle: it is made or destroyed.
pub data Act : Type 0 where
  made destroyed : Act

-- What a call leaves: the publisher, what it did to the handle, and its result.
pub record Called (A : Type 0) : Type 0 where
  pub publisher : MqttEventPublisher
  pub acts : List Act
  pub result : Result A

-- The answers of `MQTTAsync_create`, `…_setConnectionLostCallback`, `…_setConnected` and `…_connect`.
pub record StartAnswers : Type 0 where
  pub create : ReturnCode
  pub set_connection_lost : ReturnCode
  pub set_connected : ReturnCode
  pub connect : ReturnCode

abbrev pub is_success : ReturnCode → Bool
is_success success = true
is_success _ = false

-- the `cleanup` of `start`, and the throw after it
unfoldable pub cleanup : Codes → String → ReturnCode → MqttEventPublisher → Called (Unit {0})
unfolding paho_error
cleanup codes operation rc p = record {
  publisher = record p { client = false; started = false; connected = false };
  acts = made ∷ destroyed ∷ [];
  result = err (paho_error codes operation rc);
}

-- `start` after the client has been made
unfoldable pub connect_client : Codes → StartAnswers → MqttEventPublisher → Called (Unit {0})
unfolding cleanup
connect_client codes a p =
    if not (is_success a.set_connection_lost)
    then cleanup codes "MQTTAsync_setConnectionLostCallback" a.set_connection_lost p
    else if not (is_success a.set_connected)
    then cleanup codes "MQTTAsync_setConnected" a.set_connected p
    else if not (is_success a.connect)
    then cleanup codes "MQTTAsync_connect" a.connect p
    else record { publisher = record p { started = true }; acts = made ∷ []; result = ok tt }

unfoldable pub start : Codes → StartAnswers → MqttEventPublisher → Called (Unit {0})
unfolding connect_client paho_error
start codes a p =
    if not p.configured
    then record {
      publisher = p;
      acts = [];
      result = err (logic_error "MQTT event publisher is not configured");
    }
    else if p.started
    then record {
      publisher = p;
      acts = [];
      result = err (logic_error "MQTT event publisher is already running");
    }
    else if not (is_success a.create)
    then record {
      publisher = record p { client = false; started = false; connected = false };
      acts = [];
      result = err (paho_error codes "MQTTAsync_create" a.create);
    }
    else connect_client codes a (record p { client = true })

-- what `publish` counts of `MQTTAsync_send`'s answer
unfoldable pub count_send :
    ReturnCode → MqttEventPublisher → MqttEventPublisher × EventPublishResult
unfolding is_temporarily_unavailable
count_send rc p =
    if is_success rc
    then (record p { accepted = increment p.accepted }, accepted)
    else if is_temporarily_unavailable rc
    then (record p { unavailable = increment p.unavailable }, unavailable)
    else (record p { rejected = increment p.rejected }, rejected)

unfoldable pub publish :
    ℕ → ReturnCode → MqttEventPublisher → MqttEventPublisher × EventPublishResult
unfolding count_send
publish payload_size send p =
    if ltb (2 ^ 31 - 1) payload_size
    then (record p { rejected = increment p.rejected }, rejected)
    else if not p.started || not p.client
    then (record p { unavailable = increment p.unavailable }, unavailable)
    else count_send send p

-- `stop`, by whether the disconnection completes in time
unfoldable pub stop : ReturnCode → Bool → MqttEventPublisher → MqttEventPublisher × List Act
stop disconnect in_time p =
    if not p.client then (record p { started = false; connected = false }, []) else (
      record p {
        client = false;
        started = false;
        connected = false;
        disconnect_complete = is_success disconnect && in_time;
      },
      destroyed ∷ [],
    )

-- `on_connect_success` and `on_reconnected`
unfoldable pub on_connected : MqttEventPublisher → MqttEventPublisher
on_connected p = record p { connected = true }

-- `on_connect_failure` and `on_connection_lost`
unfoldable pub on_disconnected : MqttEventPublisher → MqttEventPublisher
on_disconnected p = record p { connected = false }

unfoldable pub on_publish_success : MqttEventPublisher → MqttEventPublisher
on_publish_success p = record p { acknowledged = increment p.acknowledged }

pub record MqttPublisherStats : Type 0 where
  pub accepted : ℕ
  pub acknowledged : ℕ
  pub unavailable : ℕ
  pub rejected : ℕ
  pub connected : Bool

unfoldable pub stats : MqttEventPublisher → MqttPublisherStats
stats p = record {
  accepted = p.accepted;
  acknowledged = p.acknowledged;
  unavailable = p.unavailable;
  rejected = p.rejected;
  connected = p.connected;
}
