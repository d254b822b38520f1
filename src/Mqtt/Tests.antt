-- ===== src/Mqtt/Tests.antt =====
-- A publisher that starts, sends, loses its broker and stops, and one whose connection fails.
use mini_gateway.Prelude.{◌≡◌, refl, true, false, none, List, [], ◌∷◌, ok, err, invalid_argument}
use mini_gateway.Prelude.Int.{pos}
use mini_gateway.Model.{GatewayConfig}
use mini_gateway.Mqtt.{
  MqttPublisherConfig, MqttEventPublisher, Codes, success, disconnected, StartAnswers, create,
  start, made, destroyed,
}
use mini_gateway.Mqtt.Tidy.{run-create-IsTidy}
use mini_gateway.Mqtt.Handles.{
  Call, configure_publisher, start_publisher, publish_event, stop_publisher, connect_success,
  connection_lost, acknowledgement, begin, run, IsTidy,
}

abbrev config : MqttPublisherConfig
config = record {
  host = "127.0.0.1";
  port = pos 1883;
  keepalive = pos 30;
  client_id = "edge-gateway";
  topic_prefix = "edge/events";
  qos = pos 1;
  retain = false;
  clean_session = true;
  username = "";
  password = "";
  reconnect_delay = 1;
  reconnect_delay_max = 30;
  reconnect_exponential_backoff = true;
}

abbrev fresh : MqttEventPublisher
fresh = record {
  config = config;
  client = false;
  disconnect_complete = false;
  configured = false;
  started = false;
  connected = false;
  accepted = 0;
  acknowledged = 0;
  unavailable = 0;
  rejected = 0;
}

is_created : create config ≡ ok fresh
unfolding create
is_created = refl

refuses_wildcard :
    create (record config { topic_prefix = "edge/#" })
    ≡ err (invalid_argument "MQTT topic_prefix must not contain +, # or NUL")
unfolding create
refuses_wildcard = refl

abbrev codes : Codes
codes = record { number = λ rc. "-1"; strerror = λ rc. none }

abbrev answers : StartAnswers
answers = record {
  create = success;
  set_connection_lost = success;
  set_connected = success;
  connect = success;
}

-- A connection that is refused leaves no client behind.
undoes_start :
    (start codes
      (record answers { connect = disconnected })
      (record fresh { configured = true })).acts
    ≡ made ∷ destroyed ∷ []
unfolding start
undoes_start = refl

abbrev gateway : GatewayConfig
gateway = record { raw_queue_capacity = 1; control_queue_capacity = 1; devices = []; groups = [] }

abbrev calls : List Call
calls =
    configure_publisher gateway
    ∷ start_publisher answers
    ∷ connect_success
    ∷ publish_event 100 success
    ∷ acknowledgement
    ∷ connection_lost
    ∷ publish_event 100 disconnected
    ∷ stop_publisher success true
    ∷ publish_event 100 success
    ∷ []

run-create-IsTidy_example : IsTidy (run codes (begin fresh) calls)
run-create-IsTidy_example = run-create-IsTidy codes config calls is_created
