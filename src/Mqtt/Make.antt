-- ===== src/Mqtt/Make.antt =====
-- `create_plugin` of src/publisher/mqtt/mqtt_event_publisher.cpp.
use mini_gateway.Prelude.{true, false, String, Option, Result, ◌>>=◌}
use mini_gateway.Prelude.Int.{pos}
use mini_gateway.Model.Std.{Platform}
use mini_gateway.Config.Json.{JsonLibrary}
use mini_gateway.Settings.{parse_object, string_member, int_member, bool_member, unsigned_member}
use mini_gateway.Settings.Make.{create_plugin}
use mini_gateway.Mqtt.{MqttEventPublisher, create}

module _ {Json : Type 0} (std : Platform) (json : JsonLibrary Json) where
  -- the `try` block
  unfoldable pub make_mqtt_publisher : String → Result MqttEventPublisher
  unfolding parse_object string_member int_member bool_member unsigned_member create
  make_mqtt_publisher settings_json = do
    settings ← parse_object std json settings_json "MQTT event publisher"
    host ← string_member std json settings "host" "MQTT event publisher" false
    port ← int_member std json settings "port" "MQTT event publisher" 1 65_535
    keepalive ← int_member std json settings "keepalive" "MQTT event publisher" 0 65_535
    client_id ← string_member std json settings "client_id" "MQTT event publisher" false
    topic_prefix ← string_member std json settings "topic_prefix" "MQTT event publisher" false
    qos ← int_member std json settings "qos" "MQTT event publisher" 0 2
    retain ← bool_member std json settings "retain" "MQTT event publisher"
    clean_session ← bool_member std json settings "clean_session" "MQTT event publisher"
    username ← string_member std json settings "username" "MQTT event publisher" true
    password ← string_member std json settings "password" "MQTT event publisher" true
    reconnect_delay ← unsigned_member std json settings "reconnect_delay" "MQTT event publisher"
    reconnect_delay_max ←
        unsigned_member std json settings "reconnect_delay_max" "MQTT event publisher"
    backoff ← bool_member std json settings "reconnect_exponential_backoff" "MQTT event publisher"
    create (record {
      host = host;
      port = pos port;
      keepalive = pos keepalive;
      client_id = client_id;
      topic_prefix = topic_prefix;
      qos = pos qos;
      retain = retain;
      clean_session = clean_session;
      username = username;
      password = password;
      reconnect_delay = reconnect_delay;
      reconnect_delay_max = reconnect_delay_max;
      reconnect_exponential_backoff = backoff;
    })

  unfoldable pub create_mqtt_plugin : Option String → Option MqttEventPublisher
  unfolding create_plugin make_mqtt_publisher
  create_mqtt_plugin settings_json = create_plugin make_mqtt_publisher settings_json
