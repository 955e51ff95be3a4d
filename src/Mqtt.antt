-- ===== src/Mqtt.antt =====
-- `MqttPublisher` of foxess_local_cloud/mqtt.py: the connection, the commands for the ActivePowerLimit, and
-- its entities. Text is a list of code points. `H` stands for the handlers; the JSON of an entity's
-- configuration is left out. A publication is an attempt: `_publish` only logs what the client's method
-- raises or returns, so the publisher does the same whether the message reaches the broker or not.
pub mod Topics
pub mod Commands
pub mod Entities
use foxess_local_gateway.Prelude.{
  ℕ, List, [], ◌∷◌, ◌++◌, Bool, true, false, not, ◌&&◌, ◌||◌, Option, none, some, ltb, leb, ◌=b◌,
  codes, if◌then◌else◌,
}
use foxess_local_gateway.Dict.{get, put, pop, member, discard}

-- What `int` returns.
pub data Integer : Type 0 where
  pos negsuc : ℕ → Integer

-- Calls of the client: a publication that is retained or not, one of a configuration, which is never
-- empty, and the subscriptions.
pub data ClientCall : Type 0 where
  publish : List ℕ → List ℕ → Bool → ClientCall
  publish_config : List ℕ → ClientCall
  subscribe : List ℕ → ClientCall
  unsubscribe : List ℕ → ClientCall

pub record MqttPublisher (H : Type 0) : Type 0 where
  pub has_client : Bool
  pub mqtt_connected : Bool
  pub announced : List (List ℕ)
  pub command_handlers : List (List ℕ × H)
  pub active_power_limit_announced : List (List ℕ)
  pub active_power_limit_cleared : List (List ℕ)

-- What happens to a message on a subscribed topic.
pub data Dispatched (H : Type 0) : Type 0 where
  decode_error unhandled not_int out_of_range : Dispatched H
  handled : H → ℕ → Dispatched H

-- The part of the configuration that is used: `config.host` is not empty, the prefixes, and whether
-- states are retained.
pub record MqttConfig : Type 0 where
  pub enabled : Bool
  pub topic_prefix : List ℕ
  pub discovery_prefix : List ℕ
  pub retain : Bool

abbrev pub active_power_limit_command_topic : MqttConfig → List ℕ → List ℕ
active_power_limit_command_topic config serial =
    config.topic_prefix ++ codes "/" ++ serial ++ codes "/active_power_limit/set"

abbrev pub active_power_limit_state_topic : MqttConfig → List ℕ → List ℕ
active_power_limit_state_topic config serial =
    config.topic_prefix ++ codes "/" ++ serial ++ codes "/active_power_limit/state"

abbrev pub active_power_limit_result_topic : MqttConfig → List ℕ → List ℕ
active_power_limit_result_topic config serial =
    config.topic_prefix ++ codes "/" ++ serial ++ codes "/active_power_limit/result"

abbrev pub limit_config_topic : MqttConfig → List ℕ → List ℕ
limit_config_topic config serial =
    config.discovery_prefix
    ++ codes "/number/foxess_"
    ++ serial
    ++ codes "/active_power_limit/config"

abbrev pub result_config_topic : MqttConfig → List ℕ → List ℕ
result_config_topic config serial =
    config.discovery_prefix
    ++ codes "/sensor/foxess_"
    ++ serial
    ++ codes "/active_power_limit_result/config"

-- `_publish_gateway_discovery` publishes here.
abbrev pub gateway_config_topic : MqttConfig → List ℕ
gateway_config_topic config =
    config.discovery_prefix ++ codes "/binary_sensor/foxess_local_gateway/connected/config"

abbrev pub status_topic : MqttConfig → List ℕ
status_topic config = config.topic_prefix ++ codes "/status"

abbrev pub only_if : Bool → List ClientCall → List ClientCall
only_if true cs = cs
only_if false cs = []

module _ {H : Type 0} where
  abbrev pub init : MqttPublisher H
  init = record {
    has_client = false;
    mqtt_connected = false;
    announced = [];
    command_handlers = [];
    active_power_limit_announced = [];
    active_power_limit_cleared = [];
  }

  -- `_dispatch` with the integer of the payload.
  abbrev pub dispatch : H → Option Integer → Dispatched H
  dispatch handler none = not_int
  dispatch handler (some (negsuc n)) = out_of_range
  dispatch handler (some (pos value)) =
      if leb value 100 then handled handler value else out_of_range

  module _ (int : List ℕ → Option Integer) (decode_utf8 : List ℕ → Option (List ℕ)) where
    abbrev pub dispatch_text : Option H → Option (List ℕ) → Dispatched H
    dispatch_text handler none = decode_error
    dispatch_text none (some payload) = unhandled
    dispatch_text (some handler) (some payload) = dispatch handler (int payload)

    -- `_on_message`; `int` is `int(payload.strip())`.
    unfoldable pub on_message : List ℕ → List ℕ → MqttPublisher H → Dispatched H
    on_message topic payload p = dispatch_text (get topic p.command_handlers) (decode_utf8 payload)

  abbrev pub subscribe_all : List (List ℕ × H) → List ClientCall
  subscribe_all [] = []
  subscribe_all ((topic, handler) ∷ handlers) = subscribe topic ∷ subscribe_all handlers

  module _ (config : MqttConfig) where
    unfoldable pub register_active_power_limit_handler :
        List ℕ → H → MqttPublisher H → MqttPublisher H × List ClientCall
    register_active_power_limit_handler serial handler p =
        let topic = active_power_limit_command_topic config serial in
        (
          record p { command_handlers = put topic handler p.command_handlers },
          only_if (config.enabled && p.has_client) (subscribe topic ∷ []),
        )

    abbrev pub unregistered :
        List ℕ → Option H → MqttPublisher H → MqttPublisher H × List ClientCall
    unregistered topic none p = (p, [])
    unregistered topic (some handler) p = (
      record p { command_handlers = pop topic p.command_handlers },
      only_if (config.enabled && p.has_client) (unsubscribe topic ∷ []),
    )

    unfoldable pub unregister_active_power_limit_handler :
        List ℕ → MqttPublisher H → MqttPublisher H × List ClientCall
    unregister_active_power_limit_handler serial p =
        let topic = active_power_limit_command_topic config serial in
        unregistered topic (get topic p.command_handlers) p

    -- `not self.enabled or self.client is None or not serial`
    abbrev pub mute : List ℕ → MqttPublisher H → Bool
    mute serial p = not config.enabled || not p.has_client || serial =b []

    unfoldable pub clear_active_power_limit_discovery :
        List ℕ → MqttPublisher H → MqttPublisher H × List ClientCall
    clear_active_power_limit_discovery serial p =
        let q = record p {
          active_power_limit_announced = discard serial p.active_power_limit_announced;
        } in
        if mute serial p || member serial p.active_power_limit_cleared then (q, []) else (
          record q { active_power_limit_cleared = serial ∷ p.active_power_limit_cleared },
          publish (limit_config_topic config serial) [] true
              ∷ publish (result_config_topic config serial) [] true
              ∷ [],
        )

    unfoldable pub publish_active_power_limit_discovery :
        List ℕ → MqttPublisher H → MqttPublisher H × List ClientCall
    publish_active_power_limit_discovery serial p =
        if mute serial p || member serial p.active_power_limit_announced then (p, []) else (
          record p {
            active_power_limit_announced = serial ∷ p.active_power_limit_announced;
            active_power_limit_cleared = discard serial p.active_power_limit_cleared;
          },
          publish_config (limit_config_topic config serial)
              ∷ publish_config (result_config_topic config serial)
              ∷ [],
        )

    -- The state and the result, as texts.
    unfoldable pub publish_active_power_limit_state :
        List ℕ → List ℕ → MqttPublisher H → List ClientCall
    publish_active_power_limit_state serial value p =
        only_if (not (mute serial p))
          (publish (active_power_limit_state_topic config serial) value config.retain ∷ [])

    unfoldable pub publish_active_power_limit_result :
        List ℕ → List ℕ → MqttPublisher H → List ClientCall
    publish_active_power_limit_result serial status p =
        only_if (not (mute serial p))
          (publish (active_power_limit_result_topic config serial) status config.retain ∷ [])

    -- `_on_connect` for the current client; the gateway's own entity comes first.
    unfoldable pub on_connect : Bool → MqttPublisher H → MqttPublisher H × List ClientCall
    on_connect success p = (
      record p { mqtt_connected = success },
      only_if (success && p.has_client) (
          publish_config (gateway_config_topic config)
          ∷ publish (status_topic config) (codes "online") true
          ∷ subscribe_all p.command_handlers),
    )

    -- `_on_disconnect` for the current client.
    unfoldable pub on_disconnect : MqttPublisher H → MqttPublisher H
    on_disconnect p = record p {
      mqtt_connected = false;
      announced = [];
      active_power_limit_announced = [];
    }

    unfoldable pub teardown_client : MqttPublisher H → MqttPublisher H
    teardown_client p =
        if p.has_client
        then record p {
          has_client = false;
          mqtt_connected = false;
          announced = [];
          active_power_limit_announced = [];
        }
        else p

    -- `connect`, when the client is made.
    unfoldable pub connect : MqttPublisher H → MqttPublisher H
    connect p = if config.enabled then record p { has_client = true; mqtt_connected = false } else p

    -- `ensure_connected`; `running` is `loop_is_running()`.
    unfoldable pub ensure_connected : Bool → MqttPublisher H → MqttPublisher H × List ClientCall
    unfolding teardown_client connect
    ensure_connected running p =
        if not config.enabled
        then (p, [])
        else if running
        then (
          p,
          only_if p.mqtt_connected (publish (status_topic config) (codes "online") true ∷ []),
        )
        else (connect (teardown_client p), [])
