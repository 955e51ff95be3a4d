-- ===== src/Examples/Publishing.antt =====
-- Runs of the publisher of foxess_local_cloud/mqtt.py.
use foxess_local_gateway.Prelude.{
  ℕ, ◌≡◌, ◌≢◌, ◌↔◌, refl, arith, Bool, List, [], ◌∷◌, true, false, Option, some, none, codes, ◌=b◌,
  if◌then◌else◌,
}
use foxess_local_gateway.Dict.{member, discard}
use foxess_local_gateway.Mqtt.{
  Integer, pos, MqttConfig, init, handled, active_power_limit_command_topic, on_message,
  status_topic, limit_config_topic, mute, ensure_connected, on_connect,
  publish_active_power_limit_discovery, clear_active_power_limit_discovery, on_disconnect,
}
use foxess_local_gateway.Mqtt.Commands.{
  Change, register, unregister, owner, change_all, Means, commands_reach_owner,
}
use foxess_local_gateway.Mqtt.Entities.{
  Happening, cleared, announces, connected, disconnected, watched, run, AllReached,
  entity_follows_calls,
}

abbrev serial : List ℕ
serial = codes "60"

abbrev config : MqttConfig
config = record {
  enabled = true;
  topic_prefix = codes "foxess_m1";
  discovery_prefix = codes "homeassistant";
  retain = true;
}

abbrev int_of_80 : List ℕ → Option Integer
int_of_80 text = if text =b codes "80" then some (pos 80) else none

abbrev as_ascii : List ℕ → Option (List ℕ)
as_ascii bytes = some bytes

abbrev handlers : List (Change ℕ)
handlers = register serial 2 ∷ unregister serial ∷ register serial 1 ∷ []

commands_reach_owner_example :
    (on_message int_of_80 as_ascii
        (active_power_limit_command_topic config serial)
        (codes "80")
        (change_all ℕ config handlers init)
      ≡ handled 2 80)
    ↔ ((owner {H = ℕ} serial handlers ≡ some 2) × Means ℕ int_of_80 as_ascii (codes "80") 80)
commands_reach_owner_example =
    commands_reach_owner ℕ int_of_80 as_ascii config handlers init serial (codes "80") 2 80 refl

topics_apart : status_topic config ≢ limit_config_topic config serial
topics_apart e = ground (arith, e)

-- The client is made, the connection is lost once, and the entity announced after that; the publication
-- for another serial is lost.
abbrev day : List (Happening × Bool)
day =
    (announces serial, true)
    ∷ (cleared (codes "61"), false)
    ∷ (connected true, true)
    ∷ (disconnected, false)
    ∷ (connected true, true)
    ∷ (watched false, false)
    ∷ []

live : mute config serial (run ℕ config serial day init true).0 ≡ false
unfolding ensure_connected on_connect publish_active_power_limit_discovery
    clear_active_power_limit_discovery on_disconnect member discard
live = refl

day-AllReached : AllReached ℕ config serial day
day-AllReached = (refl, (refl, tt))

entity_follows_calls_example :
    ((run ℕ config serial ((cleared serial, true) ∷ day) init true).1 ≡ false)
    × ((run ℕ config serial ((announces serial, true) ∷ day) init true).1 ≡ true)
entity_follows_calls_example =
    entity_follows_calls ℕ config serial day true topics_apart day-AllReached live
