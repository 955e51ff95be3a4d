-- ===== src/Server/Staleness.antt =====
-- `publish_telemetry` and `_mark_stale_telemetry` of `FoxessLocalCloud` in
-- foxess_local_cloud/server.py. Clock readings are numbers; the monotonic clock never goes back.
pub mod Availability
use foxess_local_gateway.Prelude.{
  ℕ, ◌-◌, List, [], ◌∷◌, ◌++◌, Bool, true, false, not, ◌&&◌, ◌||◌, Option, none, some, ltb, ◌=b◌,
  if◌then◌else◌,
}
use foxess_local_gateway.Dict.{get, put, member, discard}

pub record Monitor : Type 0 where
  pub last_telemetry : List (List ℕ × ℕ)
  pub stale : List (List ℕ)
  pub last_publish : List (List ℕ × ℕ)

abbrev pub init : Monitor
init = record { last_telemetry = []; stale = []; last_publish = [] }

-- What goes to the topics of a serial: its availability, and its telemetry.
pub data Message : Type 0 where
  online : List ℕ → Message
  offline : List ℕ → Message
  telemetry : List ℕ → Message

abbrev pub is_empty : List ℕ → Bool
is_empty [] = true
is_empty (c ∷ cs) = false

abbrev pub or_zero : Option ℕ → ℕ
or_zero none = 0
or_zero (some n) = n

-- The part of `publish_telemetry` that notes when the serial was heard.
unfoldable pub note_telemetry : List ℕ → ℕ → Monitor → Monitor × List Message
note_telemetry serial now_monotonic m =
    let was_stale = member serial m.stale in
    let noted = record m {
      last_telemetry = put serial now_monotonic m.last_telemetry;
      stale = discard serial m.stale;
    } in
    if is_empty serial then (m, []) else (noted, if was_stale then online serial ∷ [] else [])

-- `MqttPublisher.publish` of foxess_local_cloud/mqtt.py, enabled and with a client: the telemetry, and
-- that the serial is online, also when nobody took it for offline. Discovery is left out.
abbrev pub published_messages : List ℕ → List Message
published_messages [] = []
published_messages (c ∷ cs) = telemetry (c ∷ cs) ∷ online (c ∷ cs) ∷ []

-- The part that limits the rate. With `min_interval` above 0, a clock that went back skips too, as
-- the negative difference does in the code.
unfoldable pub publish_limited : List ℕ → ℕ → ℕ → Monitor → Monitor × List Message
publish_limited serial now min_interval m =
    let published = record m { last_publish = put serial now m.last_publish } in
    if not (is_empty serial)
      && ltb 0 min_interval
      && ltb (now - or_zero (get serial m.last_publish)) min_interval
    then (m, [])
    else ((if is_empty serial then m else published), published_messages serial)

unfoldable pub publish_telemetry : List ℕ → ℕ → ℕ → ℕ → Monitor → Monitor × List Message
publish_telemetry serial now_monotonic now min_interval m =
    let (noted, first) = note_telemetry serial now_monotonic m in
    let (m', second) = publish_limited serial now min_interval noted in (m', first ++ second)

-- The loop of `_mark_stale_telemetry` over the items of `last_telemetry`.
unfoldable pub mark_items : ℕ → ℕ → List (List ℕ × ℕ) → List (List ℕ) → List (List ℕ) × List Message
mark_items timeout now [] stale = (stale, [])
mark_items timeout now ((serial, last_seen) ∷ items) stale =
    let skip = ltb (now - last_seen) timeout || member serial stale in
    let (stale', messages) =
      mark_items timeout now items (if skip then stale else serial ∷ stale) in
    (stale', if skip then messages else offline serial ∷ messages)

unfoldable pub mark_stale_telemetry : ℕ → ℕ → Monitor → Monitor × List Message
mark_stale_telemetry timeout now m =
    let (stale', messages) = mark_items timeout now m.last_telemetry m.stale in
    (record m { stale = stale' }, messages)
