-- ===== src/Mqtt/Entities.antt =====
-- The entities that foxess_local_cloud/mqtt.py leaves at the broker for the ActivePowerLimit.
use foxess_local_gateway.Prelude.{
  ℕ, ◌≡◌, refl, ap, ◌∙◌, arith, List, [], ◌∷◌, ◌≢◌, Bool, true, false, not, ◌&&◌, ◌||◌, ◌=b◌,
  =b-refl, codes, if◌then◌else◌, if-split,
}
use foxess_local_gateway.Dict.{member, member-discard}
use foxess_local_gateway.Mqtt.{
  ClientCall, publish, publish_config, subscribe, unsubscribe, MqttPublisher, MqttConfig, init,
  limit_config_topic, gateway_config_topic, status_topic, mute, only_if, subscribe_all,
  clear_active_power_limit_discovery, publish_active_power_limit_discovery, on_connect,
  on_disconnect, ensure_connected,
}
use foxess_local_gateway.Mqtt.Topics.{differ, same_topic, other_topic, gateway_topic}

-- The broker's retained message on the topic: there is a configuration, or there is none.
abbrev pub retained_call : List ℕ → Bool → ClientCall → Bool
retained_call topic b (publish t [] true) = if t =b topic then false else b
retained_call topic b (publish t (c ∷ cs) true) = if t =b topic then true else b
retained_call topic b (publish t payload false) = b
retained_call topic b (publish_config t) = if t =b topic then true else b
retained_call topic b (subscribe t) = b
retained_call topic b (unsubscribe t) = b

abbrev pub retained : List ℕ → Bool → List ClientCall → Bool
retained topic b [] = b
retained topic b (c ∷ cs) = retained topic (retained_call topic b c) cs

-- What happens to a publisher: an entity is cleared or announced, the broker accepts or refuses the
-- connection, or drops it, and the watchdog finds the network loop running or not.
pub data Happening : Type 0 where
  cleared announces : List ℕ → Happening
  connected watched : Bool → Happening
  disconnected : Happening

module _ (H : Type 0) (config : MqttConfig) where
  abbrev pub react : Happening → MqttPublisher H → MqttPublisher H × List ClientCall
  react (cleared serial) p = clear_active_power_limit_discovery config serial p
  react (announces serial) p = publish_active_power_limit_discovery config serial p
  react (connected success) p = on_connect config success p
  react (watched running) p = ensure_connected config running p
  react disconnected p = (on_disconnect config p, [])

  -- The publisher, and what the broker retains on the serial's topic, after all of it, the latest
  -- first. With each happening comes whether what it publishes reaches the broker; the publisher does
  -- not learn that.
  abbrev pub run :
      List ℕ → List (Happening × Bool) → MqttPublisher H → Bool → MqttPublisher H × Bool
  run serial [] p b = (p, b)
  run serial ((h, reached) ∷ hs) p b =
      let (q, r) = run serial hs p b in
      let (q', calls) = react h q in
      (q', if reached then retained (limit_config_topic config serial) r calls else r)

  -- What is published of the serial's own entity reaches the broker; all else may be lost.
  abbrev pub AllReached : List ℕ → List (Happening × Bool) → Type 0
  AllReached serial [] = Unit
  AllReached serial ((cleared j, reached) ∷ hs) =
      ((reached || not (j =b serial)) ≡ true) × AllReached serial hs
  AllReached serial ((announces j, reached) ∷ hs) =
      ((reached || not (j =b serial)) ≡ true) × AllReached serial hs
  AllReached serial ((h, reached) ∷ hs) = AllReached serial hs

  -- The sets say the truth about the broker.
  record IsTrue (serial : List ℕ) (p : MqttPublisher H) (b : Bool) : Type 0 where
    not_cleared : (member serial p.active_power_limit_cleared && b) ≡ false
    not_announced : (member serial p.active_power_limit_announced && not b) ≡ false

  retained_subscribed :
      (topic : List ℕ) (b : Bool) (handlers : List (List ℕ × H))
      → retained topic b (subscribe_all handlers) ≡ b
  retained_subscribed topic b [] = refl
  retained_subscribed topic b ((t, h) ∷ handlers) = retained_subscribed topic b handlers

  cleared-IsTrue :
      (serial j : List ℕ) (p : MqttPublisher H) (b : Bool)
      → IsTrue serial p b
      → IsTrue serial (clear_active_power_limit_discovery config j p).0 (
          retained
            (limit_config_topic config serial)
            b
            (clear_active_power_limit_discovery config j p).1)
  unfolding clear_active_power_limit_discovery member
  cleared-IsTrue serial j p b h =
      if-split
        (λ (x : MqttPublisher H × List ClientCall).
          IsTrue serial x.0 (retained (limit_config_topic config serial) b x.1))
        (mute config j p || member j p.active_power_limit_cleared)
        (λ e. record {
          not_cleared = h.not_cleared;
          not_announced =
              ground
                (arith, h.not_announced, member-discard serial j p.active_power_limit_announced);
        })
        (λ e. record {
          not_cleared =
              ground
                (arith, h.not_cleared, other_topic config j serial, same_topic config j serial);
          not_announced = ground (
            arith,
            h.not_announced,
            other_topic config j serial,
            same_topic config j serial,
            member-discard serial j p.active_power_limit_announced,
          );
        })

  announces-IsTrue :
      (serial j : List ℕ) (p : MqttPublisher H) (b : Bool)
      → IsTrue serial p b
      → IsTrue serial (publish_active_power_limit_discovery config j p).0 (
          retained
            (limit_config_topic config serial)
            b
            (publish_active_power_limit_discovery config j p).1)
  unfolding publish_active_power_limit_discovery member
  announces-IsTrue serial j p b h =
      if-split
        (λ (x : MqttPublisher H × List ClientCall).
          IsTrue serial x.0 (retained (limit_config_topic config serial) b x.1))
        (mute config j p || member j p.active_power_limit_announced) (λ e. h)
        (λ e. record {
          not_cleared = ground (
            arith,
            h.not_cleared,
            other_topic config j serial,
            same_topic config j serial,
            member-discard serial j p.active_power_limit_cleared,
          );
          not_announced =
              ground
                (arith, h.not_announced, other_topic config j serial, same_topic config j serial);
        })

  lost_clearing-IsTrue :
      (serial j : List ℕ) (p : MqttPublisher H) (b : Bool)
      → (j =b serial) ≡ false
      → IsTrue serial p b
      → IsTrue serial (clear_active_power_limit_discovery config j p).0 b
  unfolding clear_active_power_limit_discovery member
  lost_clearing-IsTrue serial j p b other h = record {
    not_cleared = ground (arith, h.not_cleared, other);
    not_announced =
        ground
          (arith, h.not_announced, other, member-discard serial j p.active_power_limit_announced);
  }

  lost_announcement-IsTrue :
      (serial j : List ℕ) (p : MqttPublisher H) (b : Bool)
      → (j =b serial) ≡ false
      → IsTrue serial p b
      → IsTrue serial (publish_active_power_limit_discovery config j p).0 b
  unfolding publish_active_power_limit_discovery member
  lost_announcement-IsTrue serial j p b other h = record {
    not_cleared =
        ground (arith, h.not_cleared, other, member-discard serial j p.active_power_limit_cleared);
    not_announced = ground (arith, h.not_announced, other);
  }

  -- What was published has reached the broker, or it does not matter.
  either_way :
      (serial : List ℕ) (q : MqttPublisher H) (reached other b c : Bool)
      → (reached || not other) ≡ true
      → IsTrue serial q c
      → (other ≡ false → IsTrue serial q b)
      → IsTrue serial q (if reached then c else b)
  either_way serial q true other b c r h k = h
  either_way serial q false other b c r h k = k (ground (arith, r))

  connected-IsTrue :
      (serial : List ℕ) (success reached : Bool) (p : MqttPublisher H) (b : Bool)
      → status_topic config ≢ limit_config_topic config serial
      → IsTrue serial p b
      → IsTrue serial (on_connect config success p).0 (
          if reached
          then retained (limit_config_topic config serial) b (on_connect config success p).1
          else b)
  unfolding on_connect
  connected-IsTrue serial success reached p b apart h =
      let same : retained (limit_config_topic config serial) b (on_connect config success p).1 ≡ b =
        greeting (success && p.has_client) in
      either_way serial (on_connect config success p).0 reached false b _ (ground arith)
        (record { not_cleared = rw same h.not_cleared; not_announced = rw same h.not_announced })
        (λ _. record { not_cleared = h.not_cleared; not_announced = h.not_announced })
    where
      greeting :
          (c : Bool)
          → retained (limit_config_topic config serial) b (
              only_if c (
                publish_config (gateway_config_topic config)
                ∷ publish (status_topic config) (codes "online") true
                ∷ subscribe_all p.command_handlers))
            ≡ b
      greeting false = refl
      greeting true =
          ap
            (λ (r : Bool).
              retained (limit_config_topic config serial) r (subscribe_all p.command_handlers))
            unmoved
          ∙ retained_subscribed (limit_config_topic config serial) b p.command_handlers
        where
          unmoved :
              retained_call
                (limit_config_topic config serial)
                (retained_call
                  (limit_config_topic config serial)
                  b
                  (publish_config (gateway_config_topic config)))
                (publish (status_topic config) (codes "online") true)
              ≡ b
          unmoved = ground (
            arith,
            gateway_topic config serial,
            differ (status_topic config) (limit_config_topic config serial) apart,
          )

  disconnected-IsTrue :
      (serial : List ℕ) (p : MqttPublisher H) (b : Bool)
      → IsTrue serial p b
      → IsTrue serial (on_disconnect config p) b
  unfolding on_disconnect member
  disconnected-IsTrue serial p b h = record { not_cleared = h.not_cleared; not_announced = refl }

  watched-IsTrue :
      (serial : List ℕ) (running reached : Bool) (p : MqttPublisher H) (b : Bool)
      → status_topic config ≢ limit_config_topic config serial
      → IsTrue serial p b
      → IsTrue serial (ensure_connected config running p).0 (
          if reached
          then retained (limit_config_topic config serial) b (ensure_connected config running p).1
          else b)
  unfolding ensure_connected member
  watched-IsTrue serial running reached p b apart h = record {
    not_cleared = ground (
      arith,
      h.not_cleared,
      differ (status_topic config) (limit_config_topic config serial) apart,
    );
    not_announced = ground (
      arith,
      h.not_announced,
      differ (status_topic config) (limit_config_topic config serial) apart,
    );
  }

  run-IsTrue :
      (serial : List ℕ) (hs : List (Happening × Bool)) (p : MqttPublisher H) (b : Bool)
      → status_topic config ≢ limit_config_topic config serial
      → AllReached serial hs
      → IsTrue serial p b
      → IsTrue serial (run serial hs p b).0 (run serial hs p b).1
  run-IsTrue serial [] p b apart all h = h
  run-IsTrue serial ((cleared j, reached) ∷ hs) p b apart (r, all) h =
      let before = run-IsTrue serial hs p b apart all h in
      either_way serial _ reached (j =b serial) _ _ r (cleared-IsTrue serial j _ _ before)
        (λ other. lost_clearing-IsTrue serial j _ _ other before)
  run-IsTrue serial ((announces j, reached) ∷ hs) p b apart (r, all) h =
      let before = run-IsTrue serial hs p b apart all h in
      either_way serial _ reached (j =b serial) _ _ r (announces-IsTrue serial j _ _ before)
        (λ other. lost_announcement-IsTrue serial j _ _ other before)
  run-IsTrue serial ((connected success, reached) ∷ hs) p b apart all h =
      connected-IsTrue serial success reached _ _ apart (run-IsTrue serial hs p b apart all h)
  run-IsTrue serial ((watched running, reached) ∷ hs) p b apart all h =
      watched-IsTrue serial running reached _ _ apart (run-IsTrue serial hs p b apart all h)
  run-IsTrue serial ((disconnected, true) ∷ hs) p b apart all h =
      disconnected-IsTrue serial _ _ (run-IsTrue serial hs p b apart all h)
  run-IsTrue serial ((disconnected, false) ∷ hs) p b apart all h =
      disconnected-IsTrue serial _ _ (run-IsTrue serial hs p b apart all h)

  live-cleared :
      (serial : List ℕ) (p : MqttPublisher H) (b : Bool)
      → mute config serial p ≡ false
      → IsTrue serial p b
      → retained
          (limit_config_topic config serial)
          b
          (clear_active_power_limit_discovery config serial p).1
        ≡ false
  unfolding clear_active_power_limit_discovery
  live-cleared serial p b live h =
      if-split
        (λ (x : MqttPublisher H × List ClientCall).
          retained (limit_config_topic config serial) b x.1 ≡ false)
        (mute config serial p || member serial p.active_power_limit_cleared)
        (λ e. ground (arith, e, live, h.not_cleared))
        (λ e. ground (
          arith,
          other_topic config serial serial,
          same_topic config serial serial,
          =b-refl serial,
        ))

  live-announced :
      (serial : List ℕ) (p : MqttPublisher H) (b : Bool)
      → mute config serial p ≡ false
      → IsTrue serial p b
      → retained
          (limit_config_topic config serial)
          b
          (publish_active_power_limit_discovery config serial p).1
        ≡ true
  unfolding publish_active_power_limit_discovery
  live-announced serial p b live h =
      if-split
        (λ (x : MqttPublisher H × List ClientCall).
          retained (limit_config_topic config serial) b x.1 ≡ true)
        (mute config serial p || member serial p.active_power_limit_announced)
        (λ e. ground (arith, e, live, h.not_announced))
        (λ e. ground (
          arith,
          other_topic config serial serial,
          same_topic config serial serial,
          =b-refl serial,
        ))

  fresh-IsTrue : (serial : List ℕ) (b : Bool) → IsTrue serial init b
  unfolding member
  fresh-IsTrue serial b = record { not_cleared = refl; not_announced = refl }

  -- From a new publisher, with any entities left at the broker by an earlier run, and after any
  -- clearings and announcements for any serials, connections, losses of the connection and runs of the
  -- watchdog: as long as what was published of the serial's own entity has reached the broker, with a
  -- client and a serial that is not empty, clearing the serial's entity leaves no retained
  -- configuration of the number, and announcing it leaves one, when that publication reaches the broker
  -- and also where the call publishes nothing because it was done before. The status topic is not that
  -- configuration's topic.
  pub entity_follows_calls :
      (serial : List ℕ) (hs : List (Happening × Bool)) (left : Bool)
      → status_topic config ≢ limit_config_topic config serial
      → AllReached serial hs
      → mute config serial (run serial hs init left).0 ≡ false
      → ((run serial ((cleared serial, true) ∷ hs) init left).1 ≡ false)
        × ((run serial ((announces serial, true) ∷ hs) init left).1 ≡ true)
  entity_follows_calls serial hs left apart all live =
      let h : IsTrue serial (run serial hs init left).0 (run serial hs init left).1 =
        run-IsTrue serial hs init left apart all (fresh-IsTrue serial left) in
      (live-cleared serial _ _ live h, live-announced serial _ _ live h)
