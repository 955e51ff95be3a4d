-- ===== src/Mqtt/Topics.antt =====
-- The topics of foxess_local_cloud/mqtt.py that are never the same.
use foxess_local_gateway.Prelude.{
  ℕ, ◌≡◌, ap, sym, ◌∙◌, arith, List, ◌++◌, append_cancel_left, append_cancel_right, append_assoc,
  ◌≢◌, false, ◌=b◌, codes,
}
use foxess_local_gateway.Dict.{=b_iff}
use foxess_local_gateway.Mqtt.{
  MqttConfig, limit_config_topic, gateway_config_topic, result_config_topic,
}

pub differ : (xs ys : List ℕ) → xs ≢ ys → (xs =b ys) ≡ false
differ xs ys h = ground (arith, =b_iff xs ys, h)

regroup : (a b c d : List ℕ) → a ++ b ++ c ++ d ≡ a ++ (b ++ (c ++ d))
regroup a b c d = append_assoc (a ++ b) c d ∙ append_assoc a b (c ++ d)

other_kind :
    (prefix s t y z : List ℕ)
    → prefix ++ codes "/sensor/foxess_" ++ s ++ y ≢ prefix ++ codes "/number/foxess_" ++ t ++ z
other_kind prefix s t y z e =
    let same : codes "/sensor/foxess_" ++ (s ++ y) ≡ codes "/number/foxess_" ++ (t ++ z) =
      append_cancel_left prefix _ _ (
        sym (regroup prefix (codes "/sensor/foxess_") s y)
        ∙ e
        ∙ regroup prefix (codes "/number/foxess_") t z) in
    ground (arith, same)

module _ (config : MqttConfig) where
  topic_injective :
      (s t : List ℕ) → limit_config_topic config s ≡ limit_config_topic config t → s ≡ t
  topic_injective s t e =
      append_cancel_left (config.discovery_prefix ++ codes "/number/foxess_") s t (
        append_cancel_right (config.discovery_prefix ++ codes "/number/foxess_" ++ s)
          (config.discovery_prefix ++ codes "/number/foxess_" ++ t)
          (codes "/active_power_limit/config") e)

  pub same_topic :
      (s t : List ℕ) → (limit_config_topic config s =b limit_config_topic config t) ≡ (s =b t)
  same_topic s t = ground (
    arith,
    =b_iff s t,
    =b_iff (limit_config_topic config s) (limit_config_topic config t),
    topic_injective s t,
    ap (limit_config_topic config) {x = s} {y = t},
  )

  pub other_topic :
      (s t : List ℕ) → (result_config_topic config s =b limit_config_topic config t) ≡ false
  other_topic s t = differ (result_config_topic config s) (limit_config_topic config t) (
      other_kind config.discovery_prefix s t (codes "/active_power_limit_result/config")
        (codes "/active_power_limit/config"))

  pub gateway_topic :
      (s : List ℕ) → (gateway_config_topic config =b limit_config_topic config s) ≡ false
  gateway_topic s = differ (gateway_config_topic config) (limit_config_topic config s) (λ e.
      let same : codes "/binary_sensor/foxess_local_gateway/connected/config"
          ≡ codes "/number/foxess_" ++ (s ++ codes "/active_power_limit/config") =
        append_cancel_left config.discovery_prefix _ _ (
          e
          ∙ regroup config.discovery_prefix (codes "/number/foxess_") s
              (codes "/active_power_limit/config")) in
      ground (arith, same))
