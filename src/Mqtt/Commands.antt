-- ===== src/Mqtt/Commands.antt =====
-- Which handler a command reaches, in foxess_local_cloud/mqtt.py.
use mathlib.Core.Path.{subst}
use foxess_local_gateway.Prelude.{
  ℕ, ◌≤◌, ◌≡◌, ◌↔◌, refl, ap, sym, ◌∙◌, arith, List, [], ◌∷◌, ◌++◌, append_cancel_left,
  append_cancel_right, Bool, Option, none, some, ◌=b◌, codes, if◌then◌else◌,
}
use foxess_local_gateway.Dict.{get, get-put, get-pop, =b_iff}
use foxess_local_gateway.Mqtt.{
  Integer, pos, negsuc, MqttPublisher, MqttConfig, handled, active_power_limit_command_topic,
  dispatch, dispatch_text, on_message, register_active_power_limit_handler, unregistered,
  unregister_active_power_limit_handler,
}

-- Registrations and removals, the latest first.
pub data Change (H : Type 0) : Type 0 where
  register : List ℕ → H → Change H
  unregister : List ℕ → Change H

module _ {H : Type 0} where
  -- The specification: the handler that was registered last for the serial, unless it was removed.
  abbrev pub owner : List ℕ → List (Change H) → Option H
  owner serial [] = none
  owner serial (register j handler ∷ changes) =
      if j =b serial then some handler else owner serial changes
  owner serial (unregister j ∷ changes) = if j =b serial then none else owner serial changes

module _ (H : Type 0) (config : MqttConfig) where
  abbrev pub change : Change H → MqttPublisher H → MqttPublisher H
  change (register serial handler) p =
      (register_active_power_limit_handler config serial handler p).0
  change (unregister serial) p = (unregister_active_power_limit_handler config serial p).0

  abbrev pub change_all : List (Change H) → MqttPublisher H → MqttPublisher H
  change_all [] p = p
  change_all (c ∷ cs) p = change c (change_all cs p)

  topic_injective :
      (s t : List ℕ)
      → active_power_limit_command_topic config s ≡ active_power_limit_command_topic config t
      → s ≡ t
  topic_injective s t e = append_cancel_left (config.topic_prefix ++ codes "/") s t (
      append_cancel_right (config.topic_prefix ++ codes "/" ++ s)
        (config.topic_prefix ++ codes "/" ++ t) (codes "/active_power_limit/set") e)

  same_topic :
      (s t : List ℕ)
      → (active_power_limit_command_topic config s =b active_power_limit_command_topic config t)
        ≡ (s =b t)
  same_topic s t = ground (
    arith,
    =b_iff s t,
    =b_iff (active_power_limit_command_topic config s) (active_power_limit_command_topic config t),
    topic_injective s t,
    ap (active_power_limit_command_topic config) {x = s} {y = t},
  )

  get-unregistered :
      (j : List ℕ) (topic : List ℕ) (o : Option H) (p : MqttPublisher H)
      → get topic p.command_handlers ≡ o
      → get j (unregistered config topic o p).0.command_handlers
        ≡ (if topic =b j then none else get j p.command_handlers)
  get-unregistered j topic none p e = ground (arith, e, =b_iff topic j)
  get-unregistered j topic (some h) p e = get-pop topic j p.command_handlers

  owner_found :
      (changes : List (Change H)) (j : List ℕ) (p : MqttPublisher H)
      → p.command_handlers ≡ []
      → get (active_power_limit_command_topic config j) (change_all changes p).command_handlers
        ≡ owner j changes
  unfolding get register_active_power_limit_handler unregister_active_power_limit_handler
  owner_found [] j p e = ap (get (active_power_limit_command_topic config j)) e
  owner_found (register serial handler ∷ changes) j p e =
      get-put (active_power_limit_command_topic config serial)
        (active_power_limit_command_topic config j) handler (change_all changes p).command_handlers
      ∙ ap
          (λ (b : Bool).
            if b
            then some handler
            else get (active_power_limit_command_topic config j)
                (change_all changes p).command_handlers)
          (same_topic serial j)
      ∙ ap (λ (o : Option H). if serial =b j then some handler else o) (owner_found changes j p e)
  owner_found (unregister serial ∷ changes) j p e =
      get-unregistered (active_power_limit_command_topic config j)
        (active_power_limit_command_topic config serial) _ (change_all changes p) refl
      ∙ ap
          (λ (b : Bool).
            if b
            then none
            else get (active_power_limit_command_topic config j)
                (change_all changes p).command_handlers)
          (same_topic serial j)
      ∙ ap (λ (o : Option H). if serial =b j then none else o) (owner_found changes j p e)

module _ (H : Type 0) (int : List ℕ → Option Integer) (decode_utf8 : List ℕ → Option (List ℕ)) where
  -- The bytes are the text of an integer from 0 to 100.
  abbrev pub Means : List ℕ → ℕ → Type 0
  Means payload value =
      (text : List ℕ) × (decode_utf8 payload ≡ some text)
      × (int text ≡ some (pos value))
      × (value ≤ 100)

  dispatched :
      (h k : H) (i : Option Integer) (value : ℕ)
      → dispatch k i ≡ handled h value
      → (k ≡ h) × (i ≡ some (pos value)) × (value ≤ 100)
  dispatched h k none value e = absurd (ground arith)
  dispatched h k (some (negsuc n)) value e = absurd (ground arith)
  dispatched h k (some (pos n)) value e = ground (arith, e)

  accepted :
      (h : H) (i : Option Integer) (value : ℕ)
      → i ≡ some (pos value)
      → value ≤ 100
      → dispatch h i ≡ handled h value
  accepted h none value e small = absurd (ground arith)
  accepted h (some (negsuc n)) value e small = absurd (ground arith)
  accepted h (some (pos n)) value e small = ground (arith, e, small)

  dispatch_iff :
      (o : Option H) (h : H) (payload : List ℕ) (value : ℕ)
      → (dispatch_text int decode_utf8 o (decode_utf8 payload) ≡ handled h value)
        ↔ ((o ≡ some h) × Means payload value)
  dispatch_iff o h payload value = (
    forth o (decode_utf8 payload) refl,
    λ (found, (text, decoded, read, small)).
        ap (λ (x : Option H). dispatch_text int decode_utf8 x (decode_utf8 payload)) found
        ∙ ap (λ (t : Option (List ℕ)). dispatch_text int decode_utf8 (some h) t) decoded
        ∙ accepted h (int text) value read small,
  )
    where
      forth :
          (x : Option H) (t : Option (List ℕ))
          → decode_utf8 payload ≡ t
          → dispatch_text int decode_utf8 x t ≡ handled h value
          → (x ≡ some h) × Means payload value
      forth x none d e = absurd (ground arith)
      forth none (some text) d e = absurd (ground arith)
      forth (some k) (some text) d e =
          let (same, read, small) = dispatched h k (int text) value e in
          (ap (λ (a : H). some a) same, (text, d, read, small))

  -- After any registrations and removals of command handlers, a message on a serial's command topic is
  -- handled exactly when its bytes are the text of an integer from 0 to 100 and the serial has a
  -- handler that was not removed; then the one that was registered last for this serial gets the value.
  pub commands_reach_owner :
      (config : MqttConfig) (changes : List (Change H)) (p : MqttPublisher H)
      (serial payload : List ℕ) (h : H) (value : ℕ)
      → p.command_handlers ≡ []
      → (on_message int decode_utf8
            (active_power_limit_command_topic config serial)
            payload
            (change_all H config changes p)
          ≡ handled h value)
        ↔ ((owner serial changes ≡ some h) × Means payload value)
  unfolding on_message
  commands_reach_owner config changes p serial payload h value e =
      subst
        (λ (o : Option H).
          (dispatch_text int decode_utf8 o (decode_utf8 payload) ≡ handled h value)
          ↔ ((owner serial changes ≡ some h) × Means payload value))
        (sym (owner_found H config changes serial p e))
        (dispatch_iff (owner serial changes) h payload value)
