-- ===== src/Server/Support.antt =====
-- `supports_active_power_limit` of foxess_local_cloud/server.py. Text is ASCII.
use foxess_local_gateway.Prelude.{
  ℕ, ◌+◌, ◌-◌, ◌*◌, List, [], ◌∷◌, map, Bool, false, ◌&&◌, ◌||◌, Option, none, some, leb, ltb, ◌==◌,
  if◌then◌else◌,
}
use foxess_local_gateway.Bytes.{starts_with}
use foxess_local_gateway.Protocol.Info.{strip, is_digit}
use foxess_local_gateway.Telemetry.{upper_char}

-- `(\d+)`, greedy: the value of the digits and the rest, given the value of those before.
unfoldable pub digits_from : ℕ → List ℕ → ℕ × List ℕ
digits_from acc [] = (acc, [])
digits_from acc (c ∷ cs) =
    let more = digits_from (acc * 10 + (c - b'0')) cs in if is_digit c then more else (acc, c ∷ cs)

unfoldable pub number : List ℕ → Option (ℕ × List ℕ)
unfolding digits_from
number [] = none
number (c ∷ cs) = if is_digit c then some (digits_from 0 (c ∷ cs)) else none

-- `\.(\d+)`; what follows matches whatever it is.
unfoldable pub minor : ℕ → List ℕ → Option (ℕ × ℕ)
unfolding number
minor major [] = none
minor major (c ∷ cs) =
    if c == b'.' then elim (number cs) [ none ↦ none | some (n, rest) ↦ some (major, n) ] else none

unfoldable pub dotted : List ℕ → Option (ℕ × ℕ)
unfolding number minor
dotted cs = elim (number cs) [ none ↦ none | some (n, rest) ↦ minor n rest ]

-- `v?(\d+)\.(\d+)`, with either case of the letter.
unfoldable pub version_here : List ℕ → Option (ℕ × ℕ)
unfolding dotted
version_here [] = none
version_here (c ∷ cs) = if c == b'v' || c == b'V' then dotted cs else dotted (c ∷ cs)

abbrev pub or_else {ℓ} : {A : Type ℓ} → Option A → Option A → Option A
or_else (some a) other = some a
or_else none other = other

-- The leftmost match that starts with a character that is no digit.
unfoldable pub version_after : List ℕ → Option (ℕ × ℕ)
unfolding version_here
version_after [] = none
version_after (c ∷ cs) =
    let later = version_after cs in if is_digit c then later else or_else (version_here cs) later

-- `re.search(…)`: at the start of the text, or after a character that is no digit.
unfoldable pub search_version : List ℕ → Option (ℕ × ℕ)
unfolding version_here version_after
search_version text = or_else (version_here text) (version_after text)

-- `version >= (1, 80)`
abbrev pub recent_enough : Option (ℕ × ℕ) → Bool
recent_enough none = false
recent_enough (some (major, n)) = ltb 1 major || major == 1 && leb 80 n

unfoldable pub supports_active_power_limit : List ℕ → List ℕ → Bool
unfolding search_version strip
supports_active_power_limit model firmware =
    starts_with (map upper_char (strip model)) (b'M' ∷ b'1' ∷ [])
    && recent_enough (search_version (strip firmware))
