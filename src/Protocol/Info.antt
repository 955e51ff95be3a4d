-- ===== src/Protocol/Info.antt =====
-- The telemetry, product-info and module-info frames of foxess_local_cloud/protocol.py, and the text
-- that is read from them. Text is a list of code points.
pub mod Fields
use foxess_local_gateway.Prelude.{
  ℕ, suc, ◌-◌, List, [], ◌∷◌, ◌++◌, length, take, drop, Bool, true, false, ◌&&◌, ◌||◌, not, Option,
  none, some, leb, ltb, ◌==◌, ◌=b◌, if◌then◌else◌,
}
use mathlib.Core.List.{reverse}
use foxess_local_gateway.Bytes.{starts_with, last_bytes}
use foxess_local_gateway.Protocol.Frame.{Frame, payload_len}
use foxess_local_gateway.Protocol.Extract.{marker_7e}

unfoldable pub is_telemetry : Frame → Bool
is_telemetry frame =
    frame.start =b marker_7e
    && frame.device =b 0x02 ∷ 0x00 ∷ 0x00 ∷ 0x00 ∷ []
    && frame.func == 0
    && payload_len frame == 238

unfoldable pub is_product_info : Frame → Bool
is_product_info frame =
    frame.start =b marker_7e
    && frame.device =b 0x01 ∷ 0x00 ∷ 0x00 ∷ 0x00 ∷ []
    && frame.func == 0
    && leb 32 (payload_len frame)

unfoldable pub is_module_info : Frame → Bool
is_module_info frame =
    frame.start =b marker_7e
    && frame.device =b 0x06 ∷ 0x00 ∷ 0x00 ∷ 0x00 ∷ []
    && frame.func == 0
    && payload_len frame == 38

abbrev pub is_printable : ℕ → Bool
is_printable b = leb 32 b && leb b 126

-- Every byte outside the printable range shows as a dot.
unfoldable pub ascii_text : List ℕ → List ℕ
ascii_text [] = []
ascii_text (b ∷ bs) = (if is_printable b then b else b'.') ∷ ascii_text bs

abbrev pub keep : (ℕ → Bool) → List ℕ → List ℕ
keep p [] = []
keep p (b ∷ bs) = let rest = keep p bs in if p b then b ∷ rest else rest

-- Python's whitespace among the ASCII characters.
abbrev pub is_space : ℕ → Bool
is_space c = c == 32 || leb 9 c && leb c 13 || leb 28 c && leb c 31

abbrev pub strip_left : List ℕ → List ℕ
strip_left [] = []
strip_left (c ∷ cs) = if is_space c then strip_left cs else c ∷ cs

-- `text.strip()`
unfoldable pub strip : List ℕ → List ℕ
strip s = reverse (strip_left (reverse (strip_left s)))

unfoldable pub printable_ascii : List ℕ → List ℕ
unfolding strip
printable_ascii bs = strip (keep is_printable bs)

-- `data.split(b"\x00")`; `current` is the part that is being read, in order.
abbrev pub split_nul_from : List ℕ → List ℕ → List (List ℕ)
split_nul_from current [] = current ∷ []
split_nul_from current (b ∷ bs) =
    let next = split_nul_from [] bs in
    let more = split_nul_from (current ++ b ∷ []) bs in if b == 0 then current ∷ next else more

abbrev pub split_nul : List ℕ → List (List ℕ)
split_nul bs = split_nul_from [] bs

-- `data.split(b"\x00", 1)[0]`
abbrev pub until_nul : List ℕ → List ℕ
until_nul [] = []
until_nul (b ∷ bs) = if b == 0 then [] else b ∷ until_nul bs

-- `decode("ascii", errors="ignore")` drops what is not ASCII.
unfoldable pub module_info : Frame → List ℕ
unfolding is_module_info strip
module_info frame =
    if not (is_module_info frame)
    then []
    else strip (keep (λ b. ltb b 128) (until_nul frame.payload))

abbrev pub is_digit : ℕ → Bool
is_digit c = leb b'0' c && leb c b'9'

-- `c.isalnum()` for a printable ASCII character.
abbrev pub is_alnum : ℕ → Bool
is_alnum c = is_digit c || leb b'A' c && leb c b'Z' || leb b'a' c && leb c b'z'

abbrev pub any_char : (ℕ → Bool) → List ℕ → Bool
any_char p [] = false
any_char p (c ∷ cs) = p c || any_char p cs

-- `c in text` for one character.
abbrev pub has_char : ℕ → List ℕ → Bool
has_char c s = any_char (λ x. x == c) s

-- The parts of the payload that have a letter or a digit, as printable text. A part with such a
-- character is not empty.
unfoldable pub info_strings : List (List ℕ) → List (List ℕ)
unfolding printable_ascii
info_strings [] = []
info_strings (part ∷ parts) =
    let text = printable_ascii part in
    let rest = info_strings parts in if any_char is_alnum text then text ∷ rest else rest

-- `next((part for part in parts if test(part)), "")`
unfoldable pub next_with : (List ℕ → Bool) → List (List ℕ) → List ℕ
next_with test [] = []
next_with test (part ∷ parts) = if test part then part else next_with test parts

abbrev pub is_model : List ℕ → Bool
is_model part = has_char b'-' part

abbrev pub is_family : List ℕ → Bool
is_family part =
    (starts_with part (b'M' ∷ []) || starts_with part (b'Q' ∷ []))
    && not (has_char b'-' part)
    && not (last_bytes 4 part =b b'V' ∷ b'1' ∷ b'8' ∷ b'0' ∷ [])

abbrev pub starts_with_digit : List ℕ → Bool
starts_with_digit [] = false
starts_with_digit (c ∷ cs) = is_digit c

abbrev pub is_firmware : List ℕ → Bool
is_firmware part = starts_with_digit part && has_char b'.' part

abbrev pub first_or_empty : List (List ℕ) → List ℕ
first_or_empty [] = []
first_or_empty (s ∷ ss) = s

pub record ProductInfo : Type 0 where
  pub module_name : List ℕ
  pub family : List ℕ
  pub model : List ℕ
  pub firmware : List ℕ

-- `none` is the empty dictionary.
unfoldable pub product_info : Frame → Option ProductInfo
product_info frame =
    let strings = info_strings (split_nul frame.payload) in
    if not (is_product_info frame)
    then none
    else some (record {
      module_name = first_or_empty strings;
      family = next_with is_family strings;
      model = next_with is_model strings;
      firmware = next_with is_firmware strings;
    })
