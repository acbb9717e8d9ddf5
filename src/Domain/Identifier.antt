-- ===== src/Domain/Identifier.antt =====
-- internal/domain/shared/id.go: the text of an identifier, as bytes, and the value that the database
-- driver is given and returns. hex.Encode writes two digits for a byte, so 32 for an identifier.
pub mod RoundTrip
use aegisops_ai.Base.{
  ℕ, zero, suc, ◌+◌, ◌-◌, ◌*◌, ◌/◌, ◌%◌, Bool, true, false, ◌&&◌, List, [], ◌∷◌, ◌++◌, Option, none,
  some, if◌then◌else◌, length, leb, ◌==◌,
}
use aegisops_ai.Shared.{Uid, is_zero_id}
use aegisops_ai.Domain.Execution.{Bytes}

hex_char : ℕ → ℕ
hex_char d = if leb d 9 then 48 + d else 87 + d

-- The digits of `i`, the last `k` of them, in front of `rest`.
hex_digits : ℕ → Uid → Bytes → Bytes
unfolding hex_char
hex_digits zero i rest = rest
hex_digits (suc k) i rest = hex_digits k (i / 16) (hex_char (i % 16) ∷ rest)

first_bytes : ℕ → Bytes → Bytes
first_bytes zero s = []
first_bytes (suc k) [] = []
first_bytes (suc k) (b ∷ s) = b ∷ first_bytes k s

bytes_from : ℕ → Bytes → Bytes
bytes_from zero s = s
bytes_from (suc k) [] = []
bytes_from (suc k) (b ∷ s) = bytes_from k s

-- s[from:to].
unfoldable pub slice : ℕ → ℕ → Bytes → Bytes
unfolding first_bytes bytes_from
slice from to s = first_bytes (to - from) (bytes_from from s)

abbrev dash : ℕ
dash = 45

-- ID.String.
unfoldable pub id_string : Uid → Bytes
unfolding hex_digits slice
id_string i =
    let hex = hex_digits 32 i [] in
    slice 0 8 hex
    ++ dash ∷ slice 8 12 hex
    ++ dash ∷ slice 12 16 hex
    ++ dash ∷ slice 16 20 hex
    ++ dash ∷ slice 20 32 hex

-- strings.ToLower; a byte outside ASCII is no hexadecimal digit before or after it.
to_lower : ℕ → ℕ
to_lower c = if leb 65 c && leb c 90 then c + 32 else c

hex_value : ℕ → Option ℕ
hex_value c =
    if leb 48 c && leb c 57
    then some (c - 48)
    else if leb 97 c && leb c 102
    then some (c - 87)
    else none

-- hex.Decode, into a number.
unfoldable pub decode_hex : ℕ → Bytes → Option Uid
unfolding hex_value to_lower
decode_hex value [] = some value
decode_hex value (c ∷ s) = elim (hex_value (to_lower c)) [
  | none ↦ none
  | some d ↦ decode_hex (value * 16 + d) s
]

-- s[k] == '-', of a byte that is there.
dash_at : ℕ → Bytes → Bool
unfolding bytes_from
dash_at k s = elim (bytes_from k s) [ [] ↦ false | c ∷ _ ↦ c == dash ]

-- ParseID; `none` is ErrInvalidID.
unfoldable pub parse_id : Bytes → Option Uid
unfolding decode_hex slice dash_at bytes_from
parse_id s =
    if length s == 36
    then if dash_at 8 s && dash_at 13 s && dash_at 18 s && dash_at 23 s
      then decode_hex 0
          (slice 0 8 s ++ slice 9 13 s ++ slice 14 18 s ++ slice 19 23 s ++ bytes_from 24 s)
      else none
    else if length s == 32
    then decode_hex 0 s
    else none

-- What the driver is given, or may return: NULL, a text, or bytes.
pub data DriverValue : Type 0 where
  null : DriverValue
  text : Bytes → DriverValue
  bytes : Bytes → DriverValue

-- ID.Value.
unfoldable pub value : Uid → DriverValue
unfolding id_string
value i = if is_zero_id i then null else text (id_string i)

from_bytes : Uid → Bytes → Uid
from_bytes i [] = i
from_bytes i (b ∷ s) = from_bytes (i * 256 + b) s

-- ID.Scan.
unfoldable pub scan : DriverValue → Option Uid
unfolding parse_id from_bytes
scan null = some 0
scan (text s) = parse_id s
scan (bytes s) = if length s == 16 then some (from_bytes 0 s) else parse_id s
