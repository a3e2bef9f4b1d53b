-- ===== src/Prelude/Base64.antt =====
-- encoding/base64's StdEncoding.DecodeString and encoding/hex's EncodeToString. A byte is a number
-- below 256. Where an error names an offset it is counted in bytes; every character before it is
-- one byte long.
pub mod RoundTrip
use Prim.Native.Nat.{ℕ, zero, suc, ◌+◌, ◌-◌, ◌*◌, ◌/◌, ◌%◌, ◌<◌}
use Prim.Native.Char.{Char, code}
use Prim.Native.String.{String, char_at}
use mathlib.Core.Path.{◌≡◌, refl, ap, ◌∙◌}
use mathlib.Core.Bool.{Bool, true, false, ◌&&◌, ◌||◌}
use mathlib.Core.Option.{Option, none, some}
use mathlib.Core.List.{List, [], ◌∷◌}
use native.Mathlib.Omega.{arith}
use bb_remote_asset.Prelude.Lists.{All}
use bb_remote_asset.Prelude.Tests.{ltb, nat_eq, if◌then◌else◌}

abbrev pub IsByte : ℕ → Type 0
IsByte b = b < 256

-- The bytes, or the offset of a CorruptInputError.
pub data Decoded : Type 0 where
  bytes : List ℕ → Decoded
  corrupt : ℕ → Decoded

between : ℕ → ℕ → ℕ → Bool
between lo hi c = ltb c (suc hi) && ltb lo (suc c)

-- The six bits that a character stands for.
pub sextet : ℕ → Option ℕ
unfolding between
sextet c =
    if between b'A' b'Z' c
    then some (c - b'A')
    else if between b'a' b'z' c
    then some (26 + (c - b'a'))
    else if between b'0' b'9' c
    then some (52 + (c - b'0'))
    else if nat_eq c b'+'
    then some 62
    else if nat_eq c b'/'
    then some 63
    else none

abbrev is_newline : ℕ → Bool
is_newline c = nat_eq c 10 || nat_eq c 13

-- After the padding only newlines may follow.
trailing : ℕ → List ℕ → String → Decoded
trailing i last String.[] = bytes last
trailing i last (String.◌∷◌ c s) =
    if is_newline (code c) then trailing (suc i) last s else corrupt i

-- After the first of two padding characters.
second_padding : ℕ → List ℕ → String → Decoded
unfolding trailing
second_padding i last String.[] = corrupt i
second_padding i last (String.◌∷◌ c s) =
    let rest = second_padding (suc i) last s in
    if is_newline (code c)
    then rest
    else if nat_eq (code c) b'='
    then trailing (suc i) last s
    else corrupt (i - 1)

-- The sextets that are read of the current group of four.
pub data Group : Type 0 where
  start : Group
  one : ℕ → Group
  two : ℕ → ℕ → Group
  three : ℕ → ℕ → ℕ → Group

abbrev held : Group → ℕ
held start = 0
held (one _) = 1
held (two _ _) = 2
held (three _ _ _) = 3

abbrev first_byte : ℕ → ℕ → ℕ
first_byte a b = (a * 4 + b / 16) % 256

abbrev second_byte : ℕ → ℕ → ℕ
second_byte b c = (b * 16 + c / 4) % 256

abbrev third_byte : ℕ → ℕ → ℕ
third_byte c d = (c * 64 + d) % 256

-- The text ends within the group.
abbrev at_end : ℕ → Group → Decoded
at_end i start = bytes []
at_end i g = corrupt (i - held g)

-- The bits of the last sextet that fill no byte are ignored.
abbrev padded : ℕ → Group → String → Decoded
padded i (two a b) s = second_padding (suc i) (first_byte a b ∷ []) s
padded i (three a b c) s = trailing (suc i) (first_byte a b ∷ second_byte b c ∷ []) s
padded i _ s = corrupt i

abbrev cons_bytes : ℕ → ℕ → ℕ → Decoded → Decoded
cons_bytes x y z (bytes bs) = bytes (x ∷ y ∷ z ∷ bs)
cons_bytes x y z (corrupt i) = corrupt i

-- A character that stands for six bits joins the group; a full group is three bytes before what
-- `rest` makes of the text behind it.
abbrev joined : (Group → Decoded) → Group → ℕ → Decoded
joined rest start a = rest (one a)
joined rest (one a) b = rest (two a b)
joined rest (two a b) c = rest (three a b c)
joined rest (three a b c) d =
    cons_bytes (first_byte a b) (second_byte b c) (third_byte c d) (rest start)

abbrev on_char : ℕ → Group → Option ℕ → ℕ → String → (Group → Decoded) → Decoded
on_char i g (some v) c s rest = joined rest g v
on_char i g none c s rest =
    if is_newline c then rest g else if nat_eq c b'=' then padded i g s else corrupt i

-- The quanta of the text, from the offset `i` on.
decode_from : ℕ → Group → String → Decoded
unfolding sextet trailing second_padding
decode_from i g String.[] = at_end i g
decode_from i g (String.◌∷◌ c s) =
    on_char i g (sextet (code c)) (code c) s (λ h. decode_from (suc i) h s)

-- base64.StdEncoding.DecodeString
unfoldable pub decode_base64 : String → Decoded
unfolding decode_from
decode_base64 s = decode_from 0 start s

abbrev hex_char : ℕ → Char
hex_char n = char_at "0123456789abcdef" n

-- hex.EncodeToString
unfoldable pub hex : List ℕ → String
hex [] = ""
hex (b ∷ bs) = String.◌∷◌ (hex_char (b / 16)) (String.◌∷◌ (hex_char (b % 16)) (hex bs))

-- The character for six bits.
abbrev base64_char : ℕ → Char
base64_char v = char_at "ABCDEFGHIJKLMNOPQRSTUVWXYZabcdefghijklmnopqrstuvwxyz0123456789+/" v

-- The encoding with padding, as RFC 4648 describes it.
unfoldable pub base64 : List ℕ → String
base64 [] = ""
base64 (x ∷ []) = String.◌∷◌ (base64_char (x / 4)) (String.◌∷◌ (base64_char (x % 4 * 16)) "==")
base64 (x ∷ y ∷ []) =
    String.◌∷◌ (base64_char (x / 4))
      (String.◌∷◌ (base64_char (x % 4 * 16 + y / 16)) (String.◌∷◌ (base64_char (y % 16 * 4)) "="))
base64 (x ∷ y ∷ z ∷ bs) = String.◌∷◌ (base64_char (x / 4)) (
    String.◌∷◌ (base64_char (x % 4 * 16 + y / 16)) (
      String.◌∷◌ (base64_char (y % 16 * 4 + z / 64))
        (String.◌∷◌ (base64_char (z % 64)) (base64 bs))))
