-- ===== src/Prelude/Base64/RoundTrip.antt =====
-- What is encoded is decoded.
use Prim.Native.Nat.{ℕ, zero, suc, ◌+◌, ◌*◌, ◌/◌, ◌%◌, ◌<◌}
use Prim.Native.Char.{code}
use Prim.Native.String.{String}
use mathlib.Core.Path.{◌≡◌, refl, ap, ◌∙◌}
use mathlib.Core.Bool.{Bool, true, false, ◌&&◌}
use mathlib.Core.Option.{Option, none, some}
use mathlib.Core.List.{List, [], ◌∷◌}
use native.Mathlib.Omega.{arith}
use bb_remote_asset.Prelude.Lists.{All}
use bb_remote_asset.Prelude.Tests.{nat_eq}
use bb_remote_asset.Prelude.Base64.{
  Group, IsByte, base64, base64_char, bytes, decode_base64, decode_from, first_byte, joined,
  on_char, one, second_byte, sextet, start, third_byte, three, two,
}

abbrev is_some_of : ℕ → Option ℕ → Bool
is_some_of v none = false
is_some_of v (some w) = nat_eq w v

some_of : (v : ℕ) (o : Option ℕ) → is_some_of v o ≡ true → o ≡ some v
some_of v none h = cc
some_of v (some w) h = ground arith

is_read_back : ℕ → Bool
unfolding sextet
is_read_back v = is_some_of v (sextet (code (base64_char v)))

-- The first `n` characters of the alphabet, from the last one down.
are_read_back : ℕ → Bool
unfolding is_read_back
are_read_back zero = true
are_read_back (suc n) = are_read_back n && is_read_back n

read_back : (n v : ℕ) → v < n → are_read_back n ≡ true → is_read_back v ≡ true
unfolding are_read_back
read_back zero v below all_good = absurd (omega arith)
read_back (suc n) v below all_good = ground (arith, read_back n v)

alphabet_is_read_back : are_read_back 64 ≡ true
unfolding are_read_back
alphabet_is_read_back = refl

sextet-base64_char : (v : ℕ) → v < 64 → sextet (code (base64_char v)) ≡ some v
unfolding is_read_back
sextet-base64_char v below =
    some_of v (sextet (code (base64_char v))) (read_back 64 v below alphabet_is_read_back)

first_of : (x y : ℕ) → x < 256 → y < 256 → first_byte (x / 4) (x % 4 * 16 + y / 16) ≡ x
first_of x y h k = omega arith

second_of :
    (x y z : ℕ)
    → x < 256
    → y < 256
    → z < 256
    → second_byte (x % 4 * 16 + y / 16) (y % 16 * 4 + z / 64) ≡ y
second_of x y z h k m = omega arith

third_of : (y z : ℕ) → y < 256 → z < 256 → third_byte (y % 16 * 4 + z / 64) (z % 64) ≡ z
third_of y z k m = omega arith

step :
    (i : ℕ) (g : Group) (v : ℕ) (s : String)
    → v < 64
    → decode_from i g (String.◌∷◌ (base64_char v) s) ≡ joined (λ h. decode_from (suc i) h s) g v
unfolding decode_from
step i g v s h =
    ap (λ o. on_char i g o (code (base64_char v)) s (λ h. decode_from (suc i) h s))
      (sextet-base64_char v h)

-- The endings of one and of two bytes.
ends_one : (i a b : ℕ) → decode_from i (two a b) "==" ≡ bytes (first_byte a b ∷ [])
unfolding decode_from
ends_one i a b = refl

ends_two :
    (i a b c : ℕ) → decode_from i (three a b c) "=" ≡ bytes (first_byte a b ∷ second_byte b c ∷ [])
unfolding decode_from
ends_two i a b c = refl

first_of_one : (x : ℕ) → x < 256 → first_byte (x / 4) (x % 4 * 16) ≡ x
first_of_one x h = omega arith

second_of_two : (x y : ℕ) → x < 256 → y < 256 → second_byte (x % 4 * 16 + y / 16) (y % 16 * 4) ≡ y
second_of_two x y h k = omega arith

two_steps :
    (x v i : ℕ) (s : String)
    → x < 256
    → v < 64
    → decode_from i start (String.◌∷◌ (base64_char (x / 4)) (String.◌∷◌ (base64_char v) s))
      ≡ decode_from (suc (suc i)) (two (x / 4) v) s
two_steps x v i s h k = step i start (x / 4) _ (omega arith) ∙ step (suc i) (one (x / 4)) v s k

decode_from-base64 :
    (bs : List ℕ) (i : ℕ) → All IsByte bs → decode_from i start (base64 bs) ≡ bytes bs
unfolding base64
decode_from-base64 [] i h = unfold decode_from in refl
decode_from-base64 (x ∷ []) i (h, _) =
    two_steps x (x % 4 * 16) i _ h (omega arith)
    ∙ ends_one (suc (suc i)) _ _
    ∙ rw (first_of_one x h) refl
decode_from-base64 (x ∷ y ∷ []) i (h, (k, _)) =
    two_steps x (x % 4 * 16 + y / 16) i _ h (omega arith)
    ∙ step (suc (suc i)) (two (x / 4) (x % 4 * 16 + y / 16)) (y % 16 * 4) _ (omega arith)
    ∙ ends_two (suc (suc (suc i))) _ _ _
    ∙ rw (first_of x y h k, second_of_two x y h k) refl
decode_from-base64 (x ∷ y ∷ z ∷ bs) i (h, (k, (m, ps))) =
    two_steps x (x % 4 * 16 + y / 16) i _ h (omega arith)
    ∙ step (suc (suc i)) (two (x / 4) (x % 4 * 16 + y / 16)) (y % 16 * 4 + z / 64) _ (omega arith)
    ∙ step (suc (suc (suc i))) (three (x / 4) (x % 4 * 16 + y / 16) (y % 16 * 4 + z / 64)) (z % 64)
        _ (omega arith)
    ∙ rw (decode_from-base64 bs (suc (suc (suc (suc i)))) ps)
        (rw (first_of x y h k, second_of x y z h k m, third_of y z k m) refl)

-- What is encoded is decoded.
pub decode_base64-base64 : (bs : List ℕ) → All IsByte bs → decode_base64 (base64 bs) ≡ bytes bs
unfolding decode_base64
decode_base64-base64 bs h = decode_from-base64 bs 0 h
