-- ===== src/Prelude/Decimal.antt =====
-- strconv.ParseInt in base 10, and fmt's `%d`.
use Prim.Native.Nat.{ℕ, zero, suc, ◌+◌, ◌-◌, ◌*◌, ◌/◌, ◌%◌, ◌^◌}
use Prim.Native.Char.{code}
use Prim.Native.String.{String, char_at}
use mathlib.Core.Bool.{Bool, true, false}
use bb_remote_asset.Prelude.Tests.{ltb, nat_eq, if◌then◌else◌}
use bb_remote_asset.Prelude.Int.{ℤ, pos, negsuc}

pub data ParsedInt : Type 0 where
  number : ℤ → ParsedInt
  syntax_error : ParsedInt
  range_error : ParsedInt

abbrev is_digit : ℕ → Bool
is_digit c = elim (ltb c b'0') [ true ↦ false | false ↦ ltb c (suc b'9') ]

abbrev grown : ℕ → ℕ → ℕ
grown n c = n * 10 + (c - b'0')

-- ParseUint on 64 bits, after `n` has been read. What is kept is the number, if there is one.
digits : ℕ → String → ParsedInt
digits n String.[] = number (pos n)
digits n (String.◌∷◌ c s) =
    let rest = digits (grown n (code c)) s in
    if is_digit (code c)
    then if ltb (grown n (code c)) (2 ^ 64) then rest else range_error
    else syntax_error

abbrev unsigned : String → ParsedInt
unsigned String.[] = syntax_error
unsigned s = digits 0 s

-- The bounds of int64.
abbrev positive : ParsedInt → ParsedInt
positive (number (pos n)) = if ltb n (2 ^ 63) then number (pos n) else range_error
positive r = r

abbrev negated : ℕ → ℤ
negated zero = pos 0
negated (suc n) = negsuc n

abbrev negative : ParsedInt → ParsedInt
negative (number (pos n)) = if ltb (2 ^ 63) n then range_error else number (negated n)
negative r = r

-- strconv.ParseInt(s, 10, 64)
unfoldable pub parse_int : String → ParsedInt
unfolding digits
parse_int String.[] = syntax_error
parse_int (String.◌∷◌ c s) =
    if nat_eq (code c) b'+'
    then positive (unsigned s)
    else if nat_eq (code c) b'-'
    then negative (unsigned s)
    else positive (unsigned (String.◌∷◌ c s))

-- The digits of `n` before `s`, with fuel for as many as there are.
decimal_from : ℕ → ℕ → String → String
decimal_from zero n s = s
decimal_from (suc fuel) n s =
    let t = String.◌∷◌ (char_at "0123456789" (n % 10)) s in
    let rest = decimal_from fuel (n / 10) t in if ltb n 10 then t else rest

-- `%d` of a number that is not negative.
unfoldable pub decimal : ℕ → String
unfolding decimal_from
decimal n = decimal_from (suc n) n ""
