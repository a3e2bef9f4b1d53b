-- ===== src/Prelude/Text.antt =====
-- The order `<` of Go on strings. Go compares bytes; on UTF-8, which is what a protobuf string
-- holds, that is the order of the code points.

use Prim.Native.Char.{Char, code}
use Prim.Native.String.{String, [], ◌∷◌}
use mathlib.Core.Path.{◌≡◌, refl}
use mathlib.Core.Bool.{Bool, true, false}
use native.Mathlib.Omega.{arith}
use text.Mathlib.TextEquality.{Char-path}
use bb_remote_asset.Prelude.Tests.{ltb, nat_eq, if◌then◌else◌}

unfoldable pub text_less : String → String → Bool
text_less [] [] = false
text_less [] (d ∷ t) = true
text_less (c ∷ s) [] = false
text_less (c ∷ s) (d ∷ t) =
    if ltb (code c) (code d)
    then true
    else if nat_eq (code c) (code d)
    then text_less s t
    else false

pub text_less_irrefl : (s : String) → text_less s s ≡ false
unfolding text_less
text_less_irrefl [] = refl
text_less_irrefl (c ∷ s) = ground (arith, text_less_irrefl s)

pub text_less_trans :
    (s t u : String) → text_less s t ≡ true → text_less t u ≡ true → text_less s u ≡ true
unfolding text_less
text_less_trans [] [] u h k = ground arith
text_less_trans [] (d ∷ t) [] h k = k
text_less_trans [] (d ∷ t) (e ∷ u) h k = refl
text_less_trans (c ∷ s) [] u h k = ground arith
text_less_trans (c ∷ s) (d ∷ t) [] h k = k
text_less_trans (c ∷ s) (d ∷ t) (e ∷ u) h k = ground (arith, text_less_trans s t u)

cons_path : {c d : Char} {s t : String} → c ≡ d → s ≡ t → (c ∷ s) ≡ (d ∷ t)
cons_path p q = λ i. p i ∷ q i

same_code : (c d : Char) → ltb (code c) (code d) ≡ false → ltb (code d) (code c) ≡ false → c ≡ d
same_code c d h k = Char-path c d (ground arith)

pub text_less_tri : (s t : String) → text_less s t ≡ false → text_less t s ≡ false → s ≡ t
unfolding text_less
text_less_tri [] [] h k = refl
text_less_tri [] (d ∷ t) h k = ground arith
text_less_tri (c ∷ s) [] h k = ground arith
text_less_tri (c ∷ s) (d ∷ t) h k =
    cons_path (same_code c d (ground arith) (ground arith))
      (text_less_tri s t (ground arith) (ground arith))
