-- ===== src/Releases/Sha.antt =====
-- src/services/releases.ts: `commit_sha.toLowerCase()`. The schema lets hexadecimal digits alone through,
-- so the letters A to F are the only ones that change.
use Prim.Native.Char.{Char, code}
use Prim.Native.String.{String, [], ◌∷◌}
use poolstatis.Common.{◌≡◌, refl, ◌==◌, if◌then◌else◌}

unfoldable pub lower_digit : Char → Char
lower_digit c =
    if code c == 65
    then "a"
    else if code c == 66
    then "b"
    else if code c == 67
    then "c"
    else if code c == 68
    then "d"
    else if code c == 69
    then "e"
    else if code c == 70
    then "f"
    else c

unfoldable pub lower : String → String
unfolding lower_digit
lower [] = []
lower (c ∷ s) = lower_digit c ∷ lower s

lower_test : lower "AB3fF" ≡ "ab3ff"
unfolding lower
lower_test = refl
