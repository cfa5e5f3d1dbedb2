-- ===== src/Flags/Variants.antt =====
-- src/services/flags.ts: the choice of a variant; src/schemas.ts: the check of the variants. A percentage is held
-- in hundredths, as both files round it, and a payload is its text.
use Prim.Native.String.{◌++◌}
use poolstatis.Common.{
  ℕ, ◌+◌, ◌%◌, Bool, true, ◌&&◌, not, Option, none, some, String, List, [], ◌∷◌, any, ltb, leb,
  str_eq, if◌then◌else◌,
}

pub record Variant : Type 0 where
  pub key : String
  pub rollout : ℕ
  pub payload : Option String

-- `totalBasisPoints`
unfoldable pub total : List Variant → ℕ
total [] = 0
total (v ∷ vs) = v.rollout + total vs

unfoldable pub no_duplicates : List Variant → Bool
no_duplicates [] = true
no_duplicates (v ∷ vs) = not (any (λ w. str_eq w.key v.key) vs) && no_duplicates vs

unfoldable pub validate_variants : List Variant → Bool
unfolding no_duplicates total
validate_variants vs = no_duplicates vs && leb (total vs) 10000

-- The loop of `selectVariant`.
unfoldable pub choose : ℕ → ℕ → List Variant → Option Variant
choose bucket boundary [] = none
choose bucket boundary (v ∷ vs) =
    let later = choose bucket (boundary + v.rollout) vs in
    if ltb bucket (boundary + v.rollout) then some v else later

-- `const bucket`. The hash is the number in the first eight digits of the SHA-256 of a text.
abbrev pub bucket_of : (String → ℕ) → String → String → ℕ
bucket_of hash salt distinct_id = hash (salt ++ ":" ++ distinct_id) % 10000

-- `selectVariant`
unfoldable pub select_variant : (String → ℕ) → String → List Variant → String → Option Variant
unfolding choose
select_variant hash salt variants distinct_id = choose (bucket_of hash salt distinct_id) 0 variants
