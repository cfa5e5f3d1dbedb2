-- ===== src/Flags/Buckets.antt =====
-- src/services/flags.ts: which of the ten thousand buckets choose a variant.
use poolstatis.Common.{
  ℕ, zero, suc, ◌+◌, ◌-◌, ◌≤◌, ◌≡◌, refl, ap, ◌∙◌, inl, inr, Bool, true, false, ◌&&◌, Option, none,
  some, String, List, [], ◌∷◌, ltb, leb, min, str_eq, if◌then◌else◌, Bool-cases, arith,
}
use poolstatis.Flags.Variants.{Variant, total, validate_variants, choose}

-- How many of the first `n` numbers satisfy a test.
unfoldable pub count : (ℕ → Bool) → ℕ → ℕ
count test zero = 0
count test (suc n) = (if test n then 1 else 0) + count test n

-- Whether a choice is of a variant with a key.
unfoldable pub has_key : String → Option Variant → Bool
has_key key none = false
has_key key (some v) = str_eq v.key key

-- The share of a key, in hundredths of a percent.
unfoldable pub rollout_of : String → List Variant → ℕ
rollout_of key [] = 0
rollout_of key (v ∷ vs) = (if str_eq v.key key then v.rollout else 0) + rollout_of key vs

count-none : (n : ℕ) → count (λ _. false) n ≡ 0
unfolding count
count-none zero = refl
count-none (suc n) = omega (arith, count-none n)

-- The buckets below a boundary, all others being out.
count-interval : (a r n : ℕ) → count (λ b. leb a b && ltb b (a + r)) n ≡ min n (a + r) - min n a
unfolding count
count-interval a r zero = ground arith
count-interval a r (suc n) = ground (arith, count-interval a r n)

-- From a boundary on, the numbers that choose a key.
chooses : String → ℕ → List Variant → ℕ → Bool
chooses key s vs b = leb s b && has_key key (choose b s vs)

count_plus :
    (f g h : ℕ → Bool) (n : ℕ)
    → ((b : ℕ) → (if f b then 1 else 0) ≡ (if g b then 1 else 0) + (if h b then 1 else 0))
    → count f n ≡ count g n + count h n
unfolding count
count_plus f g h zero e = refl
count_plus f g h (suc n) e = omega (arith, e n, count_plus f g h n e)

count-same : (f g : ℕ → Bool) (n : ℕ) → ((b : ℕ) → f b ≡ g b) → count f n ≡ count g n
unfolding count
count-same f g zero e = refl
count-same f g (suc n) e = rw (e n, count-same f g n e) refl

-- The numbers of the interval of one variant that choose a key.
takes : String → ℕ → Variant → ℕ → Bool
takes key s v b = leb s b && (ltb b (s + v.rollout) && str_eq v.key key)

chooses-cons :
    (key : String) (s : ℕ) (v : Variant) (vs : List Variant) (b : ℕ)
    → (if chooses key s (v ∷ vs) b then 1 else 0)
      ≡ (if takes key s v b then 1 else 0) + (if chooses key (s + v.rollout) vs b then 1 else 0)
unfolding chooses takes choose has_key
chooses-cons key s v vs b = ground arith

and_true : (b : Bool) → (b && true) ≡ b
and_true true = refl
and_true false = refl

and_false : (b : Bool) → (b && false) ≡ false
and_false true = refl
and_false false = refl

interval-taken :
    (key : String) (s : ℕ) (v : Variant) (b : ℕ) (m : Bool)
    → str_eq v.key key ≡ m
    → takes key s v b ≡ (if m then leb s b && ltb b (s + v.rollout) else false)
unfolding takes
interval-taken key s v b true e =
    rw e (ap (λ (x : Bool). leb s b && x) (and_true (ltb b (s + v.rollout))))
interval-taken key s v b false e =
    rw e (ap (λ (x : Bool). leb s b && x) (and_false (ltb b (s + v.rollout))) ∙ and_false (leb s b))

count-takes :
    (key : String) (s n : ℕ) (v : Variant)
    → s + v.rollout ≤ n
    → count (takes key s v) n ≡ (if str_eq v.key key then v.rollout else 0)
count-takes key s n v h = elim (Bool-cases (str_eq v.key key)) [
  | inl e ↦ rw e (
      count-same (takes key s v) (λ b. leb s b && ltb b (s + v.rollout)) n
        (λ b. interval-taken key s v b true e)
      ∙ count-interval s v.rollout n
      ∙ omega arith)
  | inr e ↦ rw e (
      count-same (takes key s v) (λ _. false) n (λ b. interval-taken key s v b false e)
      ∙ count-none n)
]

chooses-nil : (key : String) (s b : ℕ) → chooses key s [] b ≡ false
unfolding chooses choose has_key
chooses-nil key s b = ground arith

count-chooses :
    (key : String) (vs : List Variant) (s n : ℕ)
    → s + total vs ≤ n
    → count (chooses key s vs) n ≡ rollout_of key vs
unfolding total rollout_of
count-chooses key [] s n h =
    count-same (chooses key s []) (λ _. false) n (chooses-nil key s) ∙ count-none n
count-chooses key (v ∷ vs) s n h =
    count_plus (chooses key s (v ∷ vs)) (takes key s v) (chooses key (s + v.rollout) vs) n
      (chooses-cons key s v vs)
    ∙ omega (
      arith,
      count-takes key s n v (omega arith),
      count-chooses key vs (s + v.rollout) n (omega arith),
    )

chooses-zero :
    (key : String) (vs : List Variant) (b : ℕ) → has_key key (choose b 0 vs) ≡ chooses key 0 vs b
unfolding chooses
chooses-zero key vs b = ground arith

validated : (vs : List Variant) → validate_variants vs ≡ true → total vs ≤ 10000
unfolding validate_variants
validated vs h = ground arith

-- Of the ten thousand buckets, exactly as many choose a key as its variant has hundredths of a percent, when
-- the variants pass the check of the schema.
pub count-choose :
    (key : String) (vs : List Variant)
    → validate_variants vs ≡ true
    → count (λ b. has_key key (choose b 0 vs)) 10000 ≡ rollout_of key vs
count-choose key vs h =
    count-same (λ b. has_key key (choose b 0 vs)) (chooses key 0 vs) 10000 (chooses-zero key vs)
    ∙ count-chooses key vs 0 10000 (omega (arith, validated vs h))
