-- ===== src/QueryCache/Keys.antt =====
-- src/services/queryCache.ts: the keys of the map. The id of a project is a UUID, so that it has no colon and
-- the key tells it.
use Prim.Native.Char.{code}
use Prim.Native.String.{String, [], ◌∷◌, ◌++◌}
use Prim.Native.String.append
use text.Mathlib.TextLemmas.{cons-append, head-eq_of_cons-eq, tail-eq_of_cons-eq}
use poolstatis.Common.{◌≡◌, ◌≢◌, refl, sym, ap, ◌∙◌}
use poolstatis.QueryCache.Cache.{cache_key}

-- A text without a colon.
abbrev pub IsPlain : String → Type 0
IsPlain [] = Unit
IsPlain (c ∷ s) = (code c ≢ 58) × IsPlain s

colon : (s : String) → [] ++ (":" ++ s) ≡ ":" ∷ s
colon s =
    (λ i. append.nil (":" ++ s) i)
    ∙ (λ i. append.cons ":" [] s i)
    ∙ ap (λ (t : String). ":" ∷ t) (λ i. append.nil s i)

-- Two texts without a colon that are followed by one are told apart by the whole.
before_colon :
    (p q s t : String) → IsPlain p → IsPlain q → p ++ (":" ++ s) ≡ q ++ (":" ++ t) → p ≡ q
before_colon [] [] s t h k e = refl
before_colon [] (c ∷ q) s t h (n, _) e =
    absurd (n (ap code (sym (head-eq_of_cons-eq (sym (colon s) ∙ e ∙ cons-append c q (":" ++ t))))))
before_colon (c ∷ p) [] s t (n, _) k e =
    absurd (n (ap code (head-eq_of_cons-eq (sym (cons-append c p (":" ++ s)) ∙ e ∙ colon t))))
before_colon (c ∷ p) (d ∷ q) s t (_, h) (_, k) e =
    let e' = sym (cons-append c p (":" ++ s)) ∙ e ∙ cons-append d q (":" ++ t) in
    let head = head-eq_of_cons-eq e' in
    let tail = before_colon p q s t h k (tail-eq_of_cons-eq e') in cc

-- A key tells its project.
pub cache_key-project :
    (p q k j : String) → IsPlain p → IsPlain q → cache_key p k ≡ cache_key q j → p ≡ q
cache_key-project p q k j h i e = before_colon p q k j h i e
