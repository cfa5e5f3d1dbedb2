-- ===== src/Common/Sorting.antt =====
-- `ORDER BY` on a list of numbers: a sort by keys that compare from the first number on.
use Prim.Native.Nat.{ℕ}
use mathlib.Core.Path.{◌≡◌, refl}
use mathlib.Core.Logic.{inl, inr}
use mathlib.Core.Bool.{Bool, true, false}
use mathlib.Core.List.{List, [], ◌∷◌}
use mathlib.Core.List.Perm
pub use mathlib.Core.List.{Perm}
use native.Mathlib.Omega.{arith}
use poolstatis.Common.Tests.{ltb, if◌then◌else◌, Bool-cases}
use poolstatis.Common.Lists.{All}

unfoldable pub lex_le : List ℕ → List ℕ → Bool
lex_le [] ls = true
lex_le (a ∷ ks) [] = false
lex_le (a ∷ ks) (b ∷ ls) =
    let rest = lex_le ks ls in if ltb a b then true else if ltb b a then false else rest

pub lex_le_total : (ks ls : List ℕ) → lex_le ks ls ≡ false → lex_le ls ks ≡ true
unfolding lex_le
lex_le_total [] ls h = absurd cc
lex_le_total (a ∷ ks) [] h = refl
lex_le_total (a ∷ ks) (b ∷ ls) h = ground (arith, lex_le_total ks ls)

pub lex_le_trans :
    (ks ls ms : List ℕ) → lex_le ks ls ≡ true → lex_le ls ms ≡ true → lex_le ks ms ≡ true
unfolding lex_le
lex_le_trans [] ls ms h k = refl
lex_le_trans (a ∷ ks) [] ms h k = absurd cc
lex_le_trans (a ∷ ks) (b ∷ ls) [] h k = absurd cc
lex_le_trans (a ∷ ks) (b ∷ ls) (c ∷ ms) h k = ground (arith, lex_le_trans ks ls ms)

module _ {A : Type 0} (key : A → List ℕ) where
  unfoldable pub insert_by : A → List A → List A
  insert_by x [] = x ∷ []
  insert_by x (y ∷ ys) =
      let rest = insert_by x ys in if lex_le (key x) (key y) then x ∷ y ∷ ys else y ∷ rest

  unfoldable pub sort_by : List A → List A
  unfolding insert_by
  sort_by [] = []
  sort_by (x ∷ xs) = insert_by x (sort_by xs)

  -- Each element is at most those that follow it.
  abbrev pub IsOrdered : List A → Type 0
  IsOrdered [] = Unit
  IsOrdered (x ∷ xs) = All (λ y. lex_le (key x) (key y) ≡ true) xs × IsOrdered xs

  insert_by-Perm : (x : A) (l : List A) → Perm (insert_by x l) (x ∷ l)
  unfolding insert_by
  insert_by-Perm x [] = Perm.rfl
  insert_by-Perm x (y ∷ ys) = elim (Bool-cases (lex_le (key x) (key y))) [
    | inl e ↦ rw e Perm.rfl
    | inr e ↦ rw e (Perm.trans (Perm.cons y (insert_by-Perm x ys)) (Perm.swap x y ys))
  ]

  pub sort_by-Perm : (l : List A) → Perm (sort_by l) l
  unfolding sort_by
  sort_by-Perm [] = Perm.rfl
  sort_by-Perm (x ∷ xs) = Perm.trans (insert_by-Perm x (sort_by xs)) (Perm.cons x (sort_by-Perm xs))

  below_trans :
      (x y : A) (l : List A)
      → lex_le (key x) (key y) ≡ true
      → All (λ z. lex_le (key y) (key z) ≡ true) l
      → All (λ z. lex_le (key x) (key z) ≡ true) l
  below_trans x y [] h k = tt
  below_trans x y (z ∷ l) h k =
      (lex_le_trans (key x) (key y) (key z) h k.0, below_trans x y l h k.1)

  below-insert :
      (x y : A) (l : List A)
      → lex_le (key x) (key y) ≡ true
      → All (λ z. lex_le (key x) (key z) ≡ true) l
      → All (λ z. lex_le (key x) (key z) ≡ true) (insert_by y l)
  unfolding insert_by
  below-insert x y [] h k = (h, tt)
  below-insert x y (z ∷ l) h k = elim (Bool-cases (lex_le (key y) (key z))) [
    | inl e ↦ rw e (h, k)
    | inr e ↦ rw e (k.0, below-insert x y l h k.1)
  ]

  insert_by-IsOrdered : (x : A) (l : List A) → IsOrdered l → IsOrdered (insert_by x l)
  unfolding insert_by
  insert_by-IsOrdered x [] h = (tt, tt)
  insert_by-IsOrdered x (y ∷ ys) h = elim (Bool-cases (lex_le (key x) (key y))) [
    | inl e ↦ rw e ((e, below_trans x y ys e h.0), h)
    | inr e ↦
        rw e
          (below-insert y x ys (lex_le_total (key x) (key y) e) h.0, insert_by-IsOrdered x ys h.1)
  ]

  pub sort_by-IsOrdered : (l : List A) → IsOrdered (sort_by l)
  unfolding sort_by
  sort_by-IsOrdered [] = tt
  sort_by-IsOrdered (x ∷ xs) = insert_by-IsOrdered x (sort_by xs) (sort_by-IsOrdered xs)
