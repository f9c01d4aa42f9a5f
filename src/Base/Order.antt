-- ===== src/Base/Order.antt =====
-- The order of texts by their characters, which is the order of their UTF-8 bytes, and the sort by
-- a text key that `ORDER BY` on an id makes.
use pdt.Base.Sort as ByKey
use pdt.Base.Sort.{IsStrictOrder}
use Prim.Native.Nat.{ℕ}
use Prim.Native.String.{String}
use mathlib.Core.Path.{◌≡◌, refl, ap₂}
use mathlib.Core.Logic.{◌↔◌}
use mathlib.Core.Bool.{Bool, true, false, ◌||◌, ◌&&◌}
use mathlib.Core.List.{List, [], ◌∷◌, ◌++◌, Memᴰ, head-eq_of_cons-eq, tail-eq_of_cons-eq}
use native.Mathlib.Omega.{arith}
use text.Mathlib.TextEquality.{Char-path}
use pdt.Base.Lists.{ltb, eqb, filter, length}
use pdt.Base.Text.{codes}

pub lex_lt : List ℕ → List ℕ → Bool
lex_lt xs [] = false
lex_lt [] (y ∷ ys) = true
lex_lt (x ∷ xs) (y ∷ ys) = ltb x y || (eqb x y && lex_lt xs ys)

-- `a < b` on texts
unfoldable pub text_lt : String → String → Bool
unfolding lex_lt
text_lt a b = lex_lt (codes a) (codes b)

lex_lt_irrefl : (xs : List ℕ) → lex_lt xs xs ≡ false
unfolding lex_lt
lex_lt_irrefl [] = refl
lex_lt_irrefl (x ∷ xs) = ground (arith, lex_lt_irrefl xs)

lex_lt_trans : (xs ys zs : List ℕ) → lex_lt xs ys ≡ true → lex_lt ys zs ≡ true → lex_lt xs zs ≡ true
unfolding lex_lt
lex_lt_trans xs ys [] h k = k
lex_lt_trans xs [] (z ∷ zs) h k = cc
lex_lt_trans [] (y ∷ ys) (z ∷ zs) h k = refl
lex_lt_trans (x ∷ xs) (y ∷ ys) (z ∷ zs) h k = ground (arith, lex_lt_trans xs ys zs)

lex_lt_total : (xs ys : List ℕ) → lex_lt xs ys ≡ false → lex_lt ys xs ≡ false → xs ≡ ys
unfolding lex_lt
lex_lt_total [] [] h k = refl
lex_lt_total (x ∷ xs) [] h k = cc
lex_lt_total [] (y ∷ ys) h k = cc
lex_lt_total (x ∷ xs) (y ∷ ys) h k = ground (arith, lex_lt_total xs ys)

codes_injective : (s t : String) → codes s ≡ codes t → s ≡ t
codes_injective String.[] String.[] h = refl
codes_injective String.[] (String.◌∷◌ c t) h = cc
codes_injective (String.◌∷◌ c s) String.[] h = cc
codes_injective (String.◌∷◌ c s) (String.◌∷◌ d t) h =
    ap₂ String.◌∷◌ (Char-path c d (head-eq_of_cons-eq h))
      (codes_injective s t (tail-eq_of_cons-eq h))

pub text_lt_irrefl : (a : String) → text_lt a a ≡ false
unfolding text_lt
text_lt_irrefl a = lex_lt_irrefl (codes a)

pub text_lt_trans : (a b c : String) → text_lt a b ≡ true → text_lt b c ≡ true → text_lt a c ≡ true
unfolding text_lt
text_lt_trans a b c = lex_lt_trans (codes a) (codes b) (codes c)

pub text_lt_total : (a b : String) → text_lt a b ≡ false → text_lt b a ≡ false → a ≡ b
unfolding text_lt
text_lt_total a b h k = codes_injective a b (lex_lt_total (codes a) (codes b) h k)

pub text_order : IsStrictOrder text_lt
text_order = record { irrefl = text_lt_irrefl; trans = text_lt_trans; total = text_lt_total }

module _ {A : Type 0} (key : A → String) where
  -- `ORDER BY key ASC`
  abbrev pub sort : List A → List A
  sort = ByKey.sort text_lt key

  -- The keys rise strictly.
  abbrev pub IsSorted : List A → Type 0
  IsSorted = ByKey.IsSorted text_lt key

  -- No two rows have one key.
  abbrev pub IsKeyed : List A → Type 0
  IsKeyed = ByKey.IsKeyed key

  pub Memᴰ-sort : (a : A) (xs : List A) → Memᴰ a (sort xs) ↔ Memᴰ a xs
  Memᴰ-sort = ByKey.Memᴰ-sort text_lt key

  pub length-filter-sort :
      (p : A → Bool) (xs : List A) → length (filter p (sort xs)) ≡ length (filter p xs)
  length-filter-sort = ByKey.length-filter-sort text_lt key

  pub IsSorted-sort : (xs : List A) → IsKeyed xs → IsSorted (sort xs)
  IsSorted-sort = ByKey.IsSorted-sort text_order key

  pub IsSorted-filter : (p : A → Bool) (xs : List A) → IsSorted xs → IsSorted (filter p xs)
  IsSorted-filter = ByKey.IsSorted-filter text_order key

  -- In a sorted list the rows above one of its keys are those behind that row.
  pub filter-above :
      (xs : List A) (y : A) (ys : List A)
      → IsSorted (xs ++ y ∷ ys)
      → filter (λ x. text_lt (key y) (key x)) (xs ++ y ∷ ys) ≡ ys
  filter-above = ByKey.filter-above text_order key
