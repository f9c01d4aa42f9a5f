-- ===== src/Base/Join.antt =====
-- Texts joined by a separator are told apart, where no part has the separator's character.
use Prim.Native.Nat.{ℕ}
use Prim.Native.Char.{Char, code}
use Prim.Native.String.{String}
use mathlib.Core.Path.{◌≡◌, refl, ap, ap₂, sym}
use mathlib.Core.Bool.{true, false}
use mathlib.Core.List.{List, [], ◌∷◌, Memᴰ}
use native.Mathlib.Omega.{arith}
use pdt.Base.Lists.{eqb, length}
use pdt.Base.Text.{concat, join, lacks}

-- The text behind the first character.
rest_of : String → String
rest_of String.[] = String.[]
rest_of (String.◌∷◌ c s) = s

-- The first character, or `c` where there is none.
first_of : Char → String → Char
first_of c String.[] = c
first_of c (String.◌∷◌ d s) = d

-- What stands before the first separator, and what stands behind it.
pub cut :
    (k : ℕ) (c : Char)
    → eqb (code c) k ≡ true
    → (a a' b b' : String) → lacks k a ≡ true
    → lacks k a' ≡ true
    → concat a (String.◌∷◌ c b) ≡ concat a' (String.◌∷◌ c b')
    → (a ≡ a') × (b ≡ b')
unfolding rest_of first_of
cut k c is String.[] String.[] b b' h h' e = (refl, ap rest_of e)
cut k c is String.[] (String.◌∷◌ d a') b b' h h' e =
    let same = ap code (ap (first_of c) e) in absurd (ground arith)
cut k c is (String.◌∷◌ d a) String.[] b b' h h' e =
    let same = ap code (ap (first_of c) e) in absurd (ground arith)
cut k c is (String.◌∷◌ d a) (String.◌∷◌ d' a') b b' h h' e =
    let (same, left) = cut k c is a a' b b' (ground arith) (ground arith) (ap rest_of e) in
    (ap₂ String.◌∷◌ (ap (first_of d) e) same, left)

-- A text without the separator is no join.
lacks-concat :
    (k : ℕ) (c : Char) (a b : String)
    → eqb (code c) k ≡ true
    → lacks k (concat a (String.◌∷◌ c b)) ≡ false
lacks-concat k c String.[] b is = rw is refl
lacks-concat k c (String.◌∷◌ d a) b is = ground (arith, lacks-concat k c a b is)

-- The parts of a join: none is empty, and none has the separator.
abbrev pub IsPart : ℕ → String → Type 0
IsPart k s = (lacks k s ≡ true) × ((s ≡ "") → ⊥)

concat-nil : (a b : String) → concat a b ≡ "" → a ≡ ""
unfolding rest_of
concat-nil String.[] b e = refl
concat-nil (String.◌∷◌ c a) b e = cc

module _ (k : ℕ) (c : Char) (is : eqb (code c) k ≡ true) where
  abbrev sep : String
  sep = String.◌∷◌ c String.[]

  one_part : (x y : String) (b : String) → IsPart k x → x ≡ concat y (String.◌∷◌ c b) → ⊥
  one_part x y b part e = let full = lacks-concat k c y b is in cc (ap (lacks k) e, part.0)

  -- Texts joined by one character determine the parts.
  pub join-injective :
      (xs ys : List String)
      → ((x : String) → Memᴰ x xs → IsPart k x)
      → ((y : String) → Memᴰ y ys → IsPart k y)
      → join sep xs ≡ join sep ys
      → xs ≡ ys
  join-injective [] [] hx hy e = refl
  join-injective [] (y ∷ []) hx hy e = absurd ((hy y (Memᴰ.head refl)).1 (sym e))
  join-injective [] (y ∷ z ∷ ys) hx hy e =
      absurd ((hy y (Memᴰ.head refl)).1 (concat-nil y _ (sym e)))
  join-injective (x ∷ []) [] hx hy e = absurd ((hx x (Memᴰ.head refl)).1 e)
  join-injective (x ∷ z ∷ xs) [] hx hy e = absurd ((hx x (Memᴰ.head refl)).1 (concat-nil x _ e))
  join-injective (x ∷ []) (y ∷ []) hx hy e = ap (λ z. z ∷ []) e
  join-injective (x ∷ []) (y ∷ z ∷ ys) hx hy e = absurd (one_part x y _ (hx x (Memᴰ.head refl)) e)
  join-injective (x ∷ z ∷ xs) (y ∷ []) hx hy e =
      absurd (one_part y x _ (hy y (Memᴰ.head refl)) (sym e))
  join-injective (x ∷ z ∷ xs) (y ∷ w ∷ ys) hx hy e =
      let (same, left) = cut k c is x y _ _ (hx x (Memᴰ.head refl)).0 (hy y (Memᴰ.head refl)).0 e in
      ap₂ ◌∷◌ same (
        join-injective (z ∷ xs) (w ∷ ys) (λ q m. hx q (Memᴰ.tail m)) (λ q m. hy q (Memᴰ.tail m))
          left)

  -- So do texts that may be empty, where there are as many of them.
  pub join-injective_of_length :
      (xs ys : List String)
      → length xs ≡ length ys
      → ((x : String) → Memᴰ x xs → lacks k x ≡ true)
      → ((y : String) → Memᴰ y ys → lacks k y ≡ true)
      → join sep xs ≡ join sep ys
      → xs ≡ ys
  join-injective_of_length [] [] n hx hy e = refl
  join-injective_of_length [] (y ∷ ys) n hx hy e = absurd (omega (arith, n))
  join-injective_of_length (x ∷ xs) [] n hx hy e = absurd (omega (arith, n))
  join-injective_of_length (x ∷ []) (y ∷ []) n hx hy e = ap (λ z. z ∷ []) e
  join-injective_of_length (x ∷ []) (y ∷ z ∷ ys) n hx hy e = absurd (omega (arith, n))
  join-injective_of_length (x ∷ z ∷ xs) (y ∷ []) n hx hy e = absurd (omega (arith, n))
  join-injective_of_length (x ∷ z ∷ xs) (y ∷ w ∷ ys) n hx hy e =
      let (same, left) = cut k c is x y _ _ (hx x (Memᴰ.head refl)) (hy y (Memᴰ.head refl)) e in
      ap₂ ◌∷◌ same (
        join-injective_of_length (z ∷ xs) (w ∷ ys) (omega (arith, n)) (λ q m. hx q (Memᴰ.tail m))
          (λ q m. hy q (Memᴰ.tail m)) left)
