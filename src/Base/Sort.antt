-- ===== src/Base/Sort.antt =====
-- The sort by a key under a strict order that an `ORDER BY` makes, and the rows behind a key.
use mathlib.Core.Path.{◌≡◌, refl, ap, sym, ◌∙◌}
use mathlib.Core.Logic.{inl, inr, ◌↔◌, ◌≢◌}
use mathlib.Core.Bool.{Bool, true, false}
use mathlib.Core.List.{List, [], ◌∷◌, ◌++◌, Memᴰ}
use native.Mathlib.Omega.{arith}
use pdt.Base.Lists.{if◌then◌else◌, filter, length, Bool-cases, Memᴰ-cons}

-- A strict order on keys in which two keys that neither precedes are one.
pub record IsStrictOrder {K : Type 0} (lt : K → K → Bool) : Type 0 where
  pub irrefl : (a : K) → lt a a ≡ false
  pub trans : (a b c : K) → lt a b ≡ true → lt b c ≡ true → lt a c ≡ true
  pub total : (a b : K) → lt a b ≡ false → lt b a ≡ false → a ≡ b

module _ {A K : Type 0} (key : A → K) where
  -- No two rows have one key.
  abbrev pub Fresh : K → List A → Type 0
  Fresh k [] = Unit
  Fresh k (x ∷ xs) = (key x ≢ k) × Fresh k xs

  abbrev pub IsKeyed : List A → Type 0
  IsKeyed [] = Unit
  IsKeyed (x ∷ xs) = Fresh (key x) xs × IsKeyed xs

module _ {A K : Type 0} (lt : K → K → Bool) (key : A → K) where
  -- Insertion keeps equal keys in their order.
  unfoldable pub insert : A → List A → List A
  insert x [] = x ∷ []
  insert x (y ∷ ys) = let rest = insert x ys in if lt (key y) (key x) then y ∷ rest else x ∷ y ∷ ys

  -- `ORDER BY key ASC`
  unfoldable pub sort : List A → List A
  unfolding insert
  sort [] = []
  sort (x ∷ xs) = insert x (sort xs)

  -- Every key in the list is above `k`.
  abbrev pub Above : K → List A → Type 0
  Above k [] = Unit
  Above k (x ∷ xs) = (lt k (key x) ≡ true) × Above k xs

  -- The keys rise strictly.
  abbrev pub IsSorted : List A → Type 0
  IsSorted [] = Unit
  IsSorted (x ∷ xs) = Above (key x) xs × IsSorted xs

  Memᴰ-insert : (a x : A) (xs : List A) → Memᴰ a (insert x xs) ↔ Memᴰ a (x ∷ xs)
  unfolding insert
  Memᴰ-insert a x [] = (λ m. m, λ m. m)
  Memᴰ-insert a x (y ∷ ys) = elim (Bool-cases (lt (key y) (key x))) [
    | inl after ↦ rw after (
        ground (
          arith,
          Memᴰ-insert a x ys,
          Memᴰ-cons a y (insert x ys),
          Memᴰ-cons a x (y ∷ ys),
          Memᴰ-cons a y ys,
          Memᴰ-cons a x ys,
        ))
    | inr before ↦ rw before (λ m. m, λ m. m)
  ]

  pub Memᴰ-sort : (a : A) (xs : List A) → Memᴰ a (sort xs) ↔ Memᴰ a xs
  unfolding sort
  Memᴰ-sort a [] = (λ m. m, λ m. m)
  Memᴰ-sort a (x ∷ xs) =
      ground (
        arith,
        Memᴰ-insert a x (sort xs),
        Memᴰ-sort a xs,
        Memᴰ-cons a x xs,
        Memᴰ-cons a x (sort xs),
      )

  length-filter-insert :
      (p : A → Bool) (x : A) (xs : List A)
      → length (filter p (insert x xs)) ≡ length (filter p (x ∷ xs))
  unfolding insert
  length-filter-insert p x [] = refl
  length-filter-insert p x (y ∷ ys) = ground (arith, length-filter-insert p x ys)

  pub length-filter-sort :
      (p : A → Bool) (xs : List A) → length (filter p (sort xs)) ≡ length (filter p xs)
  unfolding sort
  length-filter-sort p [] = refl
  length-filter-sort p (x ∷ xs) =
      ground (arith, length-filter-insert p x (sort xs), length-filter-sort p xs)

  pub length-sort : (xs : List A) → length (sort xs) ≡ length xs
  length-sort xs =
      sym (ap length (filter_all (sort xs)))
      ∙ length-filter-sort (λ x. true) xs
      ∙ ap length (filter_all xs)
    where
      filter_all : (ys : List A) → filter (λ y. true) ys ≡ ys
      filter_all [] = refl
      filter_all (y ∷ ys) = ap (λ zs. y ∷ zs) (filter_all ys)

pub reverse_order :
    {K : Type 0} {lt : K → K → Bool} → IsStrictOrder lt → IsStrictOrder (λ a b. lt b a)
reverse_order laws = record {
  irrefl = laws.irrefl;
  trans = λ a b c h k. laws.trans c b a k h;
  total = λ a b h k. laws.total a b k h;
}

module _ {A K : Type 0} {lt : K → K → Bool} (laws : IsStrictOrder lt) (key : A → K) where
  Above-trans : (j k : K) (xs : List A) → lt j k ≡ true → Above lt key k xs → Above lt key j xs
  Above-trans j k [] h a = tt
  Above-trans j k (x ∷ xs) h (a, rest) = (laws.trans j k (key x) h a, Above-trans j k xs h rest)

  Above-insert :
      (k : K) (x : A) (xs : List A)
      → lt k (key x) ≡ true
      → Above lt key k xs
      → Above lt key k (insert lt key x xs)
  unfolding insert
  Above-insert k x [] h a = (h, tt)
  Above-insert k x (y ∷ ys) h a = ground (arith, Above-insert k x ys h)

  x_first : (x y : A) → key y ≢ key x → lt (key y) (key x) ≡ false → lt (key x) (key y) ≡ true
  x_first x y ne h = elim (Bool-cases (lt (key x) (key y))) [
    | inl lt ↦ lt
    | inr ge ↦ absurd (ne (laws.total (key y) (key x) h ge))
  ]

  IsSorted-insert :
      (x : A) (xs : List A)
      → Fresh key (key x) xs
      → IsSorted lt key xs
      → IsSorted lt key (insert lt key x xs)
  unfolding insert
  IsSorted-insert x [] f s = (tt, tt)
  IsSorted-insert x (y ∷ ys) (ne, f) (a, s) = elim (Bool-cases (lt (key y) (key x))) [
    | inl after ↦ rw after (Above-insert (key y) x ys after a, IsSorted-insert x ys f s)
    | inr before ↦
        let lt = x_first x y ne before in
        rw before ((lt, Above-trans (key x) (key y) ys lt a), (a, s))
  ]

  Fresh-insert :
      (k : K) (x : A) (xs : List A) → key x ≢ k → Fresh key k xs → Fresh key k (insert lt key x xs)
  unfolding insert
  Fresh-insert k x [] ne f = (ne, tt)
  Fresh-insert k x (y ∷ ys) ne f = ground (arith, Fresh-insert k x ys ne)

  Fresh-sort : (k : K) (xs : List A) → Fresh key k xs → Fresh key k (sort lt key xs)
  unfolding sort
  Fresh-sort k [] f = tt
  Fresh-sort k (x ∷ xs) (ne, f) = Fresh-insert k x (sort lt key xs) ne (Fresh-sort k xs f)

  pub IsSorted-sort : (xs : List A) → IsKeyed key xs → IsSorted lt key (sort lt key xs)
  unfolding sort
  IsSorted-sort [] h = tt
  IsSorted-sort (x ∷ xs) (f, h) =
      IsSorted-insert x (sort lt key xs) (Fresh-sort (key x) xs f) (IsSorted-sort xs h)

  Above-filter :
      (p : A → Bool) (k : K) (xs : List A) → Above lt key k xs → Above lt key k (filter p xs)
  Above-filter p k [] a = tt
  Above-filter p k (x ∷ xs) (a, rest) = ground (arith, Above-filter p k xs rest)

  pub IsSorted-filter :
      (p : A → Bool) (xs : List A) → IsSorted lt key xs → IsSorted lt key (filter p xs)
  IsSorted-filter p [] s = tt
  IsSorted-filter p (x ∷ xs) (a, s) =
      ground (arith, Above-filter p (key x) xs a, IsSorted-filter p xs s)

  filter-Above-all : (k : K) (xs : List A) → Above lt key k xs → filter (λ x. lt k (key x)) xs ≡ xs
  filter-Above-all k [] a = refl
  filter-Above-all k (x ∷ xs) (a, rest) = rw a (ap (λ ys. x ∷ ys) (filter-Above-all k xs rest))

  Above-middle :
      (k : K) (xs : List A) (y : A) (ys : List A)
      → Above lt key k (xs ++ y ∷ ys)
      → lt k (key y) ≡ true
  Above-middle k [] y ys (a, rest) = a
  Above-middle k (x ∷ xs) y ys (a, rest) = Above-middle k xs y ys rest

  not-Above :
      (x y : A) (xs ys : List A) → Above lt key (key x) (xs ++ y ∷ ys) → lt (key y) (key x) ≡ false
  not-Above x y xs ys a = elim (Bool-cases (lt (key y) (key x))) [
    | inl lt ↦ cc (
      laws.trans (key x) (key y) (key x) (Above-middle (key x) xs y ys a) lt,
      laws.irrefl (key x),
    )
    | inr ge ↦ ge
  ]

  -- In a sorted list the rows above one of its keys are those behind that row.
  pub filter-above :
      (xs : List A) (y : A) (ys : List A)
      → IsSorted lt key (xs ++ y ∷ ys)
      → filter (λ x. lt (key y) (key x)) (xs ++ y ∷ ys) ≡ ys
  filter-above [] y ys (a, s) = rw (laws.irrefl (key y)) (filter-Above-all (key y) ys a)
  filter-above (x ∷ xs) y ys (a, s) = rw (not-Above x y xs ys a) (filter-above xs y ys s)
