-- ===== src/Base/Paging.antt =====
-- Pages behind a key: a query for one row more than a page answers the page and, where rows are
-- left, the key of its last row.
use mathlib.Core.List.{append_assoc}
use Prim.Native.Nat.{ℕ, zero, suc, ◌-◌, ◌<◌}
use mathlib.Core.Path.{◌≡◌, refl, ap, subst, sym, ◌∙◌}
use mathlib.Core.Logic.{inl, inr}
use mathlib.Core.Bool.{Bool, true, false}
use mathlib.Core.Option.{Option, none, some}
use mathlib.Core.Option
use mathlib.Core.List.{List, [], ◌∷◌, ◌++◌}
use native.Mathlib.Omega.{arith}
use pdt.Base.Lists.{if◌then◌else◌, filter, length, take, drop, get_last?, ltb, Bool-cases}
use pdt.Base.Sort.{IsStrictOrder, IsSorted, filter-above}

module _ {ℓ} {A : Type ℓ} where
  pub take-append-drop : (n : ℕ) (xs : List A) → xs ≡ take n xs ++ drop n xs
  take-append-drop zero xs = refl
  take-append-drop (suc n) [] = refl
  take-append-drop (suc n) (x ∷ xs) = ap (λ ys. x ∷ ys) (take-append-drop n xs)

  pub get_last?-eq_some :
      (x : A) (xs : List A)
      → (init : List A) × (last : A) × (x ∷ xs ≡ init ++ last ∷ [])
        × (get_last? (x ∷ xs) ≡ some last)
  get_last?-eq_some x [] = ([], x, refl, refl)
  get_last?-eq_some x (y ∷ xs) =
      let (init, last, e, h) = get_last?-eq_some y xs in (x ∷ init, last, ap (λ ys. x ∷ ys) e, h)

  take-take : (n : ℕ) (xs : List A) → take n (take (suc n) xs) ≡ take n xs
  take-take zero xs = refl
  take-take (suc n) [] = refl
  take-take (suc n) (x ∷ xs) = ap (λ ys. x ∷ ys) (take-take n xs)

  -- A query that answers no more than the limit holds all that is left.
  take-short :
      (n : ℕ) (xs : List A) → ltb n (length (take (suc n) xs)) ≡ false → take (suc n) xs ≡ xs
  take-short n [] h = refl
  take-short zero (x ∷ xs) h = cc
  take-short (suc n) (x ∷ xs) h = ap (λ ys. x ∷ ys) (take-short n xs (ground arith))

  -- A query that answers more leaves more than a page.
  lt-length : (n : ℕ) (xs : List A) → ltb n (length (take (suc n) xs)) ≡ true → n < length xs
  lt-length n [] h = absurd (ground arith)
  lt-length zero (x ∷ xs) h = omega arith
  lt-length (suc n) (x ∷ xs) h = omega (arith, lt-length n xs (ground arith))

  pub length-drop : (n : ℕ) (xs : List A) → length (drop n xs) ≡ length xs - n
  length-drop zero xs = omega arith
  length-drop (suc n) [] = omega arith
  length-drop (suc n) (x ∷ xs) = omega (arith, length-drop n xs)

  pub length-drop-lt :
      (n : ℕ) (xs : List A) (m : ℕ)
      → 0 < n
      → ltb n (length (take (suc n) xs)) ≡ true
      → length xs < suc m
      → length (drop n xs) < m
  length-drop-lt n xs m pos full h = omega (arith, length-drop n xs, lt-length n xs full)

module _ {A K : Type 0} (key : A → K) where
  -- The page of the rows, which are at most one more than the limit, and its cursor.
  unfoldable pub cut : ℕ → List A → List A × Option K
  cut limit rows =
      if ltb limit (length rows)
      then (take limit rows, Option.map key (get_last? (take limit rows)))
      else (rows, none)

module _ {A K : Type 0} {lt : K → K → Bool} (laws : IsStrictOrder lt) (key : A → K) (limit : ℕ)
    (pos : 0 < limit) (all : List A) (sorted : IsSorted lt key all) where
  -- The rows behind a cursor.
  abbrev pub behind : Option K → List A
  behind none = all
  behind (some k) = filter (λ x. lt k (key x)) all

  -- `done` is answered, and `rest` stands behind the cursor.
  pub record IsAt (done rest : List A) (cursor : Option K) : Type 0 where
    pub parts : all ≡ done ++ rest
    pub selects : behind cursor ≡ rest

  pub IsAt-start : IsAt [] all none
  IsAt-start = record { parts = refl; selects = refl }

  IsAt-next :
      (done init : List A) (last : A) (left : List A)
      → all ≡ done ++ ((init ++ last ∷ []) ++ left)
      → IsAt (done ++ (init ++ last ∷ [])) left (some (key last))
  IsAt-next done init last left e =
      let front : all ≡ (done ++ init) ++ last ∷ left = e ∙ simp (append_assoc) in
      record {
        parts = e ∙ sym (append_assoc done (init ++ last ∷ []) left);
        selects =
            subst (λ xs. filter (λ x. lt (key last) (key x)) xs ≡ left) (sym front)
              (filter-above laws key (done ++ init) last left
                (subst (IsSorted lt key) front sorted));
      }

  -- What one query does: it ends the walk, or brings it one page on.
  pub data Turn (done rest : List A) : List A × Option K → Type 0 where
    ends : (page : List A) → page ≡ rest → Turn done rest (page, none)
    goes_on :
        (page : List A) (c : K)
        → page ≡ take limit rest
        → IsAt (done ++ page) (drop limit rest) (some c)
        → ltb limit (length (take (suc limit) rest)) ≡ true
        → Turn done rest (page, some c)

  full_page :
      (done rest : List A)
      → all ≡ done ++ rest
      → ltb limit (length (take (suc limit) rest)) ≡ true
      → (page : List A) → take limit rest ≡ page
      → Turn done rest (page, Option.map key (get_last? page))
  full_page done rest parts full [] e = absurd (no_page limit rest e pos full)
    where
      no_page :
          (n : ℕ) (xs : List A)
          → take n xs ≡ []
          → 0 < n
          → ltb n (length (take (suc n) xs)) ≡ true
          → ⊥
      no_page zero xs h p f = omega arith
      no_page (suc n) [] h p f = ground arith
      no_page (suc n) (x ∷ xs) h p f = ground arith
  full_page done rest parts full (x ∷ xs) e =
      let (init, last, e', h) = get_last?-eq_some x xs in
      rw h (
        goes_on (x ∷ xs) (key last) (sym e)
          (subst (λ p. IsAt (done ++ p) (drop limit rest) (some (key last))) (sym e')
            (IsAt-next done init last (drop limit rest) (
              parts
              ∙ ap (λ ys. done ++ ys) (take-append-drop limit rest)
              ∙ ap (λ p. done ++ (p ++ drop limit rest)) (e ∙ e'))))
          full)

  pub turn :
      (done rest : List A) (cursor : Option K)
      → IsAt done rest cursor
      → Turn done rest (cut key limit (take (suc limit) (behind cursor)))
  unfolding cut
  turn done rest cursor at =
      rw at.selects (elim (Bool-cases (ltb limit (length (take (suc limit) rest)))) [
        | inl full ↦ rw (full, take-take limit rest) (full_page done rest at.parts full _ refl)
        | inr short ↦ rw short (ends _ (take-short limit rest short))
      ])
