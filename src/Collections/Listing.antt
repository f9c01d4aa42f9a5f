-- ===== src/Collections/Listing.antt =====
-- The pages of the list of collections: behind a full page one collection is passed over.
use pdt.Base.{
  ℕ, zero, suc, String, ◌≡◌, refl, sym, ap, subst, ◌∙◌, Bool, true, Option, none, some, List, [],
  ◌∷◌, ◌++◌, filter, length, take, get_last?, ltb, arith, Memᴰ, Memᴰ-filter, Bool-cases, inl, inr,
}
use mathlib.Core.List.Memᴰ
use pdt.Base.Order.{
  text_lt, text_lt_trans, sort, IsSorted, IsSorted-sort, IsSorted-filter, filter-above, IsKeyed,
}
use pdt.Model.Relation.{Collection}
use pdt.Collections.Repository.{is_after, rows_after, page}

abbrev pub by_id : List Collection → List Collection
by_id = sort (λ c. c.id)

take-suc :
    (n : ℕ) (xs : List Collection) (x : Collection) (ys : List Collection)
    → length xs ≡ n
    → take (suc n) (xs ++ x ∷ ys) ≡ xs ++ x ∷ []
take-suc zero [] x ys h = refl
take-suc (suc n) [] x ys h = absurd (omega arith)
take-suc zero (z ∷ xs) x ys h = absurd (omega arith)
take-suc (suc n) (z ∷ xs) x ys h = ap (λ zs. z ∷ zs) (take-suc n xs x ys (omega arith))

-- The page of one row more than the limit, and its last row.
cut_page :
    (n : ℕ) (xs : List Collection) (x : Collection)
    → length xs ≡ n
    → (take n (xs ++ x ∷ []) ≡ xs)
      × (get_last? (xs ++ x ∷ []) ≡ some x)
      × (ltb n (length (xs ++ x ∷ [])) ≡ true)
cut_page zero [] x h = (refl, refl, refl)
cut_page (suc n) [] x h = absurd (omega arith)
cut_page zero (z ∷ xs) x h = absurd (omega arith)
cut_page (suc n) (z ∷ xs) x h =
    let (first, last, more) = cut_page n xs x (omega arith) in
    (ap (λ zs. z ∷ zs) first, last_of z xs x ∙ last, ground arith)
  where
    last_of :
        (z : Collection) (xs : List Collection) (x : Collection)
        → get_last? (z ∷ (xs ++ x ∷ [])) ≡ get_last? (xs ++ x ∷ [])
    last_of z [] x = refl
    last_of z (y ∷ xs) x = refl

filter-filter :
    (p q : Collection → Bool) (xs : List Collection)
    → ((c : Collection) → q c ≡ true → p c ≡ true)
    → filter q xs ≡ filter q (filter p xs)
filter-filter p q [] h = refl
filter-filter p q (x ∷ xs) h = elim (Bool-cases (p x)) [
  | inl is ↦ rw is (ground (arith, filter-filter p q xs h))
  | inr isnt ↦ elim (Bool-cases (q x)) [
    | inl hit ↦ cc (h x hit)
    | inr miss ↦ rw (isnt, miss) (filter-filter p q xs h)
  ]
]

module _ (rows : List Collection) (keyed : IsKeyed (λ c. c.id) rows) where
  sorted : IsSorted (λ c. c.id) (by_id rows)
  sorted = IsSorted-sort _ rows keyed

  -- What stands behind a row, once a cursor before it has been passed.
  behind :
      (cursor : Option String) (first : List Collection) (passed : Collection)
      (left : List Collection)
      → filter (is_after cursor) (by_id rows) ≡ first ++ passed ∷ left
      → is_after cursor passed ≡ true
      → filter (is_after (some passed.id)) (by_id rows) ≡ left
  unfolding is_after
  behind cursor first passed left e at =
      filter-filter (is_after cursor) (is_after (some passed.id)) (by_id rows) (later cursor at)
      ∙ ap (filter (is_after (some passed.id))) e
      ∙ filter-above (λ c. c.id) first passed left
          (subst (IsSorted (λ c. c.id)) e (IsSorted-filter _ _ _ sorted))
    where
      later :
          (k : Option String)
          → is_after k passed ≡ true
          → (c : Collection) → text_lt passed.id c.id ≡ true
          → is_after k c ≡ true
      later none h c lt = refl
      later (some k) h c lt = text_lt_trans k passed.id c.id h lt

-- Behind a full page of the list the next page passes one collection over: the page holds the
-- rows up to the limit, its cursor is the id of the row that follows them, and the rows behind
-- that cursor are those after that row, so that it is on no page. The ids are distinct.
pub page_skips :
    (rows : List Collection) (limit : ℕ) (cursor : Option String) (first left : List Collection)
    (passed : Collection)
    → IsKeyed (λ c. c.id) rows
    → length first ≡ limit
    → filter (is_after cursor) (by_id rows) ≡ first ++ passed ∷ left
    → (page limit (rows_after limit cursor rows) ≡ (first, some passed.id))
      × (rows_after limit (some passed.id) rows ≡ take (suc limit) left)
unfolding page rows_after
page_skips rows limit cursor first left passed keyed full e =
    let (cut, last, more) = cut_page limit first passed full in
    let member =
      (Memᴰ-filter (is_after cursor) (by_id rows) passed).0
        (subst (Memᴰ passed) (sym e) (Memᴰ.append_right first (Memᴰ.head refl))) in
    (
      rw (e, take-suc limit first passed left full, more, cut, last) refl,
      ap (take (suc limit)) (behind rows keyed cursor first passed left e member.1),
    )
