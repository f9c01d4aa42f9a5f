-- ===== src/Assets/Prune/Candidates.antt =====
-- The walk for the candidates ends, and finds the old assets of the class up to the cap.
use mathlib.Core.List.{append-nil, append_assoc}
use pdt.Base.{
  ℕ, zero, suc, ◌<◌, ◌≤◌, String, ◌≡◌, refl, sym, ap, ◌∙◌, Bool, true, Option, none, some, List, [],
  ◌∷◌, ◌++◌, filter, length, length-append, take, drop, leb, arith, Bool-cases, inl, inr,
}
use pdt.Base.Sort.{IsKeyed}
use pdt.Base.Paging.{ends, goes_on, length-drop-lt}
use pdt.Model.Error.{ok}
use pdt.Model.Asset.{Asset}
use pdt.Model.World.{World, Exec, pure}
use pdt.Model.World.Outcome.{query_calm}
use pdt.Assets.Pages.{updated_at, desc, dated, Place, page_of}
use pdt.Assets.Pages.Covered.{selected, sent, fetch, At, Turned, fetch-Turned}
use pdt.Assets.Search.{is_hit, search}
use pdt.Assets.Prune.{is_older, scan_page, next_page, candidate_walk}

filter-append {ℓ} :
    {A : Type ℓ} (p : A → Bool) (xs ys : List A) → filter p (xs ++ ys) ≡ filter p xs ++ filter p ys
filter-append p [] ys = refl
filter-append p (x ∷ xs) ys = ground (arith, filter-append p xs ys)

take-exact {ℓ} : {A : Type ℓ} (n : ℕ) (xs ys : List A) → length xs ≡ n → take n (xs ++ ys) ≡ xs
take-exact zero [] ys h = refl
take-exact (suc n) [] ys h = absurd (omega arith)
take-exact zero (x ∷ xs) ys h = absurd (omega arith)
take-exact (suc n) (x ∷ xs) ys h = ap (λ zs. x ∷ zs) (take-exact n xs ys (omega arith))

take-whole {ℓ} : {A : Type ℓ} (n : ℕ) (xs : List A) → length xs ≤ n → take n xs ≡ xs
take-whole zero [] h = refl
take-whole zero (x ∷ xs) h = absurd (omega arith)
take-whole (suc n) [] h = refl
take-whole (suc n) (x ∷ xs) h = ap (λ zs. x ∷ zs) (take-whole n xs (omega arith))

module _ (cap cutoff : ℕ) where
  abbrev old : List Asset → List Asset
  old = filter (is_older cutoff)

  -- A page is scanned to the cap.
  scan_page-eq :
      (found page : List Asset)
      → length found < cap
      → scan_page cap cutoff found page
        ≡ (take cap (found ++ old page), leb cap (length (found ++ old page)))
  unfolding scan_page
  scan_page-eq found [] h =
      let whole = append-nil found in rw (whole, take-whole cap found (omega arith)) (ground arith)
  scan_page-eq found (a ∷ page) h = elim (Bool-cases (is_older cutoff a)) [
    | inr young ↦ rw young (scan_page-eq found page h)
    | inl aged ↦
        let one = length-append found (a ∷ []) in
        let shift = append_assoc found (a ∷ []) (old page) in
        elim (Bool-cases (leb cap (length (found ++ a ∷ [])))) [
          | inr room ↦
              rw (aged, room)
                (scan_page-eq (found ++ a ∷ []) page (ground arith)
                  ∙ ap (λ xs. (take cap xs, leb cap (length xs))) shift)
          | inl full ↦
              let exact : length (found ++ a ∷ []) ≡ cap = ground arith in
              let enough : leb cap (length (found ++ a ∷ old page)) ≡ true =
                let two = length-append found (a ∷ old page) in ground arith in
              rw (aged, full, enough)
                (ap (λ xs. (xs, true))
                  (sym (ap (take cap) (sym shift) ∙ take-exact cap _ (old page) exact)))
        ]
  ]

take-append-le {ℓ} :
    {A : Type ℓ} (n : ℕ) (xs ys : List A) → n ≤ length xs → take n (xs ++ ys) ≡ take n xs
take-append-le zero xs ys h = refl
take-append-le (suc n) [] ys h = absurd (omega arith)
take-append-le (suc n) (x ∷ xs) ys h = ap (λ zs. x ∷ zs) (take-append-le n xs ys (omega arith))

module _ (is_alphanumeric : ℕ → Bool) (fts_match : String → Asset → Bool) (cap limit : ℕ)
    (pos : 0 < limit) (category value : String) (cutoff : ℕ) (w : World) (calm : w.faults ≡ [])
    (keyed : IsKeyed (λ a. a.id) w.state.assets) where
  abbrev hit : Asset → Bool
  hit = is_hit is_alphanumeric fts_match none ((category, value) ∷ [])

  abbrev all : List Asset
  all = selected updated_at desc hit w.state.assets

  abbrev AtPlace : List Asset → List Asset → Option Place → Type 0
  AtPlace = At updated_at desc hit limit pos w.state.assets keyed

  abbrev Answers : Exec (List Asset) → Type 0
  Answers m = m w ≡ (ok (take cap (old cap cutoff all)), w)

  -- What a round does with its page.
  after_page : ℕ → List Asset → List Asset × Option Place → Exec (List Asset)
  after_page fuel found (page, next) =
      let (kept, full) = scan_page cap cutoff found page in
      next_page full kept next
        (λ c f. candidate_walk is_alphanumeric fts_match cap limit category value cutoff fuel c f)

  round_turn :
      (fuel : ℕ) (done rest found : List Asset) (r : List Asset × Option Place)
      → found ≡ old cap cutoff done
      → length found < cap
      → length rest < suc fuel
      → all ≡ done ++ rest
      → ((done' rest' found' : List Asset) (k : Place)
          → AtPlace done' rest' (some k)
          → found' ≡ old cap cutoff done'
          → length found' < cap
          → length rest' < fuel
          → Answers (
              candidate_walk is_alphanumeric fts_match cap limit category value cutoff fuel
                (some (dated k))
                found'))
      → Turned updated_at desc hit limit pos w.state.assets keyed done rest r
      → Answers (after_page fuel found r)
  unfolding after_page next_page pure
  round_turn fuel done rest found _ e room h parts next (ends page whole) =
      let found_all : found ++ old cap cutoff page ≡ old cap cutoff all =
        ap (λ xs. xs ++ old cap cutoff page) e
        ∙ sym (filter-append (is_older cutoff) done page)
        ∙ ap (λ xs. old cap cutoff (done ++ xs)) whole
        ∙ ap (old cap cutoff) (sym parts) in
      rw (scan_page-eq cap cutoff found page room, found_all)
        (elim (Bool-cases (leb cap (length (old cap cutoff all)))) [
          | inl full ↦ rw full refl
          | inr short ↦ rw short refl
        ])
  round_turn fuel done rest found _ e room h parts next (goes_on page k taken at full) =
      let found_page : found ++ old cap cutoff page ≡ old cap cutoff (done ++ page) =
        ap (λ xs. xs ++ old cap cutoff page) e ∙ sym (filter-append (is_older cutoff) done page) in
      let split : old cap cutoff all
          ≡ old cap cutoff (done ++ page) ++ old cap cutoff (drop limit rest) =
        ap (old cap cutoff) (at.parts) ∙ filter-append (is_older cutoff) (done ++ page) _ in
      rw (scan_page-eq cap cutoff found page room, found_page)
        (elim (Bool-cases (leb cap (length (old cap cutoff (done ++ page))))) [
          | inl capped ↦ rw capped (
              ap (λ xs. (ok xs, w))
                (sym (ap (take cap) split ∙ take-append-le cap _ _ (ground arith))))
          | inr short ↦
              let whole = take-whole cap (old cap cutoff (done ++ page)) (ground arith) in
              rw (short, whole)
                (next _ _ _ k at refl (ground arith) (length-drop-lt limit rest fuel pos full h))
        ])

  pub walk_lem :
      (fuel : ℕ) (done rest found : List Asset) (c : Option Place)
      → AtPlace done rest c
      → found ≡ old cap cutoff done
      → length found < cap
      → length rest < fuel
      → Answers (
          candidate_walk is_alphanumeric fts_match cap limit category value cutoff fuel
            (sent c)
            found)
  unfolding candidate_walk search after_page
  walk_lem zero done rest found c at e room h = absurd (omega arith)
  walk_lem (suc fuel) done rest found c at e room h =
      rw (query_calm (λ s. page_of updated_at desc hit limit (sent c) s.assets) w calm) (
        round_turn fuel done rest found
          (fetch updated_at desc hit limit pos w.state.assets keyed (sent c)) e room h at.parts
          (λ done' rest' found' k at' e' room' h'.
            walk_lem fuel done' rest' found' (some k) at' e' room' h')
          (fetch-Turned updated_at desc hit limit pos w.state.assets keyed done rest c at))
