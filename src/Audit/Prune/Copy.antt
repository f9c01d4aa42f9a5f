-- ===== src/Audit/Prune/Copy.antt =====
-- The cursor walk of the archive copies every candidate once, in the order of the ids.
use mathlib.Core.List.{append-nil, append_assoc}
use pdt.Base.{
  ℕ, zero, suc, ◌+◌, ◌<◌, String, ◌≡◌, refl, sym, ap, subst, ◌∙◌, Bool, true, false, Option, none,
  some, List, [], ◌∷◌, ◌++◌, length, length-append, eqb, arith, take, drop, get_last?, filter, inl,
  inr, Bool-cases, eq_refl,
}
use pdt.Base.Paging.{take-append-drop, get_last?-eq_some}
use pdt.Base.Order.{sort, text_lt, IsSorted, IsSorted-sort, IsSorted-filter, filter-above, IsKeyed}
use pdt.Model.Audit.{AuditEntry, ArchivePath}
use pdt.Model.World.{State, Exec, same_path, pure, file_op, ◌>>◌}
use pdt.Model.World.Hoare.{
  Runs, Runs-bind, Runs-pure, Runs-file_op, Runs-query, Runs-eq, Runs-conseq,
}
use pdt.Audit.Repository.{is_old, is_after, page_before, next_cursor, list_before}
use pdt.Audit.Repository.Frame.{HasFresh}
use pdt.Audit.Prune.{write_row, write_rows, copy_pages}

-- The candidates in the order of their ids.
abbrev pub candidates : ℕ → List AuditEntry → List AuditEntry
candidates cutoff rows = filter (is_old cutoff) (sort (λ e. e.id) rows)

-- A page that is not full holds all that is left.
take-short {ℓ} :
    {A : Type ℓ} (n : ℕ) (xs : List A) → eqb (length (take n xs)) n ≡ false → take n xs ≡ xs
take-short zero xs h = cc
take-short (suc n) [] h = refl
take-short (suc n) (x ∷ xs) h = ap (λ ys. x ∷ ys) (take-short n xs (ground arith))

length-drop-lt {ℓ} :
    {A : Type ℓ} (n : ℕ) (xs : List A) (m : ℕ)
    → 0 < n
    → eqb (length (take n xs)) n ≡ true
    → length xs < suc m
    → length (drop n xs) < m
length-drop-lt n xs m pos full h =
    let whole = length-append (take n xs) (drop n xs) in
    let same = ap length (take-append-drop n xs) in
    let filled : length (take n xs) ≡ n = ground arith in omega arith

module _ (cutoff limit : ℕ) (pos : 0 < limit) (rows : List AuditEntry)
    (keyed : IsKeyed (λ e. e.id) rows) where
  abbrev all : List AuditEntry
  all = candidates cutoff rows

  sorted : IsSorted (λ e. e.id) all
  sorted = IsSorted-filter _ _ _ (IsSorted-sort _ rows keyed)

  -- `done` is copied, and the cursor selects `rest`.
  pub record IsAt (done rest : List AuditEntry) (cursor : Option String) : Type 0 where
    parts : all ≡ done ++ rest
    selects : filter (is_after cursor) all ≡ rest

  filter_all : (xs : List AuditEntry) → filter (is_after none) xs ≡ xs
  unfolding is_after
  filter_all [] = refl
  filter_all (x ∷ xs) = ap (λ ys. x ∷ ys) (filter_all xs)

  pub IsAt-start : IsAt [] all none
  IsAt-start = record { parts = refl; selects = filter_all all }

  -- Behind the last row of a full page the cursor selects what is left.
  IsAt-next :
      (done init : List AuditEntry) (last : AuditEntry) (left : List AuditEntry)
      → all ≡ done ++ ((init ++ last ∷ []) ++ left)
      → IsAt (done ++ (init ++ last ∷ [])) left (some last.id)
  unfolding is_after
  IsAt-next done init last left e =
      let front : all ≡ (done ++ init) ++ last ∷ left = e ∙ simp (append_assoc) in
      record {
        parts = e ∙ sym (append_assoc done (init ++ last ∷ []) left);
        selects =
            subst (λ xs. filter (λ x. text_lt last.id x.id) xs ≡ left) (sym front)
              (filter-above (λ x. x.id) (done ++ init) last left
                (subst (IsSorted (λ x. x.id)) front sorted));
      }

  next_cursor-last :
      (page : List AuditEntry) (last : AuditEntry)
      → eqb (length page) limit ≡ true
      → get_last? page ≡ some last
      → next_cursor limit page ≡ some last.id
  unfolding next_cursor
  next_cursor-last page last full h = rw (full, h)

  next_cursor-none :
      (page : List AuditEntry) → eqb (length page) limit ≡ false → next_cursor limit page ≡ none
  unfolding next_cursor
  next_cursor-none page short = rw short

  -- What the walk does with the page that it reads: it ends, or goes on behind it.
  data Turn (done rest : List AuditEntry) : Type 0 where
    ends : next_cursor limit (take limit rest) ≡ none → take limit rest ≡ rest → Turn done rest
    goes_on :
        (c : String)
        → next_cursor limit (take limit rest) ≡ some c
        → IsAt (done ++ take limit rest) (drop limit rest) (some c)
        → eqb (length (take limit rest)) limit ≡ true
        → Turn done rest

  empty_page : (page : List AuditEntry) → page ≡ [] → eqb (length page) limit ≡ true → ⊥
  empty_page page e full =
      let none_left : length page ≡ 0 = ap length e in
      let filled : length page ≡ limit = ground arith in omega arith

  full_page :
      (done rest : List AuditEntry) (cursor : Option String)
      → IsAt done rest cursor
      → eqb (length (take limit rest)) limit ≡ true
      → (page : List AuditEntry) → take limit rest ≡ page
      → Turn done rest
  full_page done rest cursor at full [] e = absurd (empty_page (take limit rest) e full)
  full_page done rest cursor at full (x ∷ xs) e =
      let (init, last, e', h) = get_last?-eq_some x xs in
      let page : take limit rest ≡ init ++ last ∷ [] = e ∙ e' in
      goes_on last.id (next_cursor-last _ last full (ap get_last? e ∙ h))
        (subst (λ p. IsAt (done ++ p) (drop limit rest) (some last.id)) (sym page)
          (IsAt-next done init last (drop limit rest) (
            at.parts
            ∙ ap (λ ys. done ++ ys) (take-append-drop limit rest)
            ∙ ap (λ p. done ++ (p ++ drop limit rest)) page)))
        full

  turn :
      (done rest : List AuditEntry) (cursor : Option String)
      → IsAt done rest cursor
      → Turn done rest
  turn done rest cursor at = elim (Bool-cases (eqb (length (take limit rest)) limit)) [
    | inl full ↦ full_page done rest cursor at full (take limit rest) refl
    | inr short ↦ ends (next_cursor-none _ short) (take-short limit rest short)
  ]

  module _ (calm : Bool) (path : ArchivePath) where
    -- The trail is untouched, the file holds `done`, and the next uuid is not in the trail.
    abbrev pub Holds : List AuditEntry → State → Type 0
    Holds done s = (s.audit_entries ≡ rows) × (s.archives path ≡ some done) × HasFresh calm rows s

    abbrev pub Untouched : State → Type 0
    Untouched s = (calm ≡ false) × (s.audit_entries ≡ rows)

    pub same_path_refl : same_path path path ≡ true
    unfolding same_path
    same_path_refl = ground (arith, eq_refl path.dir)

    write_row-Runs :
        (done : List AuditEntry) (e : AuditEntry)
        → Runs calm
            (Holds done)
            (file_op (write_row path e))
            (λ _. Holds (done ++ e ∷ []))
            Untouched
    unfolding write_row
    write_row-Runs done e =
        Runs-file_op _ (λ loose s h. (loose, h.0)) λ s h. (h.0, rw (same_path_refl, h.1) refl, h.2)

    write_rows-Runs :
        (done page : List AuditEntry)
        → Runs calm (Holds done) (write_rows path page) (λ _. Holds (done ++ page)) Untouched
    unfolding write_rows
    write_rows-Runs done [] =
        Runs-pure tt (λ s h. (h.0, h.1 ∙ ap some (sym (append-nil done)), h.2))
    write_rows-Runs done (e ∷ page) =
        Runs-bind (λ _. Holds (done ++ e ∷ [])) (write_row-Runs done e)
          λ _.
            subst
              (λ xs.
                Runs calm (Holds (done ++ e ∷ [])) (write_rows path page) (λ _. Holds xs) Untouched)
              (append_assoc done (e ∷ []) page) (write_rows-Runs (done ++ e ∷ []) page)

    list_before-Runs :
        (done rest : List AuditEntry) (cursor : Option String)
        → IsAt done rest cursor
        → Runs calm
            (Holds done)
            (list_before cutoff limit cursor)
            (λ r s. Holds done s × (r ≡ (take limit rest, next_cursor limit (take limit rest))))
            Untouched
    unfolding list_before page_before
    list_before-Runs done rest cursor at =
        Runs-bind (λ page s. Holds done s × (page ≡ take limit rest))
          (Runs-query _ (λ loose s h. (loose, h.0))
            (λ s h. (
              h,
              ap (λ xs. take limit (filter (is_after cursor) (candidates cutoff xs))) h.0
                  ∙ ap (take limit) at.selects,
            )))
          λ page. Runs-pure _ (λ s (h, e). (h, ap (λ p. (p, next_cursor limit p)) e))

    abbrev pub Copied : ℕ → ℕ → State → Type 0
    Copied count n s = Holds all s × (n ≡ count)

    pub copy_pages-Runs :
        (fuel : ℕ) (done rest : List AuditEntry) (cursor : Option String) (n : ℕ)
        → IsAt done rest cursor
        → length rest < fuel
        → Runs calm
            (Holds done)
            (copy_pages limit path cutoff fuel cursor n)
            (λ k. Copied (n + length rest) k)
            Untouched
    unfolding copy_pages
    copy_pages-Runs zero done rest cursor n at h = absurd (omega arith)
    copy_pages-Runs (suc fuel) done rest cursor n at h =
        let body : List AuditEntry × Option String → Exec ℕ = λ (page, next).
          write_rows path page >> (elim next [
            | none ↦ pure (n + length page)
            | some c ↦ copy_pages limit path cutoff fuel (some c) (n + length page)
          ]) in
        Runs-bind _ (list_before-Runs done rest cursor at) λ r.
          Runs-eq body r (take limit rest, next_cursor limit (take limit rest))
            (elim (turn done rest cursor at) [
              | ends no_next whole ↦ rw no_next (
                  Runs-bind (λ _. Holds (done ++ take limit rest)) (write_rows-Runs done _)
                    λ _. Runs-pure _ λ s h. (
                      subst (λ xs. Holds xs s) (ap (λ xs. done ++ xs) whole ∙ sym at.parts) h,
                      ap (λ xs. n + length xs) whole,
                    ))
              | goes_on c next at' full ↦ rw next (
                  Runs-bind (λ _. Holds (done ++ take limit rest)) (write_rows-Runs done _)
                    λ _.
                      Runs-conseq
                        (λ k. Copied ((n + length (take limit rest)) + length (drop limit rest)) k)
                        (λ k s (h', e). (
                          h',
                          omega (
                            arith,
                            ap length (take-append-drop limit rest),
                            length-append (take limit rest) (drop limit rest),
                          ),
                        ))
                        (copy_pages-Runs fuel (done ++ take limit rest) (drop limit rest) (some c)
                          (n + length (take limit rest)) at'
                          (length-drop-lt limit rest fuel pos full h)))
            ])
