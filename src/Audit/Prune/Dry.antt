-- ===== src/Audit/Prune/Dry.antt =====
-- A dry run of `audit_prune`: it reads, and writes nothing.
use pdt.Base.{
  ℕ, ◌*◌, ◌≤◌, String, ◌≡◌, refl, sym, ap, ◌∙◌, Bool, true, false, Option, none, List, [], ◌∷◌,
  filter, length, take, ltb, arith, inl, inr, Bool-cases,
}
use pdt.Base.Order.{length-filter-sort}
use pdt.Model.Error.{ok}
use pdt.Model.Audit.{AuditEntry}
use pdt.Model.World.{Store, State, World, ◌>>=◌}
use pdt.Model.World.Hoare.{
  Runs, Runs-bind, Runs-pure, Runs-query, Runs-reading, reading, Runs-eq, Runs-crash, Runs-conseq,
  Runs-fails, Runs-given,
}
use pdt.Model.World.Outcome.{Runs-any, Runs-returns}
use pdt.Audit.Repository.{is_old, is_after, page_before, next_cursor, count_before, list_before}
use pdt.Audit.Prune.{Report, dry_run, days_before, day_ns, after_count, audit_prune}
use pdt.Audit.Prune.Copy.{candidates}
use pdt.Audit.Prune.Correct.{IsCutoff}

filter-after_none : (xs : List AuditEntry) → filter (is_after none) xs ≡ xs
unfolding is_after
filter-after_none [] = refl
filter-after_none (x ∷ xs) = ap (λ ys. x ∷ ys) (filter-after_none xs)

module _ (calm : Bool) (days : ℕ) (clock : ℕ) (store : Store) where
  abbrev all : ℕ → List AuditEntry
  all cutoff = candidates cutoff store.audit_entries

  abbrev pub Same : State → Type 0
  Same s = s.store ≡ store

  abbrev pub Failed : State → Type 0
  Failed s = (calm ≡ false) × Same s

  -- The numbers, and the first ten candidates by their ids.
  abbrev pub Listed : Report → State → Type 0
  Listed report s =
      Same s
      × ((cutoff : ℕ) × IsCutoff clock days cutoff
          × (report ≡ dry_run (length (all cutoff)) cutoff (take 10 (all cutoff))))

  sample-Runs :
      (cutoff : ℕ)
      → Runs calm Same
          (list_before cutoff 10 none)
          (λ r s. Same s × (r ≡ (take 10 (all cutoff), next_cursor 10 (take 10 (all cutoff)))))
          Failed
  unfolding list_before page_before
  sample-Runs cutoff =
      Runs-bind (λ page s. Same s × (page ≡ take 10 (all cutoff)))
        (Runs-query _ (λ loose s p. (loose, p))
          (λ s p. (
            p,
            ap (take 10) (filter-after_none _)
                ∙ ap (λ (t : Store). take 10 (candidates cutoff t.audit_entries)) p,
          )))
        λ page. Runs-pure _ λ s (p, e). (p, ap (λ q. (q, next_cursor 10 q)) e)

  after_count-Runs :
      (cutoff : ℕ) (user : String) (dir : Option String)
      → IsCutoff clock days cutoff
      → Runs calm Same
          (count_before cutoff >>= (λ n. after_count true cutoff n days user dir))
          Listed
          Failed
  unfolding count_before after_count
  after_count-Runs cutoff user dir c =
      Runs-bind (λ n s. Same s × (n ≡ length (all cutoff)))
        (Runs-query _ (λ loose s p. (loose, p))
          (λ s p. (
            p,
            sym (length-filter-sort (λ e. e.id) (is_old cutoff) s.audit_entries)
                ∙ ap (λ (t : Store). length (candidates cutoff t.audit_entries)) p,
          )))
        λ n.
          Runs-eq (λ n. after_count true cutoff n days user dir) n (length (all cutoff))
            (Runs-bind _ (sample-Runs cutoff) λ (page, next). Runs-pure _ λ s (p, e). (
              p,
              (
                cutoff,
                c,
                ap
                    (λ (r : List AuditEntry × Option String).
                      dry_run (length (all cutoff)) cutoff r.0)
                    e,
              ),
            ))

  -- Before the reading of the clock, and after it.
  abbrev pub Timed : ℕ → State → Type 0
  Timed at s = Same s × (clock ≡ at)

  too_early :
      (at : ℕ)
      → (calm ≡ true → days * day_ns ≤ clock)
      → ltb at (days * day_ns) ≡ true
      → clock ≡ at
      → calm ≡ false
  too_early at k early h = elim (Bool-cases calm) [
    | inl held ↦ let enough = k held in absurd (ground arith)
    | inr loose ↦ loose
  ]

  pub days_before-Runs :
      (at : ℕ)
      → (calm ≡ true → days * day_ns ≤ clock)
      → Runs calm
          (Timed at)
          (days_before days at)
          (λ cutoff s. Same s × IsCutoff clock days cutoff)
          Failed
  unfolding days_before
  days_before-Runs at k = elim (Bool-cases (ltb at (days * day_ns))) [
    | inl early ↦ rw early (Runs-crash (λ s p. (too_early at k early p.1, p.0)))
    | inr late ↦ rw late (Runs-pure _ (λ s p. (p.0, ground (arith, late, p.1))))
  ]

  audit_prune-Runs :
      (user : String) (dir : Option String)
      → (calm ≡ true → days * day_ns ≤ clock)
      → Runs calm (λ s. Same s × (clock ≡ reading s)) (audit_prune days true user dir) Listed Failed
  unfolding audit_prune
  audit_prune-Runs user dir k = Runs-bind Timed (Runs-reading (λ s p ticks. (p.0, p.1))) λ at.
      Runs-bind (λ cutoff s. Same s × IsCutoff clock days cutoff) (days_before-Runs at k)
        λ cutoff. Runs-given λ c. after_count-Runs cutoff user dir c

-- A dry run leaves the store as it is, whatever it answers and whichever of its queries fail.
pub audit_prune-dry :
    (days : ℕ) (user : String) (dir : Option String) (w : World)
    → (audit_prune days true user dir w).1.state.store ≡ w.state.store
audit_prune-dry days user dir w =
    let clock = reading w.state in
    let store = w.state.store in
    Runs-any (λ s. s.store ≡ store)
      (Runs-conseq (Listed false days clock store) (λ report s p. p.0)
        (Runs-fails (Failed false days clock store) (λ s p. p.1)
          (audit_prune-Runs false days clock store user dir (λ h. absurd (cc h)))))
      w (refl, refl)

-- A dry run that meets no failure, at a clock that stands past the window, answers the number of
-- the candidates and the first ten of them by id.
pub audit_prune-dry_run :
    (days : ℕ) (user : String) (dir : Option String) (w : World)
    → w.faults ≡ []
    → days * day_ns ≤ reading w.state
    → (cutoff : ℕ) × IsCutoff (reading w.state) days cutoff
      × ((audit_prune days true user dir w).0
          ≡ ok (
              dry_run
                (length (candidates cutoff w.state.audit_entries))
                cutoff
                (take 10 (candidates cutoff w.state.audit_entries))))
audit_prune-dry_run days user dir w calm k =
    let clock = reading w.state in
    let store = w.state.store in
    let (report, answer, (same, (cutoff, c, e))) =
      Runs-returns (Listed true days clock store)
        (Runs-fails (Failed true days clock store) (λ s p. cc p.0)
          (audit_prune-Runs true days clock store user dir (λ h. k)))
        w calm (refl, refl) in
    (cutoff, c, answer ∙ ap ok e)
