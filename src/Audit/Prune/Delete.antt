-- ===== src/Audit/Prune/Delete.antt =====
-- The delete phase: the candidates are gone from the trail, and the archive holds them.
use mathlib.Core.List.Memᴰ
use mathlib.Core.List.{append-nil}
use pdt.Base.{
  ◌&&◌, ℕ, String, ◌≡◌, refl, sym, ap, subst, ◌∙◌, ◌⊎◌, inl, inr, Bool, true, false, not, none,
  some, List, [], ◌∷◌, ◌++◌, Memᴰ, Memᴰ-filter, length, filter, any, eqb, arith, Bool-cases,
}
use pdt.Base.Order.{sort, IsKeyed, Memᴰ-sort}
use pdt.Model.Audit.{AuditEntry, AuditAction, Changes, ArchivePath}
use pdt.Model.World.{Store, State, Exec, pure, ◌>>=◌, ◌>>◌}
use pdt.Model.World.Hoare.{
  Runs, Runs-bind, Runs-pure, Runs-query, Runs-execute, Runs-eq, Runs-fails,
}
use pdt.Audit.Repository
use pdt.Audit.Repository.{is_old, count_before, delete_before}
use pdt.Audit.Repository.Frame.{HasFresh, create-adds}
use pdt.Audit.Prune.{Report, executed, delete_phase}
use pdt.Audit.Prune.Copy.{candidates}
use pdt.Audit.Prune.Archive
use pdt.Audit.Prune.Archive.{page_positive}

-- Every row of the old trail is in the trail or in an archive.
abbrev pub Kept : List AuditEntry → State → Type 0
Kept rows s =
    (e : AuditEntry)
    → Memᴰ e rows
    → Memᴰ e s.audit_entries
      ⊎ ((path : ArchivePath) × (archived : List AuditEntry) × (s.archives path ≡ some archived)
          × Memᴰ e archived)

any-filter :
    (p q : AuditEntry → Bool) (xs : List AuditEntry)
    → any p xs ≡ false
    → any p (filter q xs) ≡ false
any-filter p q [] h = refl
any-filter p q (x ∷ xs) h = ground (arith, any-filter p q xs)

eqb_refl : (n : ℕ) → eqb n n ≡ true
eqb_refl n = ground arith

filter-not :
    (p : AuditEntry → Bool) (xs : List AuditEntry) → filter p (filter (λ x. not (p x)) xs) ≡ []
filter-not p [] = refl
filter-not p (x ∷ xs) = ground (arith, filter-not p xs)

module _ (calm : Bool) (cutoff : ℕ) (rows : List AuditEntry)
    (keyed : IsKeyed (λ e. e.id) rows) where
  abbrev all : List AuditEntry
  all = candidates cutoff rows

  abbrev rest : List AuditEntry
  rest = Archive.rest calm cutoff rows keyed

  abbrev Has : ArchivePath → List AuditEntry → State → Type 0
  Has = Archive.Has calm cutoff rows keyed

  module _ (path : ArchivePath) (days : ℕ) (user : String) where
    -- After the statement that deletes.
    abbrev Deleted : State → Type 0
    Deleted s = (s.audit_entries ≡ rest) × HasFresh calm rest s × (s.archives path ≡ some all)

    abbrev pub Lost : State → Type 0
    Lost s = (calm ≡ false) × Kept rows s

    pub Kept-Archived :
        (s : State)
        → (kept : List AuditEntry) → s.audit_entries ≡ rest ++ kept
        → s.archives path ≡ some all
        → Kept rows s
    Kept-Archived s kept trail file e m = elim (Bool-cases (is_old cutoff e)) [
      | inl old ↦ inr (
        path,
        all,
        file,
        (Memᴰ-filter (is_old cutoff) (sort (λ q. q.id) rows) e).1
            ((Memᴰ-sort (λ q. q.id) e rows).1 m, old),
      )
      | inr new ↦ inl (
          subst (Memᴰ e) (sym trail) (
            Memᴰ.append_left kept
              ((Memᴰ-filter (λ q. not (is_old cutoff q)) rows e).1 (m, ground arith))))
    ]

    delete_rows-eq :
        (s t : Store) (n : ℕ)
        → Repository.delete_rows cutoff s ≡ some (n, t)
        → (n ≡ length (filter (is_old cutoff) s.audit_entries))
          × (t ≡ record s { audit_entries = filter (λ e. not (is_old cutoff e)) s.audit_entries })
    unfolding Repository.delete_rows
    delete_rows-eq s t n h = (ground arith, ground arith)

    delete_rows-some : (s : Store) → ¬ (Repository.delete_rows cutoff s ≡ none)
    unfolding Repository.delete_rows
    delete_rows-some s e = cc

    delete_before-Runs :
        Runs calm (Has path all) (delete_before cutoff) (λ n s. Deleted s × (n ≡ length all)) Lost
    unfolding delete_before
    delete_before-Runs =
        Runs-execute _ (λ loose s p. (loose, λ x m. inl (subst (Memᴰ x) (sym p.0) m)))
          (λ s p e. absurd (delete_rows-some s.store e))
          λ s p a t e.
            let (n, wrote) = delete_rows-eq s.store t a e in
            (
              subst
                  (λ (u : Store).
                    (u.audit_entries ≡ rest)
                    × HasFresh calm rest (record s { store = u })
                    × (u.archives path ≡ some all))
                  (sym wrote)
                  (
                    ap (filter (λ q. not (is_old cutoff q))) p.0,
                    λ held. any-filter _ _ rows (p.2 held),
                    p.1,
                  ),
              n
                  ∙ ap (λ xs. length (filter (is_old cutoff) xs)) p.0
                  ∙ Archive.length-all calm cutoff rows keyed,
            )

    count_before-Runs : Runs calm Deleted (count_before cutoff) (λ n s. Deleted s × (n ≡ 0)) Lost
    unfolding count_before
    count_before-Runs =
        Runs-query _ (λ loose s p. (loose, Kept-Archived s [] (p.0 ∙ sym (append-nil rest)) p.2))
          λ s p. (
            p,
            ap (λ xs. length (filter (is_old cutoff) xs)) p.0
                ∙ ap length (filter-not (is_old cutoff) rows),
          )

    -- The answer, the trail and the archive of a prune that succeeds.
    abbrev pub Pruned : Report → State → Type 0
    Pruned report s =
        (e : AuditEntry) × (report ≡ executed (length all) (length all) (length all) 0 true path)
        × (s.audit_entries ≡ rest ++ e ∷ [])
        × (s.archives path ≡ some all)
        × (e.action ≡ AuditAction.delete)
        × (e.changes ≡ Changes.audit_prune days cutoff (length all) (length all) path)

    -- What follows the post-count.
    abbrev logged : ℕ → ℕ → Exec Report
    logged n k = do
      Repository.create "audit_entries" "*" AuditAction.delete
          (Changes.audit_prune days cutoff (length all) n path) user
      pure (executed (length all) (length all) n k (eqb k 0 && eqb n (length all)) path)

    log-Runs :
        Runs calm Deleted
          (Repository.create "audit_entries" "*" AuditAction.delete
              (Changes.audit_prune days cutoff (length all) (length all) path)
              user
            >> pure (executed (length all) (length all) (length all) 0 true path))
          Pruned
          Lost
    log-Runs =
        Runs-bind
          (λ e s.
            (s.audit_entries ≡ rest ++ e ∷ [])
            × (e.action ≡ AuditAction.delete)
            × (e.changes ≡ Changes.audit_prune days cutoff (length all) (length all) path)
            × (s.archives path ≡ some all))
          (Runs-fails _ (λ s p. (p.0, Kept-Archived s [] (p.1 ∙ sym (append-nil rest)) p.2))
            (create-adds calm (λ s. s.archives path ≡ some all) (λ s es p. p) rest _ _ _ _ user))
          λ e. Runs-pure _ λ s p. (e, refl, p.0, p.3, p.1, p.2)

    pub delete_phase-Runs :
        Runs calm
          (Has path all)
          (delete_phase cutoff (length all) (length all) path days user)
          Pruned
          Lost
    unfolding delete_phase
    delete_phase-Runs =
        Runs-bind (λ n s. Deleted s × (n ≡ length all)) delete_before-Runs
          λ n.
            Runs-eq (λ n. Repository.count_before cutoff >>= (λ k. logged n k)) n (length all)
              (Runs-bind (λ k s. Deleted s × (k ≡ 0)) count_before-Runs
                λ k. Runs-eq (λ k. logged (length all) k) k 0 (rw (eqb_refl (length all)) log-Runs))
