-- ===== src/Audit/Prune/Correct.antt =====
-- `audit_prune` as a whole: nothing is deleted unarchived, a prune that meets no failure succeeds,
-- and a dry run writes nothing.
use pdt.Base.{
  ℕ, ◌+◌, ◌*◌, ◌≤◌, ◌∙◌, String, ◌≡◌, refl, sym, ap, subst, Bool, true, false, Option, some, none,
  List, [], ◌∷◌, Memᴰ, ◌==◌, any, filter, length, ltb, arith, inl, inr, Bool-cases,
}
use pdt.Base.Order.{IsKeyed}
use pdt.Model.Error.{ok}
use pdt.Model.Audit.{AuditEntry, ArchivePath}
use pdt.Model.World.{State, World, ◌>>=◌}
use pdt.Model.World.Hoare.{
  Runs, Runs-bind, Runs-pure, Runs-query, Runs-now, Runs-reading, reading, Runs-eq, Runs-raise,
  Runs-crash, Runs-conseq, Runs-weaken, Runs-fails, Runs-given, Runs-absurd,
}
use pdt.Model.World.Outcome.{Runs-any, Runs-returns}
use pdt.Audit.Repository.{is_old, count_before, list_before}
use pdt.Audit.Repository.Frame.{HasFresh}
use pdt.Audit.Prune.{
  archive_phase, delete_phase, Report, days_before, day_ns, required, execute_prune, after_count,
  audit_prune,
}
use pdt.Audit.Prune.Archive
use pdt.Audit.Prune.Archive.{archive_phase-Runs}
use pdt.Audit.Prune.Copy.{candidates}
use pdt.Audit.Prune.Delete.{Kept, Kept-Archived, Pruned, delete_phase-Runs}

module _ (calm : Bool) (cutoff : ℕ) (rows : List AuditEntry) (keyed : IsKeyed (λ e. e.id) rows)
    (days : ℕ) (user : String) where
  Kept-same : (s : State) → s.audit_entries ≡ rows → Kept rows s
  Kept-same s same e m = inl (subst (Memᴰ e) (sym same) m)

  abbrev Before : State → Type 0
  Before = Archive.Before calm cutoff rows keyed

  abbrev Done : Report → State → Type 0
  Done report s = (path : ArchivePath) × Pruned calm cutoff rows keyed path days user report s

  execute_prune-Runs :
      (dir : String)
      → Runs calm Before
          (execute_prune cutoff (length (candidates cutoff rows)) (some dir) days user)
          Done
          (λ s. (calm ≡ false) × Kept rows s)
  unfolding execute_prune required
  execute_prune-Runs dir =
      Runs-bind (λ d s. Before s × (d ≡ dir)) (Runs-pure dir (λ s p. (p, refl)))
        λ d.
          Runs-eq
            (λ d. archive_phase cutoff (length (candidates cutoff rows)) d >>= (λ (path, n).
              delete_phase cutoff (length (candidates cutoff rows)) n path days user))
            d dir
            (Runs-bind (Archive.Verified calm cutoff rows keyed)
              (Runs-fails _ (λ s p. (p.0, Kept-same s p.1))
                (archive_phase-Runs calm cutoff rows keyed dir))
              λ (path, n).
                Runs-eq
                  (λ n. delete_phase cutoff (length (candidates cutoff rows)) n path days user) n
                  (length (candidates cutoff rows))
                  (Runs-conseq _ (λ report s p. (path, p))
                    (delete_phase-Runs calm cutoff rows keyed path days user)))

  count-Runs :
      Runs calm Before
        (count_before cutoff)
        (λ n s. Before s × (n ≡ length (candidates cutoff rows)))
        (λ s. (calm ≡ false) × Kept rows s)
  unfolding count_before
  count-Runs =
      Runs-query _ (λ loose s p. (loose, Kept-same s p.0))
        λ s p. (
          p,
          ap (λ xs. length (filter (is_old cutoff) xs)) p.0
              ∙ Archive.length-all calm cutoff rows keyed,
        )

  after_count-Runs :
      (dir : String)
      → Runs calm Before
          (count_before cutoff >>= (λ n. after_count false cutoff n days user (some dir)))
          Done
          (λ s. (calm ≡ false) × Kept rows s)
  unfolding after_count
  after_count-Runs dir =
      Runs-bind (λ n s. Before s × (n ≡ length (candidates cutoff rows))) count-Runs
        λ n.
          Runs-eq (λ n. execute_prune cutoff n (some dir) days user) n
            (length (candidates cutoff rows)) (execute_prune-Runs dir)

-- With a schedule that may fail, the cutoff and the branch do not matter.
module _ (rows : List AuditEntry) (keyed : IsKeyed (λ e. e.id) rows) (days : ℕ)
    (user : String) where
  abbrev Same : State → Type 0
  Same s = s.audit_entries ≡ rows

  Same-Kept : (s : State) → Same s → Kept rows s
  Same-Kept s same = Kept-same false 0 rows keyed days user s same

  after_count-Kept :
      (dry : Bool) (cutoff : ℕ) (dir : Option String)
      → Runs false Same
          (count_before cutoff >>= (λ n. after_count dry cutoff n days user dir))
          (λ _. Kept rows)
          (Kept rows)
  unfolding after_count count_before list_before execute_prune required
  after_count-Kept true cutoff dir =
      Runs-bind (λ _. Same) (Runs-query _ (λ loose. Same-Kept) (λ s p. p))
        λ n.
          Runs-bind (λ _. Same)
            (Runs-bind (λ _. Same) (Runs-query _ (λ loose. Same-Kept) (λ s p. p))
              (λ page. Runs-pure _ (λ s p. p)))
            λ sample. Runs-pure _ Same-Kept
  after_count-Kept false cutoff none =
      Runs-bind (λ _. Same) (Runs-query _ (λ loose. Same-Kept) (λ s p. p))
        λ n. Runs-bind (λ _ _. ⊥) (Runs-raise _ Same-Kept) λ dir. Runs-absurd (λ s p. p)
  after_count-Kept false cutoff (some dir) =
      Runs-weaken (λ s p. (p, λ h. absurd (cc h)))
        (Runs-fails _ (λ s p. p.1)
          (Runs-conseq _
            (λ report s (path, (e, _, trail, file, _, _)).
              Kept-Archived false cutoff rows keyed path days user s (e ∷ []) trail file)
            (after_count-Runs false cutoff rows keyed days user dir)))

  days_before-Kept : (at : ℕ) → Runs false Same (days_before days at) (λ _. Same) (Kept rows)
  unfolding days_before
  days_before-Kept at = elim (Bool-cases (ltb at (days * day_ns))) [
    | inl early ↦ rw early (Runs-crash Same-Kept)
    | inr late ↦ rw late (Runs-pure _ (λ s p. p))
  ]

  audit_prune-Runs :
      (dry : Bool) (dir : Option String)
      → Runs false Same (audit_prune days dry user dir) (λ _. Kept rows) (Kept rows)
  unfolding audit_prune
  audit_prune-Runs dry dir =
      Runs-bind (λ _. Same) (Runs-now (λ s p at h ticks. p))
        λ at. Runs-bind (λ _. Same) (days_before-Kept at) λ cutoff. after_count-Kept dry cutoff dir

-- Whichever of its queries and file operations fail, and whatever it answers, after `audit_prune`
-- every row of the trail is in the trail or in an archive file. The ids of the trail are distinct.
pub audit_prune-Kept :
    (days : ℕ) (dry : Bool) (user : String) (dir : Option String) (w : World)
    → IsKeyed (λ e. e.id) w.state.audit_entries
    → Kept w.state.audit_entries (audit_prune days dry user dir w).1.state
audit_prune-Kept days dry user dir w keyed =
    Runs-any (Kept w.state.audit_entries)
      (audit_prune-Runs w.state.audit_entries keyed days user dry dir) w refl

-- The cutoff of a prune at a clock: so many days before it, and the clock stands past them.
abbrev pub IsCutoff : ℕ → ℕ → ℕ → Type 0
IsCutoff clock days cutoff = cutoff + days * day_ns ≡ clock

module _ (days : ℕ) (user dir : String) (w : World)
    (keyed : IsKeyed (λ e. e.id) w.state.audit_entries) where
  abbrev old_rows : List AuditEntry
  old_rows = w.state.audit_entries

  abbrev Fresh : State → Type 0
  Fresh s = (s.audit_entries ≡ old_rows) × HasFresh true old_rows s

  abbrev pub Answered : Report → State → Type 0
  Answered report s =
      (cutoff : ℕ) × IsCutoff (reading w.state) days cutoff
      × (path : ArchivePath) × Pruned true cutoff old_rows keyed path days user report s

  days_before-Runs :
      (at : ℕ)
      → days * day_ns ≤ reading w.state
      → Runs true
          (λ s. Fresh s × (reading w.state ≡ at))
          (days_before days at)
          (λ cutoff s. Fresh s × IsCutoff (reading w.state) days cutoff)
          (λ s. ⊥)
  unfolding days_before
  days_before-Runs at k = elim (Bool-cases (ltb at (days * day_ns))) [
    | inl early ↦ Runs-absurd (λ s p. ground (arith, p.1))
    | inr late ↦ rw late (Runs-pure _ (λ s p. (p.0, ground (arith, late, k, p.1))))
  ]

  audit_prune-answers :
      days * day_ns ≤ reading w.state
      → Runs true
          (λ s. Fresh s × (reading w.state ≡ reading s))
          (audit_prune days false user (some dir))
          Answered
          (λ s. ⊥)
  unfolding audit_prune
  audit_prune-answers k =
      Runs-bind (λ at s. Fresh s × (reading w.state ≡ at)) (Runs-reading (λ s p ticks. (p.0, p.1)))
        λ at.
          Runs-bind (λ cutoff s. Fresh s × IsCutoff (reading w.state) days cutoff)
            (days_before-Runs at k)
            λ cutoff. Runs-given λ c.
              Runs-fails _ (λ s p. cc p.0)
                (Runs-conseq _ (λ report s (path, p). (cutoff, c, path, p))
                  (after_count-Runs true cutoff old_rows keyed days user dir))

  -- An execution that meets no failure answers a verified report with the number of the candidates
  -- archived and deleted: the archive file holds them in the order of their ids, and the trail
  -- holds the other rows and the entry of the prune. It is given a directory; the clock stands past
  -- the window, the ids of the trail are distinct, and the next uuid is not among them.
  pub audit_prune-archives :
      days * day_ns ≤ reading w.state
      → any (λ (q : AuditEntry). q.id == w.state.uuid w.state.minted) w.state.audit_entries ≡ false
      → w.faults ≡ []
      → (report : Report) × ((audit_prune days false user (some dir) w).0 ≡ ok report)
        × Answered report (audit_prune days false user (some dir) w).1.state
  audit_prune-archives k fresh calm =
      Runs-returns Answered (audit_prune-answers k) w calm ((refl, λ h. fresh), refl)
