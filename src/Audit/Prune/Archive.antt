-- ===== src/Audit/Prune/Archive.antt =====
-- The archive phase: the file holds every candidate once, or the trail is as it was.
use pdt.Base.{
  ℕ, suc, ◌+◌, ◌/◌, ◌<◌, String, ◌≡◌, refl, sym, inl, inr, Bool, false, not, none, List, [], length,
  filter, eqb, arith, Bool-cases,
}
use pdt.Base.Order.{IsKeyed, length-filter-sort}
use pdt.Model.Audit.{AuditEntry, ArchivePath}
use pdt.Model.World.{State, file_op}
use pdt.Model.World.Hoare.{
  Runs, Runs-bind, Runs-pure, Runs-file_op, Runs-now, Runs-conseq, Runs-absurd,
}
use pdt.Audit.Repository.{is_old}
use pdt.Audit.Repository.Frame.{HasFresh}
use pdt.Audit.Prune.{copy_pages, second_ns, touch, create_file, verify, archive_phase}
use pdt.Audit.Prune.Copy.{candidates, Holds, IsAt-start, Copied, copy_pages-Runs, same_path_refl}

abbrev pub page_positive : 0 < 500
page_positive = omega arith

module _ (calm : Bool) (cutoff : ℕ) (rows : List AuditEntry)
    (keyed : IsKeyed (λ e. e.id) rows) where
  abbrev pub all : List AuditEntry
  all = candidates cutoff rows

  -- The rows that stay.
  abbrev pub rest : List AuditEntry
  rest = filter (λ e. not (is_old cutoff e)) rows

  abbrev pub Before : State → Type 0
  Before s = (s.audit_entries ≡ rows) × HasFresh calm rows s

  pub length-all : length (filter (is_old cutoff) rows) ≡ length all
  length-all = sym (length-filter-sort (λ e. e.id) (is_old cutoff) rows)

  abbrev pub Failed : State → Type 0
  Failed s = (calm ≡ false) × (s.audit_entries ≡ rows)

  touch-Runs :
      (P : State → Type 0)
      → ((s : State) → P s → s.audit_entries ≡ rows)
      → Runs calm P (file_op touch) (λ _. P) Failed
  unfolding touch
  touch-Runs P h = Runs-file_op _ (λ loose s p. (loose, h s p)) (λ s p. p)

  -- The file holds these rows.
  abbrev pub Has : ArchivePath → List AuditEntry → State → Type 0
  Has path = Holds cutoff 500 page_positive rows keyed calm path

  abbrev pub Verified : ArchivePath × ℕ → State → Type 0
  Verified (path, n) s = Has path all s × (n ≡ length all)

  module _ (path : ArchivePath) where
    create_file-Runs : Runs calm Before (file_op (create_file path)) (λ _. Has path []) Failed
    unfolding create_file
    create_file-Runs =
        Runs-file_op _ (λ loose s p. (loose, p.0))
          λ s p. (p.0, rw (same_path_refl cutoff 500 page_positive rows keyed calm path) refl, p.1)

    verify-Runs :
        (n : ℕ)
        → Runs calm
            (λ s. Has path all s × (n ≡ length all))
            (verify (eqb n (length all)) path n)
            Verified
            Failed
    unfolding verify
    verify-Runs n = elim (Bool-cases (eqb n (length all))) [
      | inl same ↦ rw same (Runs-pure _ (λ s p. p))
      | inr other ↦ Runs-absurd (λ s p. ground (arith, p.1))
    ]

    copy_all-Runs :
        Runs calm
          (Has path [])
          (copy_pages 500 path cutoff (suc (length all)) none 0)
          (λ n s. Has path all s × (n ≡ length all))
          Failed
    copy_all-Runs =
        Runs-conseq (Copied cutoff 500 page_positive rows keyed calm path (0 + length all))
          (λ n s (p, e). (p, omega arith))
          (copy_pages-Runs cutoff 500 page_positive rows keyed calm path (suc (length all)) [] all
            none 0 (IsAt-start cutoff 500 page_positive rows keyed) (omega arith))

  pub archive_phase-Runs :
      (dir : String) → Runs calm Before (archive_phase cutoff (length all) dir) Verified Failed
  unfolding archive_phase
  archive_phase-Runs dir =
      Runs-bind (λ _. Before) (touch-Runs Before (λ s p. p.0))
        λ _.
          Runs-bind (λ _. Before) (Runs-now (λ s p at h ticks. p))
            λ at.
              let path : ArchivePath = record { dir = dir; second = at / second_ns } in
              Runs-bind (λ _. Has path []) (create_file-Runs path)
                λ _.
                  Runs-bind (λ n s. Has path all s × (n ≡ length all)) (copy_all-Runs path)
                    λ n.
                      let Full = λ (s : State). Has path all s × (n ≡ length all) in
                      let sync = touch-Runs Full (λ s p. p.0.0) in
                      Runs-bind (λ _. Full) sync
                        λ _.
                          Runs-bind (λ _. Full) sync
                            λ _. Runs-bind (λ _. Full) sync λ _. verify-Runs path n
