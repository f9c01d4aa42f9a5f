-- ===== src/Audit/Tests.antt =====
-- Runs of the prune on a small trail.
use pdt.Base.{
  ℕ, ◌*◌, String, ◌≡◌, ◌≢◌, refl, true, false, none, some, List, [], ◌∷◌, ◌==◌, eq_iff, take,
  length, arith,
}
use pdt.Base.Order.{IsKeyed}
use pdt.Model.Error.{ok}
use pdt.Model.Audit.{AuditEntry}
use pdt.Model.World.Hoare.{reading}
use pdt.Model.World.{Store, World}
use pdt.Model.Sample.{no_rows, world_of, entry_at}
use pdt.Audit.Prune.{Report, dry_run, audit_prune, day_ns}
use pdt.Audit.Prune.Copy.{candidates}
use pdt.Audit.Prune.Delete.{Kept}
use pdt.Audit.Prune.Correct.{audit_prune-Kept, audit_prune-archives, Answered, IsCutoff}
use pdt.Audit.Prune.Dry.{audit_prune-dry, audit_prune-dry_run}

-- An old entry and a new one.
abbrev trail : List AuditEntry
trail = entry_at "b" (3 * day_ns) ∷ entry_at "a" 5 ∷ []

abbrev rows : Store
rows = record no_rows { audit_entries = trail }

apart : (a b : String) → (a == b) ≡ false → a ≢ b
apart a b h e = let same = (eq_iff a b).1 e in cc

trail-IsKeyed : IsKeyed (λ e. e.id) trail
trail-IsKeyed = ((apart "a" "b" refl, tt), (tt, tt))

-- The third operation fails.
abbrev faulty : World
faulty = world_of rows (4 * day_ns) (false ∷ false ∷ true ∷ [])

abbrev calm : World
calm = world_of rows (4 * day_ns) []

audit_prune-Kept_example : Kept trail (audit_prune 2 false "u" (some "d") faulty).1.state
audit_prune-Kept_example = audit_prune-Kept 2 false "u" (some "d") faulty trail-IsKeyed

audit_prune-archives_example :
    (report : Report) × ((audit_prune 2 false "u" (some "d") calm).0 ≡ ok report)
    × Answered 2 "u" "d" calm trail-IsKeyed report (audit_prune 2 false "u" (some "d") calm).1.state
audit_prune-archives_example =
    audit_prune-archives 2 "u" "d" calm trail-IsKeyed (omega arith) refl refl

audit_prune-dry_example : (audit_prune 2 true "u" none calm).1.state.store ≡ rows
audit_prune-dry_example = audit_prune-dry 2 "u" none calm

audit_prune-dry_run_example :
    (cutoff : ℕ) × IsCutoff (reading calm.state) 2 cutoff
    × ((audit_prune 2 true "u" none calm).0
        ≡ ok
            (dry_run (length (candidates cutoff trail)) cutoff (take 10 (candidates cutoff trail))))
audit_prune-dry_run_example = audit_prune-dry_run 2 "u" none calm refl (omega arith)
