-- ===== src/Retention/Tests.antt =====
-- A policy of one class and the audit entries.
use pdt.Base.{◌≤◌, ◌≡◌, ◌↔◌, some, [], ◌∷◌}
use pdt.Retention.Policy.{
  Disposition, AuditEntriesClass, PrunePolicy, PruneVerdict, evaluate, evaluate_audit_entries,
}
use pdt.Retention.Policy.Cleared.{
  IsCleared, evaluate-allowed_iff, evaluate_audit_entries-allowed_iff,
}

abbrev policy : PrunePolicy
policy = record {
  classes =
      record {
        tag_category = "type";
        tag_value = "noise";
        window_days = 14;
        disposition = Disposition.soft_delete;
      }
      ∷ [];
  audit_entries = some (record { window_days = 90; disposition = Disposition.archive_then_delete });
}

evaluate-allowed_iff_example :
    (evaluate policy "type" "noise" 20 ≡ PruneVerdict.allowed) ↔ IsCleared policy "type" "noise" 20
evaluate-allowed_iff_example = evaluate-allowed_iff policy "type" "noise" 20

evaluate_audit_entries-allowed_iff_example :
    (evaluate_audit_entries policy 90 ≡ PruneVerdict.allowed) ↔ (
      (entry : AuditEntriesClass) × (policy.audit_entries ≡ some entry)
      × (entry.disposition ≡ Disposition.archive_then_delete)
      × (entry.window_days ≤ 90))
evaluate_audit_entries-allowed_iff_example = evaluate_audit_entries-allowed_iff policy 90
