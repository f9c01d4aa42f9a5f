-- ===== src/Retention/Policy.antt =====
-- src/service/prune_policy.rs: the retention policy and its verdicts.
pub mod Cleared
use pdt.Base.{
  ℕ, String, Bool, true, false, Option, none, some, List, ◌==◌, ◌&&◌, find?, ltb, if◌then◌else◌,
}

pub data Disposition : Type 0 where
  archive soft_delete archive_then_delete : Disposition

pub record ClassEntry : Type 0 where
  pub tag_category : String
  pub tag_value : String
  pub window_days : ℕ
  pub disposition : Disposition

pub record AuditEntriesClass : Type 0 where
  pub window_days : ℕ
  pub disposition : Disposition

pub record PrunePolicy : Type 0 where
  pub classes : List ClassEntry
  pub audit_entries : Option AuditEntriesClass

-- The text of a refusal is not modelled.
pub data PruneVerdict : Type 0 where
  allowed refused : PruneVerdict

-- Whether an entry is for a class.
unfoldable pub is_class : String → String → ClassEntry → Bool
is_class category value c = c.tag_category == category && c.tag_value == value

-- A call with a window below the policy's is refused.
unfoldable pub at_window : ℕ → ℕ → PruneVerdict
at_window older_than_days window_days =
    if ltb older_than_days window_days then PruneVerdict.refused else PruneVerdict.allowed

-- The asset prune soft-deletes only.
unfoldable pub disposition_verdict : Disposition → ℕ → ℕ → PruneVerdict
unfolding at_window
disposition_verdict Disposition.archive days window = PruneVerdict.refused
disposition_verdict Disposition.soft_delete days window = at_window days window
disposition_verdict Disposition.archive_then_delete days window = PruneVerdict.refused

unfoldable pub entry_verdict : ℕ → Option ClassEntry → PruneVerdict
unfolding disposition_verdict
entry_verdict days none = PruneVerdict.refused
entry_verdict days (some entry) = disposition_verdict entry.disposition days entry.window_days

-- `PrunePolicy::evaluate`
unfoldable pub evaluate : PrunePolicy → String → String → ℕ → PruneVerdict
unfolding is_class entry_verdict
evaluate policy category value older_than_days =
    entry_verdict older_than_days (find? (is_class category value) policy.classes)

-- The audit prune archives, and then deletes.
unfoldable pub audit_disposition_verdict : Disposition → ℕ → ℕ → PruneVerdict
unfolding at_window
audit_disposition_verdict Disposition.archive days window = PruneVerdict.refused
audit_disposition_verdict Disposition.soft_delete days window = PruneVerdict.refused
audit_disposition_verdict Disposition.archive_then_delete days window = at_window days window

unfoldable pub audit_verdict : ℕ → Option AuditEntriesClass → PruneVerdict
unfolding audit_disposition_verdict
audit_verdict days none = PruneVerdict.refused
audit_verdict days (some entry) = audit_disposition_verdict entry.disposition days entry.window_days

-- `PrunePolicy::evaluate_audit_entries`
unfoldable pub evaluate_audit_entries : PrunePolicy → ℕ → PruneVerdict
unfolding audit_verdict
evaluate_audit_entries policy older_than_days = audit_verdict older_than_days policy.audit_entries
