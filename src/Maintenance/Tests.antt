-- ===== src/Maintenance/Tests.antt =====
-- An admin by the token, with the flag set and a policy for reports and for the trail.
use pdt.Base.{ℕ, String, ◌≡◌, refl, ◌⊎◌, Bool, true, false, some, none, [], ◌∷◌}
use pdt.Model.Error.{ok}
use pdt.Model.Asset.{Asset, Value}
use pdt.Model.World.{World}
use pdt.Model.Sample.{no_rows, world_of, entry_at}
use pdt.Retention.Policy.{PrunePolicy, Disposition}
use pdt.Retention.Policy.Cleared.{IsCleared}
use pdt.Base.Text.{eq_ignore_ascii_case, ascii_lower}
use pdt.Tenants.Manager as Manager
use pdt.Maintenance.{
  AuthenticatedUser, Env, PruneRequest, AuditPruneRequest, prune_execution_enabled_from,
  resolve_archive_dir, prune, audit_prune,
}
use pdt.Maintenance.Gated.{IsAdmin}
use pdt.Maintenance.Cleared.{IsOpened, ClearsAudit, prune-IsOpened, audit_prune-IsOpened}

abbrev no_char : ℕ → Bool
no_char c = false

abbrev no_match : String → Asset → Bool
no_match expression a = false

abbrev admin : AuthenticatedUser
admin = record { user_id = "u"; claims_extra = some (("role", Value.string "admin") ∷ []) }

abbrev policy : PrunePolicy
policy = record {
  classes =
      record {
        tag_category = "type";
        tag_value = "report";
        window_days = 30;
        disposition = Disposition.soft_delete;
      }
      ∷ [];
  audit_entries = some (record { window_days = 30; disposition = Disposition.archive_then_delete });
}

abbrev env : Env
env = record { prune_enabled = some "TRUE"; policy = some policy; archive_dir = some "" }

abbrev world : World
world = world_of (record no_rows { audit_entries = entry_at "a" 0 ∷ [] }) 8_640_000_000_000_000 []

prune_execution_enabled_from-upper : prune_execution_enabled_from (some "TRUE") ≡ true
unfolding prune_execution_enabled_from eq_ignore_ascii_case ascii_lower
prune_execution_enabled_from-upper = refl

abbrev manager : Manager.Manager
manager = record { cache = []; dirs = []; openings = []; removals = []; readable = λ w. true }

resolve_archive_dir-global : resolve_archive_dir (some "") "/data" none manager ≡ ok "/data/global"
unfolding resolve_archive_dir Manager.audit_archive_dir
resolve_archive_dir-global = refl

abbrev reports : PruneRequest
reports = record {
  tag_category = "type";
  tag_value = "report";
  older_than_days = 40;
  dry_run = false;
}

abbrev trail : AuditPruneRequest
trail = record { older_than_days = 40; dry_run = false }

prune-IsOpened_example :
    ((prune no_char no_match env admin reports world).1.state.store ≡ world.state.store)
    ⊎ IsOpened
        (IsAdmin no_char no_match world.state admin)
        env
        false
        (λ p. IsCleared p "type" "report" 40)
prune-IsOpened_example = prune-IsOpened no_char no_match env admin world reports

audit_prune-IsOpened_example :
    ((audit_prune no_char no_match env "/data" manager admin none trail world).1.state.store
      ≡ world.state.store)
    ⊎ IsOpened (IsAdmin no_char no_match world.state admin) env false (ClearsAudit 40)
audit_prune-IsOpened_example =
    audit_prune-IsOpened no_char no_match env admin world "/data" manager none trail
