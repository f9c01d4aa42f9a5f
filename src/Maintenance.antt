-- ===== src/Maintenance.antt =====
-- The prunes of src/handlers/maintenance.rs: the gates before them, and the answer with the state
-- of the gates.
pub mod Gated
pub mod Cleared
mod Tests
use mathlib.Core.Option
use pdt.Base.{
  ℕ, String, Bool, true, false, not, Option, none, some, List, [], ◌∷◌, ◌==◌, ◌&&◌, ◌||◌, any,
  concat, if◌then◌else◌,
}
use pdt.Base.Text.{eq_ignore_ascii_case}
use pdt.Model.Error.{ApiError, Result, ok, err, panic}
use pdt.Model.Asset.{Asset, Metadata, Value}
use pdt.Model.World.{Exec, pure, raise, ensure, ◌>>=◌, ◌>>◌}
use pdt.Cedar.Entity.{claim, texts}
use pdt.Retention.Policy.{PrunePolicy, PruneVerdict, evaluate, evaluate_audit_entries}
use pdt.Roles.Service.{RoleAnswer, resolve}
use pdt.Tenants.Tree.{Dir, DbPath}
use pdt.Tenants.Manager as Manager
use pdt.Tenants.Manager.{ArchiveHome, global_home, beside}
use pdt.Assets.Prune as Assets
use pdt.Audit.Prune as Audit

pub record AuthenticatedUser : Type 0 where
  pub user_id : String
  pub claims_extra : Option Metadata

-- What the handlers read of the environment: PDT_PRUNE_ENABLED, the policy that is loaded from
-- PDT_PRUNE_POLICY_PATH, and PDT_AUDIT_ARCHIVE_DIR.
pub record Env : Type 0 where
  pub prune_enabled : Option String
  pub policy : Option PrunePolicy
  pub archive_dir : Option String

pub record PruneRequest : Type 0 where
  pub tag_category : String
  pub tag_value : String
  pub older_than_days : ℕ
  pub dry_run : Bool

pub record AuditPruneRequest : Type 0 where
  pub older_than_days : ℕ
  pub dry_run : Bool

-- The report with the state of the gates; a dry run carries the verdict of the policy.
pub record Response (A : Type 0) : Type 0 where
  pub report : A
  pub execution_enabled : Bool
  pub policy_loaded : Bool
  pub policy_verdict : Option PruneVerdict

-- The role claim: one text, or the texts of an array.
unfoldable pub claim_strings : Option Value → List String
unfolding texts
claim_strings (some (Value.string s)) = s ∷ []
claim_strings (some (Value.array items)) = texts items
claim_strings (some (Value.null)) = []
claim_strings (some (Value.bool b)) = []
claim_strings (some (Value.number n)) = []
claim_strings (some (Value.object fields)) = []
claim_strings none = []

-- `role_strings`
unfoldable pub role_strings : Option Metadata → List String
unfolding claim_strings claim
role_strings none = []
role_strings (some extra) = claim_strings (claim "role" extra)

-- `admin_allowed`
unfoldable pub admin_allowed : List String → Option String → Bool
admin_allowed token_roles none = any (λ r. r == "admin") token_roles
admin_allowed token_roles (some role) = any (λ r. r == "admin") token_roles || role == "admin"

-- `prune_execution_enabled_from`
unfoldable pub prune_execution_enabled_from : Option String → Bool
unfolding eq_ignore_ascii_case
prune_execution_enabled_from none = false
prune_execution_enabled_from (some v) = v == "1" || eq_ignore_ascii_case v "true"

unfoldable pub is_some : {A : Type 0} → Option A → Bool
is_some none = false
is_some (some a) = true

unfoldable pub is_allowed : PruneVerdict → Bool
is_allowed PruneVerdict.allowed = true
is_allowed PruneVerdict.refused = false

-- Without a policy every class is refused.
unfoldable pub verdict : Option PrunePolicy → (PrunePolicy → PruneVerdict) → PruneVerdict
verdict none judge = PruneVerdict.refused
verdict (some policy) judge = judge policy

-- The wire gate and the class gate; a dry run passes both.
unfoldable pub execution_gates : Bool → Bool → PruneVerdict → Exec (Unit {0})
unfolding is_allowed
execution_gates dry enabled v = do
  ensure (dry || enabled) ApiError.forbidden
  ensure (dry || is_allowed v) ApiError.forbidden

unfoldable pub envelope : {A : Type 0} → Env → Bool → PruneVerdict → A → Response A
unfolding prune_execution_enabled_from is_some
envelope env dry v report = record {
  report = report;
  execution_enabled = prune_execution_enabled_from env.prune_enabled;
  policy_loaded = is_some env.policy;
  policy_verdict = if dry then some v else none;
}

-- The directory of an archive under the root of the instances, as a text.
unfoldable pub instance_dir : String → String → Option String → String
instance_dir root workspace none = concat root (concat "/" workspace)
instance_dir root workspace (some child) =
    concat root (concat "/" (concat workspace (concat "/" child)))

unfoldable pub home_dir : String → ArchiveHome → String
unfolding instance_dir
home_dir root global_home = concat root "/global"
home_dir root (beside path) = instance_dir root path.workspace path.child

unfoldable pub home_or_internal : String → Manager.Result ArchiveHome → Result String
unfolding home_dir
home_or_internal root (Manager.ok home) = ok (home_dir root home)
home_or_internal root (Manager.err e) = err ApiError.internal

-- `resolve_archive_dir`: an override that is not empty, or the directory of the instance.
unfoldable pub resolve_archive_dir :
    Option String → String → Option String → Manager.Manager → Result String
unfolding home_or_internal
resolve_archive_dir none root instance_id m =
    home_or_internal root (Manager.audit_archive_dir instance_id m)
resolve_archive_dir (some dir) root instance_id m =
    if dir == "" then home_or_internal root (Manager.audit_archive_dir instance_id m) else ok dir

-- A dry run takes the directory where there is one, an execution needs it.
unfoldable pub archive_dir : Bool → Result String → Exec (Option String)
archive_dir dry (ok dir) = pure (some dir)
archive_dir true (err e) = pure none
archive_dir false (err e) = raise e
archive_dir dry panic = λ w. (panic, w)

module _ (is_alphanumeric : ℕ → Bool) (fts_match : String → Asset → Bool) where
  -- The registry's role, where the token has none.
  unfoldable pub registry_gate : Bool → List String → String → Exec (Unit {0})
  unfolding admin_allowed
  registry_gate true token_roles sub = pure tt
  registry_gate false token_roles sub = do
    answer ← resolve is_alphanumeric fts_match sub
    ensure (admin_allowed token_roles (some answer.global_role)) ApiError.forbidden

  -- `admin_gate`
  unfoldable pub admin_gate : AuthenticatedUser → Exec (Unit {0})
  unfolding registry_gate role_strings
  admin_gate user =
      let token_roles = role_strings user.claims_extra in
      registry_gate (any (λ r. r == "admin") token_roles) token_roles user.user_id

  -- `prune`
  unfoldable pub prune : Env → AuthenticatedUser → PruneRequest → Exec (Response Assets.Report)
  unfolding admin_gate execution_gates verdict envelope
  prune env user req = do
    admin_gate user
    let v = verdict env.policy (λ p. evaluate p req.tag_category req.tag_value req.older_than_days)
    execution_gates req.dry_run (prune_execution_enabled_from env.prune_enabled) v
    report ←
        Assets.prune is_alphanumeric fts_match req.tag_category req.tag_value req.older_than_days
          req.dry_run user.user_id
    pure (envelope env req.dry_run v report)

  -- `audit_prune`, for an instance of this pool manager
  unfoldable pub audit_prune :
      Env
      → String
      → Manager.Manager
      → AuthenticatedUser
      → Option String
      → AuditPruneRequest
      → Exec (Response Audit.Report)
  unfolding admin_gate execution_gates verdict envelope resolve_archive_dir archive_dir
  audit_prune env root m user instance_id req = do
    admin_gate user
    let v = verdict env.policy (λ p. evaluate_audit_entries p req.older_than_days)
    execution_gates req.dry_run (prune_execution_enabled_from env.prune_enabled) v
    dir ← archive_dir req.dry_run (resolve_archive_dir env.archive_dir root instance_id m)
    report ← Audit.audit_prune req.older_than_days req.dry_run user.user_id dir
    pure (envelope env req.dry_run v report)
