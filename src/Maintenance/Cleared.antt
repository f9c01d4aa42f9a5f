-- ===== src/Maintenance/Cleared.antt =====
-- The prunes of the maintenance handlers: what they need before they change the store.
use pdt.Base.{ℕ, ◌≤◌, String, ◌≡◌, refl, ◌⊎◌, Bool, true, false, Option, none, some}
use pdt.Model.Error.{Result, ok, err, panic}
use pdt.Model.Asset.{Asset}
use pdt.Model.World.{Store, World}
use pdt.Model.World.Outcome.{Runs-any}
use pdt.Model.World.Keeps.{Keeps, Keeps-bind, Keeps-pure, Keeps-raise, Keeps-frame}
use pdt.Retention.Policy.{PrunePolicy, PruneVerdict, AuditEntriesClass, Disposition}
use pdt.Retention.Policy.Cleared.{
  IsCleared, evaluate-allowed_iff, evaluate_audit_entries-allowed_iff,
}
use pdt.Tenants.Manager.{Manager}
use pdt.Assets.Prune.Walk.{prune_dry-Keeps}
use pdt.Audit.Prune as Audit
use pdt.Audit.Prune.Dry.{audit_prune-dry}
use pdt.Maintenance.{
  AuthenticatedUser, Env, PruneRequest, AuditPruneRequest, prune_execution_enabled_from, is_allowed,
  verdict, archive_dir, resolve_archive_dir, prune, audit_prune,
}
use pdt.Maintenance.Gated.{IsAdmin, gated-Runs}

is_allowed_lem : (v : PruneVerdict) → is_allowed v ≡ true → v ≡ PruneVerdict.allowed
unfolding is_allowed
is_allowed_lem PruneVerdict.allowed e = refl
is_allowed_lem PruneVerdict.refused e = absurd (cc e)

verdict-allowed :
    (o : Option PrunePolicy) (judge : PrunePolicy → PruneVerdict)
    → is_allowed (verdict o judge) ≡ true
    → (policy : PrunePolicy) × (o ≡ some policy) × (judge policy ≡ PruneVerdict.allowed)
unfolding verdict
verdict-allowed none judge h = absurd (unfold is_allowed in cc h)
verdict-allowed (some policy) judge h = (policy, refl, is_allowed_lem (judge policy) h)

-- An execution that all gates let pass, with the policy that clears it.
pub record IsOpened (admin : Type 0) (env : Env) (dry : Bool) (cleared : PrunePolicy → Type 0)
    : Type 0 where
  pub is_admin : admin
  pub executes : dry ≡ false
  pub enabled : prune_execution_enabled_from env.prune_enabled ≡ true
  pub policy : PrunePolicy
  pub loaded : env.policy ≡ some policy
  pub clears : cleared policy

-- The policy has the section of the audit entries, to archive and delete them at this window.
abbrev pub ClearsAudit : ℕ → PrunePolicy → Type 0
ClearsAudit days policy =
    (entry : AuditEntriesClass) × (policy.audit_entries ≡ some entry)
    × (entry.disposition ≡ Disposition.archive_then_delete)
    × (entry.window_days ≤ days)

archive_dir-Keeps :
    (P : Store → Type 0) (dry : Bool) (r : Result String) → Keeps P (archive_dir dry r)
unfolding archive_dir
archive_dir-Keeps P true (ok dir) = Keeps-pure P _
archive_dir-Keeps P false (ok dir) = Keeps-pure P _
archive_dir-Keeps P true (err e) = Keeps-pure P none
archive_dir-Keeps P false (err e) = Keeps-raise P e
archive_dir-Keeps P true panic = Keeps-frame P λ w. refl
archive_dir-Keeps P false panic = Keeps-frame P λ w. refl

module _ (is_alphanumeric : ℕ → Bool) (fts_match : String → Asset → Bool) (env : Env)
    (user : AuthenticatedUser) (w : World) where
  abbrev Admin : Type 0
  Admin = IsAdmin is_alphanumeric fts_match w.state user

  -- Whichever statements fail, the asset prune of the maintenance handlers leaves the store as it
  -- is, unless the caller is an admin by the token or by the store, the request is no dry run, the
  -- flag is set, and a policy is loaded that clears the class at this window.
  pub prune-IsOpened :
      (req : PruneRequest)
      → ((prune is_alphanumeric fts_match env user req w).1.state.store ≡ w.state.store)
        ⊎ IsOpened Admin env req.dry_run
            (λ p. IsCleared p req.tag_category req.tag_value req.older_than_days)
  unfolding prune
  prune-IsOpened req =
      Runs-any _
        (gated-Runs is_alphanumeric fts_match w.state user _ req.dry_run _ _
          (λ admin run flag yes.
            let (policy, e, h) = verdict-allowed env.policy _ yes in
            record {
              is_admin = admin;
              executes = run;
              enabled = flag;
              policy = policy;
              loaded = e;
              clears = (evaluate-allowed_iff policy _ _ _).0 h;
            })
          _
          (λ dry. rw dry (
            Keeps-bind _
              (prune_dry-Keeps _ is_alphanumeric fts_match req.tag_category req.tag_value
                req.older_than_days user.user_id)
              λ report. Keeps-pure _ _)))
        w refl

  -- Whichever statements and file operations fail, the audit prune of the maintenance handlers
  -- leaves the store as it is, unless the caller is an admin by the token or by the store, the
  -- request is no dry run, the flag is set, and a policy is loaded whose section of the audit
  -- entries archives and deletes them at a window that is not above the one asked for.
  pub audit_prune-IsOpened :
      (root : String) (m : Manager) (instance_id : Option String) (req : AuditPruneRequest)
      → ((audit_prune is_alphanumeric fts_match env root m user instance_id req w).1.state.store
          ≡ w.state.store)
        ⊎ IsOpened Admin env req.dry_run (ClearsAudit req.older_than_days)
  unfolding audit_prune
  audit_prune-IsOpened root m instance_id req =
      Runs-any _
        (gated-Runs is_alphanumeric fts_match w.state user _ req.dry_run _ _
          (λ admin run flag yes.
            let (policy, e, h) = verdict-allowed env.policy _ yes in
            record {
              is_admin = admin;
              executes = run;
              enabled = flag;
              policy = policy;
              loaded = e;
              clears = (evaluate_audit_entries-allowed_iff policy _).0 h;
            })
          _
          (λ dry. rw dry (
            Keeps-bind _
              (archive_dir-Keeps _ true (resolve_archive_dir env.archive_dir root instance_id m))
              λ dir.
                Keeps-bind _
                  (Keeps-frame _ {m = Audit.audit_prune req.older_than_days true user.user_id dir}
                    (audit_prune-dry req.older_than_days user.user_id dir))
                  λ report. Keeps-pure _ _)))
        w refl
