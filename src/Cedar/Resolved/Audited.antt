-- ===== src/Cedar/Resolved/Audited.antt =====
-- What stands behind an access that is granted: the trail or the policies.
use pdt.Base.{String, ◌≡◌, refl, Bool, true, false, Option, List, [], ◌∷◌, ◌++◌, ◌&&◌, any, length}
use pdt.Model.Error.{ok}
use pdt.Model.Asset.{Asset}
use pdt.Model.Audit.{AuditEntry, AuditAction, Changes}
use pdt.Model.World.{State, World}
use pdt.Model.World.Hoare.{Runs, Runs-bind, Runs-pure, Runs-weaken, Runs-fails}
use pdt.Model.World.Outcome.{Runs-ok}
use pdt.Audit.Repository.Frame.{create-adds}
use pdt.Cedar.Entity.{JwtClaims, AssetEntity, PrincipalEntity}
use pdt.Cedar.Filter.Verdicts.{policies_allow, check_permission-policies_allow, IsFiltered}
use pdt.Cedar.Filter.{should_enforce_cedar}
use pdt.Cedar.Resolved.{
  ResolvedAuthz, lift, audit_admin_bypass, check_branch, check_permission_resolved,
}

-- The trail has one entry more, for a bypass with these details.
abbrev pub Logged : List AuditEntry → Changes → State → Type 0
Logged rows detail s =
    (e : AuditEntry) × (s.audit_entries ≡ rows ++ e ∷ [])
    × (e.action ≡ AuditAction.admin_bypass)
    × (e.changes ≡ detail)

audit_admin_bypass-Runs :
    (rows : List AuditEntry) (user : String) (instance_id : Option String) (detail : Changes)
    → Runs false
        (λ s. s.audit_entries ≡ rows)
        (audit_admin_bypass user instance_id detail)
        (λ _. Logged rows detail)
        (λ s. Unit {0})
unfolding audit_admin_bypass
audit_admin_bypass-Runs rows user instance_id detail =
    Runs-bind
      (λ e s.
        (s.audit_entries ≡ rows ++ e ∷ [])
        × (e.action ≡ AuditAction.admin_bypass)
        × (e.changes ≡ detail)
        × Unit {0})
      (Runs-weaken (λ s p. (p, (λ h. absurd (cc h)), tt))
        (Runs-fails _ (λ s p. tt)
          (create-adds false (λ s. Unit {0}) (λ s es u. tt) rows _ _ _ detail user)))
      λ e. Runs-pure tt (λ s (a, b, c, u). (e, a, b, c))

module _ (build_principal_entity : JwtClaims → Bool)
    (builds_uids builds_request : JwtClaims → String → String → Bool) (parses_uid : String → Bool)
    (is_allowed : PrincipalEntity → String → AssetEntity → Bool) (claims : JwtClaims)
    (resolved : ResolvedAuthz) (instance_id : Option String) (action : String) (w : World) where
  -- What lets a caller pass to an enforced asset.
  pub data Grant (asset : Asset) (s : State) : Type 0 where
    audited :
        resolved.admin_bypass ≡ true
        → Logged w.state.audit_entries (Changes.bypass_asset action asset.id) s
        → Grant asset s
    permitted :
        resolved.admin_bypass ≡ false
        → policies_allow build_principal_entity builds_uids builds_request parses_uid is_allowed
            claims resolved.effective_groups action asset
          ≡ true
        → s ≡ w.state
        → Grant asset s

  check_branch-Grant :
      (asset : Asset) (bypass : Bool)
      → should_enforce_cedar asset ≡ true
      → resolved.admin_bypass ≡ bypass
      → (check_branch build_principal_entity builds_uids builds_request parses_uid is_allowed true
          bypass claims resolved.effective_groups instance_id action asset w).0
        ≡ ok tt
      → Grant asset
          (check_branch build_principal_entity builds_uids builds_request parses_uid is_allowed true
            bypass claims resolved.effective_groups instance_id action asset w).1.state
  unfolding check_branch lift
  check_branch-Grant asset true on e h = audited e (
      Runs-ok (λ _. Logged w.state.audit_entries (Changes.bypass_asset action asset.id)) _
        (audit_admin_bypass-Runs _ claims.sub instance_id _) w refl tt h)
  check_branch-Grant asset false on e h =
      permitted e
        (check_permission-policies_allow build_principal_entity builds_uids builds_request
          parses_uid is_allowed claims resolved.effective_groups action asset on h)
        refl

  -- An enforced asset is opened only where the request is built and the policies allow it, and then
  -- nothing is written, or to an admin of the instance, and then the trail has an entry of the
  -- bypass that names the asset: where that entry cannot be written the access fails.
  pub check_permission_resolved-Grant :
      (asset : Asset)
      → should_enforce_cedar asset ≡ true
      → (check_permission_resolved build_principal_entity builds_uids builds_request parses_uid
          is_allowed claims resolved instance_id action asset w).0
        ≡ ok tt
      → Grant asset
          (check_permission_resolved build_principal_entity builds_uids builds_request parses_uid
            is_allowed claims resolved instance_id action asset w).1.state
  unfolding check_permission_resolved
  check_permission_resolved-Grant asset on =
      rw (on) (check_branch-Grant asset resolved.admin_bypass on refl)

  -- What stands behind a list that is answered.
  pub data ListGrant (assets kept : List Asset) (s : State) : Type 0 where
    audited_list :
        resolved.admin_bypass ≡ true
        → kept ≡ assets
        → Logged w.state.audit_entries (Changes.bypass_list action (length assets)) s
        → ListGrant assets kept s
    filtered_list :
        (resolved.admin_bypass && any should_enforce_cedar assets) ≡ false
        → IsFiltered build_principal_entity builds_uids builds_request parses_uid is_allowed claims
            resolved.effective_groups action assets kept
        → s ≡ w.state
        → ListGrant assets kept s
