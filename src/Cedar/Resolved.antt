-- ===== src/Cedar/Resolved.antt =====
-- src/cedar/enforcement.rs: the checks of a request, with the groups of the store and the bypass
-- of the instance's admins.
pub mod Bypass
pub mod Audited
use pdt.Base.{
  ℕ, String, Bool, true, false, Option, none, some, List, [], ◌&&◌, any, length, if◌then◌else◌,
}
use pdt.Model.Error.{ApiError, Result, ok, err, panic}
use pdt.Model.Asset.{Asset}
use pdt.Model.Audit.{AuditAction, Changes}
use pdt.Model.World.{Exec, pure, crash, raise, ◌>>=◌, ◌>>◌}
use pdt.Audit.Repository as Trail
use pdt.Groups.Repository
use pdt.Assets.Rows
use pdt.Cedar.Entity.{JwtClaims, AssetEntity, PrincipalEntity, merge_groups}
use pdt.Cedar.Filter.{
  should_enforce_cedar, check_permission, filter_by_permission, filter_by_permission_batched,
}

pub record ResolvedAuthz : Type 0 where
  pub effective_groups : List String
  pub admin_bypass : Bool

-- A value in place of an error.
unfoldable pub recover_from : {A : Type 0} → Result A → A → Result A
recover_from (ok a) d = ok a
recover_from (err e) d = ok d
recover_from panic d = panic

unfoldable pub recover : {A : Type 0} → Exec A → A → Exec A
unfolding recover_from
recover m d w = let (r, w') = m w in (recover_from r d, w')

-- A pure check within an operation.
unfoldable pub lift : {A : Type 0} → Result A → Exec A
lift r w = (r, w)

-- `resolve_instance_authz`: without the store's groups the token's are left; without the answer
-- about the admins there is no bypass.
unfoldable pub resolve_instance_authz : JwtClaims → Exec ResolvedAuthz
unfolding recover
resolve_instance_authz claims = do
  pdt_groups ← recover (Repository.memberships_for claims.sub) []
  admin_bypass ← recover (Repository.is_instance_admin claims.sub) false
  pure (record {
    effective_groups = merge_groups claims.extra pdt_groups;
    admin_bypass = admin_bypass;
  })

unfoldable pub instance_or_global : Option String → String
instance_or_global none = "global"
instance_or_global (some id) = id

-- `audit_admin_bypass`
unfoldable pub audit_admin_bypass : String → Option String → Changes → Exec (Unit {0})
unfolding instance_or_global
audit_admin_bypass user instance_id detail = do
  Trail.create "instance" (instance_or_global instance_id) AuditAction.admin_bypass detail user
  pure tt

-- pep and Cedar, as in the filters
module _ (build_principal_entity : JwtClaims → Bool)
    (builds_uids builds_request : JwtClaims → String → String → Bool) (parses_uid : String → Bool)
    (is_allowed : PrincipalEntity → String → AssetEntity → Bool) where
  -- The branches of `check_permission_resolved`: whether the asset is enforced, and the bypass.
  unfoldable pub check_branch :
      Bool → Bool → JwtClaims → List String → Option String → String → Asset → Exec (Unit {0})
  unfolding audit_admin_bypass lift
  check_branch false bypass claims groups instance_id action asset = pure tt
  check_branch true true claims groups instance_id action asset =
      audit_admin_bypass claims.sub instance_id (Changes.bypass_asset action asset.id)
  check_branch true false claims groups instance_id action asset = lift (
      check_permission build_principal_entity builds_uids builds_request parses_uid is_allowed
        claims groups action asset)

  -- `check_permission_resolved`
  unfoldable pub check_permission_resolved :
      JwtClaims → ResolvedAuthz → Option String → String → Asset → Exec (Unit {0})
  unfolding check_branch
  check_permission_resolved claims resolved instance_id action asset =
      check_branch (should_enforce_cedar asset) resolved.admin_bypass claims
        resolved.effective_groups instance_id action asset

  -- A list for an admin is audited once, where an asset of it is enforced.
  unfoldable pub list_branch :
      Bool
      → Result (List Asset)
      → JwtClaims
      → Option String
      → String
      → List Asset
      → Exec (List Asset)
  unfolding audit_admin_bypass lift
  list_branch true filtered claims instance_id action assets = do
    audit_admin_bypass claims.sub instance_id (Changes.bypass_list action (length assets))
    pure assets
  list_branch false filtered claims instance_id action assets = lift filtered

  -- `filter_by_permission_resolved`; the log of what was dropped is not modelled.
  unfoldable pub filter_by_permission_resolved :
      JwtClaims → ResolvedAuthz → Option String → String → List Asset → Exec (List Asset)
  unfolding list_branch
  filter_by_permission_resolved claims resolved instance_id action assets =
      list_branch (resolved.admin_bypass && any should_enforce_cedar assets)
        (filter_by_permission build_principal_entity builds_uids builds_request parses_uid
          is_allowed claims resolved.effective_groups action assets)
        claims instance_id action assets

  -- `filter_by_permission_batched_resolved`
  unfoldable pub filter_by_permission_batched_resolved :
      JwtClaims → ResolvedAuthz → Option String → String → List Asset → Exec (List Asset)
  unfolding list_branch
  filter_by_permission_batched_resolved claims resolved instance_id action assets =
      list_branch (resolved.admin_bypass && any should_enforce_cedar assets)
        (filter_by_permission_batched build_principal_entity builds_uids builds_request parses_uid
          is_allowed claims resolved.effective_groups action assets)
        claims instance_id action assets

  -- `check_asset_permission_by_id`
  unfoldable pub check_asset_permission_by_id : JwtClaims → String → String → Exec (Unit {0})
  unfolding lift
  check_asset_permission_by_id claims action asset_id = do
    asset ← Rows.get_by_id asset_id
    resolved ← resolve_instance_authz claims
    lift (
        check_permission build_principal_entity builds_uids builds_request parses_uid is_allowed
          claims resolved.effective_groups action asset)

  -- `check_relation_permission`
  unfoldable pub check_relation_permission : JwtClaims → String → String → String → Exec (Unit {0})
  unfolding check_asset_permission_by_id
  check_relation_permission claims action from_asset_id to_asset_id = do
    check_asset_permission_by_id claims "View" from_asset_id
    check_asset_permission_by_id claims action to_asset_id
