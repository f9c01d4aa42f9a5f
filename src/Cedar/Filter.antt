-- ===== src/Cedar/Filter.antt =====
-- src/cedar/enforcement.rs: the filters of a list of assets, row by row and band by band.
pub mod Batch
pub mod Bands
pub mod Equivalent
pub mod Verdicts
use pdt.Base.{
  ℕ, String, Bool, true, false, not, Option, none, some, List, [], ◌∷◌, ◌==◌, ◌&&◌, ◌||◌, find?,
  filter, if◌then◌else◌, join,
}
use pdt.Base.Order.{sort}
use mathlib.Core.Option
use pdt.Model.Error.{ApiError, Result, ok, err, panic, ◌>>=◌}
use pdt.Model.Asset.{Asset, AuthContext, Tag}
use pdt.Cedar.Entity.{
  JwtClaims, AssetEntity, PrincipalEntity, tag_value, asset_to_cedar_entity,
  user_to_cedar_principal_with_groups,
}

-- `should_enforce_cedar`
unfoldable pub should_enforce_cedar : Asset → Bool
should_enforce_cedar asset = elim asset.auth_context [ none ↦ false | some ctx ↦ true ]

-- A verdict for one asset: an error denies.
unfoldable pub deny_on_error : Result Bool → Result Bool
deny_on_error (ok allowed) = ok allowed
deny_on_error (err e) = ok false
deny_on_error panic = panic

-- The filters, by what is enforced, by the decision on an asset and by its band.
module _ {A : Type 0} (enforced : A → Bool) (decide : A → Result Bool) where
  -- Every asset by its own decision.
  unfoldable pub filter_rows : List A → Result (List A)
  filter_rows [] = ok []
  filter_rows (a ∷ rows) = do
    allowed ← if enforced a then decide a else ok true
    rest ← filter_rows rows
    ok (if allowed then a ∷ rest else rest)

  module _ (key : A → String) where
    -- `HashMap::get`
    unfoldable pub verdict_of : List (String × Bool) → String → Option Bool
    verdict_of verdicts k = Option.map (λ e. e.1) (find? (λ e. e.0 == k) verdicts)

    -- One decision for each band, by the first asset of it.
    unfoldable pub band_verdicts : List A → List (String × Bool) → Result (List (String × Bool))
    unfolding verdict_of
    band_verdicts [] verdicts = ok verdicts
    band_verdicts (a ∷ rows) verdicts = elim (enforced a) [
      | false ↦ band_verdicts rows verdicts
      | true ↦ elim (verdict_of verdicts (key a)) [
        | some v ↦ band_verdicts rows verdicts
        | none ↦ decide a >>= (λ v. band_verdicts rows ((key a, v) ∷ verdicts))
      ]
    ]

    unfoldable pub is_kept : List (String × Bool) → A → Bool
    unfolding verdict_of
    is_kept verdicts a =
        if enforced a
        then (elim (verdict_of verdicts (key a)) [ none ↦ false | some v ↦ v ])
        else true

    unfoldable pub filter_bands : List A → Result (List A)
    unfolding band_verdicts is_kept
    filter_bands rows = band_verdicts rows [] >>= (λ verdicts. ok (filter (is_kept verdicts) rows))

-- The parts of the key that the auth context gives.
unfoldable pub context_key : Option AuthContext → String × String × String
context_key none = ("", "", "")
context_key (some ctx) =
    (ctx.visibility, ctx.confidentiality, join "," (sort (λ g. g) ctx.owner_groups))

-- `unwrap_or_default`
abbrev pub or_empty : Option String → String
or_empty none = ""
or_empty (some v) = v

unfoldable pub tag_or_empty : String → List Tag → String
unfolding tag_value
tag_or_empty category tags = or_empty (tag_value category tags)

-- `cedar_band_key`
unfoldable pub cedar_band_key : Asset → String
unfolding context_key tag_or_empty
cedar_band_key asset =
    let (vis, conf, groups) = context_key asset.auth_context in
    join "\u{1}" (
      asset.created_by
      ∷ vis
      ∷ conf
      ∷ groups
      ∷ tag_or_empty "status" asset.tags
      ∷ tag_or_empty "asset_type" asset.tags
      ∷ [])

-- pep and Cedar are no code of this repository: whether the uids of a request and the request
-- itself are built, whether the text of a uid parses, and what the policies decide.
module _ (build_principal_entity : JwtClaims → Bool)
    (builds_uids builds_request : JwtClaims → String → String → Bool) (parses_uid : String → Bool)
    (is_allowed : PrincipalEntity → String → AssetEntity → Bool) where
  -- `evaluate_permission`; the entity of an asset panics on a creator that makes no uid.
  unfoldable pub evaluate_permission : JwtClaims → List String → String → Asset → Result Bool
  unfolding user_to_cedar_principal_with_groups asset_to_cedar_entity
  evaluate_permission claims pdt_groups action asset =
      if not (builds_uids claims action asset.id)
      then err ApiError.forbidden
      else if not (parses_uid asset.created_by)
      then panic
      else if not (builds_request claims action asset.id)
      then err ApiError.forbidden
      else ok (
          is_allowed (user_to_cedar_principal_with_groups build_principal_entity claims pdt_groups)
            action (asset_to_cedar_entity asset))

  -- `check_permission`
  unfoldable pub check_permission : JwtClaims → List String → String → Asset → Result (Unit {0})
  unfolding should_enforce_cedar evaluate_permission
  check_permission claims pdt_groups action asset =
      if should_enforce_cedar asset
      then (do
        allowed ← evaluate_permission claims pdt_groups action asset
        if allowed then ok tt else err ApiError.forbidden)
      else ok tt

  -- `filter_by_permission`
  unfoldable pub filter_by_permission :
      JwtClaims → List String → String → List Asset → Result (List Asset)
  unfolding should_enforce_cedar deny_on_error evaluate_permission filter_rows
  filter_by_permission claims pdt_groups action assets =
      filter_rows should_enforce_cedar
        (λ asset. deny_on_error (evaluate_permission claims pdt_groups action asset)) assets

  -- `filter_by_permission_batched`
  unfoldable pub filter_by_permission_batched :
      JwtClaims → List String → String → List Asset → Result (List Asset)
  unfolding should_enforce_cedar deny_on_error evaluate_permission cedar_band_key filter_bands
  filter_by_permission_batched claims pdt_groups action assets =
      filter_bands should_enforce_cedar
        (λ asset. deny_on_error (evaluate_permission claims pdt_groups action asset)) cedar_band_key
        assets
