-- ===== src/Cedar/Filter/Equivalent.antt =====
-- The batched filter answers what the filter row by row answers.
use pdt.Base.{
  String, ◌≡◌, refl, sym, ap, ◌∙◌, ◌⊎◌, inl, inr, Bool, true, false, some, List, Memᴰ, Option-cases,
}
use pdt.Model.Error.{Result, ok, err, panic}
use pdt.Model.Asset.{Asset, AuthContext}
use pdt.Cedar.Entity.{
  JwtClaims, AssetEntity, PrincipalEntity, asset_to_cedar_entity,
  user_to_cedar_principal_with_groups,
}
use pdt.Cedar.Filter.{
  should_enforce_cedar, deny_on_error, cedar_band_key, evaluate_permission, filter_by_permission,
  filter_by_permission_batched,
}
use pdt.Cedar.Filter.Batch.{filter_bands-eq}
use pdt.Cedar.Filter.Bands.{IsPlain, band, band-eq, key-parts, part_at}

deny-cases : (r : Result Bool) → ((v : Bool) × (deny_on_error r ≡ ok v)) ⊎ (deny_on_error r ≡ panic)
unfolding deny_on_error
deny-cases (ok v) = inl (v, refl)
deny-cases (err e) = inl (false, refl)
deny-cases panic = inr refl

module _ (build_principal_entity : JwtClaims → Bool)
    (builds_uids builds_request : JwtClaims → String → String → Bool) (parses_uid : String → Bool)
    (is_allowed : PrincipalEntity → String → AssetEntity → Bool) where
  -- No policy reads the uid of the resource or the order of a set.
  pub record ReadsBands : Type 0 where
    pub reads_bands :
        (p : PrincipalEntity) (action : String) (e : AssetEntity)
        → is_allowed p action e ≡ is_allowed p action (band e)

  -- The requests for the enforced assets of one band of a list are all built, or fail alike.
  pub record BuildsAlike (claims : JwtClaims) (action : String) (assets : List Asset) : Type 0 where
    pub alike :
        (a b : Asset)
        → Memᴰ a assets
        → Memᴰ b assets
        → should_enforce_cedar a ≡ true
        → should_enforce_cedar b ≡ true
        → cedar_band_key a ≡ cedar_band_key b
        → (builds_uids claims action a.id ≡ builds_uids claims action b.id)
          × (builds_request claims action a.id ≡ builds_request claims action b.id)

  module _ (reads : ReadsBands) (claims : JwtClaims) (pdt_groups : List String) (action : String)
      (assets : List Asset) (builds : BuildsAlike claims action assets)
      (plain : (a : Asset) → Memᴰ a assets → IsPlain a) where
    abbrev decide : Asset → Result Bool
    decide a = deny_on_error (
        evaluate_permission build_principal_entity builds_uids builds_request parses_uid is_allowed
          claims pdt_groups action a)

    settled : (a : Asset) → ((v : Bool) × (decide a ≡ ok v)) ⊎ (decide a ≡ panic)
    settled a = deny-cases (
        evaluate_permission build_principal_entity builds_uids builds_request parses_uid is_allowed
          claims pdt_groups action a)

    enforced-some :
        (a : Asset)
        → should_enforce_cedar a ≡ true
        → (ctx : AuthContext) × (a.auth_context ≡ some ctx)
    unfolding should_enforce_cedar
    enforced-some a on = elim (Option-cases a.auth_context) [
      | inl absent ↦ absurd (cc (rw absent at on))
      | inr there ↦ there
    ]

    same :
        (a b : Asset)
        → Memᴰ a assets
        → Memᴰ b assets
        → should_enforce_cedar a ≡ true
        → should_enforce_cedar b ≡ true
        → cedar_band_key a ≡ cedar_band_key b
        → decide a ≡ decide b
    unfolding evaluate_permission
    same a b ma mb on on' e =
        let pa = plain a ma in
        let pb = plain b mb in
        let (ctx, h) = enforced-some a on in
        let (ctx', h') = enforced-some b on' in
        let equal = key-parts a b pa pb e in
        let p = user_to_cedar_principal_with_groups build_principal_entity claims pdt_groups in
        let allowed : is_allowed p action (asset_to_cedar_entity a)
            ≡ is_allowed p action (asset_to_cedar_entity b) =
          reads.reads_bands p action _
          ∙ ap (is_allowed p action) (band-eq a b pa pb equal ctx ctx' h h')
          ∙ sym (reads.reads_bands p action _) in
        let (uids, request) = builds.alike a b ma mb on on' e in
        let creator : a.created_by ≡ b.created_by = part_at a b pa pb equal 0 in
        rw (allowed, uids, request, creator) refl

    -- Where no policy reads the uid of a resource or the order of its groups, the requests for the
    -- listed assets of one band are all built or fail alike, and no part of a band key has the
    -- key's separators or is empty where it may not be, one decision for each band keeps the same
    -- assets in the same order as one decision for each asset, or both panic.
    pub filter_by_permission_batched-eq :
        filter_by_permission_batched build_principal_entity builds_uids builds_request parses_uid
          is_allowed claims pdt_groups action assets
        ≡ filter_by_permission build_principal_entity builds_uids builds_request parses_uid
            is_allowed claims pdt_groups action assets
    unfolding filter_by_permission_batched filter_by_permission
    filter_by_permission_batched-eq =
        filter_bands-eq should_enforce_cedar decide cedar_band_key assets
          (record { settled = settled; same = same })
