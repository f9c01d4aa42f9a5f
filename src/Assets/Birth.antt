-- ===== src/Assets/Birth.antt =====
-- src/service/asset_service.rs: the authorization context that an asset is born with.
pub mod Guarded
use pdt.Base.{
  String, Bool, true, false, not, Option, none, some, List, ◌==◌, ◌&&◌, is_empty, if◌then◌else◌,
}
use pdt.Model.Asset.{AuthContext, default_context}

unfoldable pub requested_or_default : Option AuthContext → AuthContext
requested_or_default none = default_context
requested_or_default (some ctx) = ctx

-- `guard_birth_auth_context`; its warnings are not modelled.
unfoldable pub guard_birth_auth_context : Option AuthContext → List String → AuthContext
unfolding requested_or_default
guard_birth_auth_context requested caller_groups =
    let ctx = requested_or_default requested in
    if ctx.visibility == ""
    then (if not (is_empty ctx.owner_groups)
        then record ctx { visibility = "team" }
        else if not (is_empty caller_groups)
        then record ctx { visibility = "team"; owner_groups = caller_groups }
        else record ctx { visibility = "private" })
    else if ctx.visibility == "team" && is_empty ctx.owner_groups
    then (if not (is_empty caller_groups)
        then record ctx { owner_groups = caller_groups }
        else record ctx { visibility = "private" })
    else ctx
