-- ===== src/Assets/Rows.antt =====
-- The look-ups of src/repository/sqlite_asset_repository.rs in the `assets` table.
use pdt.Base.{String, Bool, true, false, Option, none, some, List, ◌==◌, ◌&&◌, any, find?}
use pdt.Model.Error.{ApiError}
use pdt.Model.Asset.{Asset}
use pdt.Model.World.{Exec, pure, raise, query, ◌>>=◌}

-- `deleted_at IS NULL`
unfoldable pub is_live : Asset → Bool
is_live a = elim a.deleted_at [ none ↦ true | some t ↦ false ]

-- `SELECT COUNT(*) FROM assets WHERE id = ?`, live or soft-deleted
unfoldable pub has_row : List Asset → String → Bool
has_row rows id = any (λ a. a.id == id) rows

-- `SELECT … FROM assets WHERE id = ? AND deleted_at IS NULL`
unfoldable pub find_live : List Asset → String → Option Asset
unfolding is_live
find_live rows id = find? (λ a. a.id == id && is_live a) rows

-- `exists`
unfoldable pub exists : String → Exec Bool
unfolding has_row
exists id = query λ s. has_row s.assets id

unfoldable pub or_not_found : {A : Type 0} → Option A → Exec A
or_not_found none = raise ApiError.not_found
or_not_found (some a) = pure a

-- `get_by_id`
unfoldable pub get_by_id : String → Exec Asset
unfolding find_live or_not_found
get_by_id id = do found ← query λ s. find_live s.assets id; or_not_found found
