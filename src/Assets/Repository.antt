-- ===== src/Assets/Repository.antt =====
-- src/repository/sqlite_asset_repository.rs: the statements that write the tables `assets`, `tags`
-- and `asset_metadata`.
pub mod Rows
pub mod Adopted
use pdt.Base.{
  ℕ, zero, suc, String, Bool, true, false, not, Option, none, some, List, [], ◌∷◌, ◌++◌, ◌==◌, ◌&&◌,
  ◌||◌, map, filter, any, length, if◌then◌else◌,
}
use pdt.Model.Error.{ApiError}
use pdt.Model.Asset.{
  Asset, AuthContext, Tag, AddTagRequest, CreateAssetRequest, UpdateAssetRequest, Metadata, Value,
}
use pdt.Model.Audit.{AuditEntry, AuditAction, Changes}
use pdt.Model.World.{
  Store, Exec, pure, raise, query, execute, ensure, mint, now, when_some, for_each, transaction,
  ◌>>=◌, ◌>>◌,
}
use pdt.Audit.Repository as Trail
use pdt.Assets.Birth.{requested_or_default}
use pdt.Assets.Rows.{is_live, has_row, get_by_id}

-- `UPDATE assets SET … WHERE …`, with `rows_affected`
unfoldable pub update_where : (Asset → Bool) → (Asset → Asset) → Store → Option (ℕ × Store)
update_where p f s =
    some
      (length (filter p s.assets), record s { assets = map (λ a. if p a then f a else a) s.assets })

unfoldable pub has_id : String → Asset → Bool
has_id id a = a.id == id

-- `id = ? AND deleted_at IS NULL`
unfoldable pub is_live_id : String → Asset → Bool
unfolding is_live
is_live_id id a = a.id == id && is_live a

-- `INSERT INTO assets`: the primary key is new.
unfoldable pub insert_asset : Asset → Store → Option (Unit {0} × Store)
unfolding has_row
insert_asset a s =
    if has_row s.assets a.id then none else some (tt, record s { assets = s.assets ++ a ∷ [] })

-- `INSERT INTO tags`: the asset has a row, and the primary key is new.
unfoldable pub insert_tag : String → Tag → Store → Option (Unit {0} × Store)
unfolding has_row has_id
insert_tag asset_id tag s =
    if not (has_row s.assets asset_id) || any (λ a. any (λ t. t.id == tag.id) a.tags) s.assets
    then none
    else some (
      tt,
      record s {
        assets =
            map (λ a. if has_id asset_id a then record a { tags = a.tags ++ tag ∷ [] } else a)
              s.assets;
      },
    )

-- `INSERT INTO asset_metadata`: the asset has a row, and no value for the key.
unfoldable pub insert_metadata : String → String × Value → Store → Option (Unit {0} × Store)
unfolding has_row has_id
insert_metadata asset_id pair s =
    if not (has_row s.assets asset_id)
      || any (λ a. has_id asset_id a && any (λ m. m.0 == pair.0) a.metadata) s.assets
    then none
    else some (
      tt,
      record s {
        assets =
            map
              (λ a.
                if has_id asset_id a then record a { metadata = a.metadata ++ pair ∷ [] } else a)
              s.assets;
      },
    )

-- The base row of a new asset. An absent context is stored as the default one.
unfoldable pub new_asset : String → ℕ → String → CreateAssetRequest → Asset
unfolding requested_or_default
new_asset id at user request = record {
  id = id;
  title = request.title;
  content = request.content;
  tags = [];
  metadata = [];
  created_at = at;
  updated_at = at;
  created_by = user;
  updated_by = user;
  deleted_at = none;
  auth_context = some (requested_or_default request.auth_context);
}

unfoldable pub new_tag : String → String → ℕ → AddTagRequest → Tag
new_tag id user at request = record {
  id = id;
  category = request.category;
  value = request.value;
  added_by = user;
  added_at = at;
}

-- One round of `for tag_req in &request.tags`
unfoldable pub add_new_tag : String → String → ℕ → AddTagRequest → Exec (Unit {0})
unfolding new_tag insert_tag
add_new_tag asset_id user at request = do
  tag_id ← mint
  execute (insert_tag asset_id (new_tag tag_id user at request))

-- The rows of a new asset: its own, those of its tags, and those of its metadata.
unfoldable pub insert_rows : String → ℕ → String → CreateAssetRequest → Exec (Unit {0})
unfolding insert_asset new_asset add_new_tag insert_metadata
insert_rows id at user request = do
  execute (insert_asset (new_asset id at user request))
  for_each (add_new_tag id user at) request.tags
  for_each (λ pair. execute (insert_metadata id pair)) request.metadata

-- `create`
unfoldable pub create : CreateAssetRequest → String → Exec Asset
create request user = do at ← now; id ← mint; insert_rows id at user request; get_by_id id

-- An update that also stamps the time and the user.
unfoldable pub update_stamped : String → ℕ → String → (Asset → Asset) → Exec (Unit {0})
unfolding update_where is_live_id
update_stamped id at user f = do
  execute (update_where (is_live_id id) (λ a. record (f a) { updated_at = at; updated_by = user }))
  pure tt

-- The new metadata in place of the old.
unfoldable pub replace_metadata : String → ℕ → String → Metadata → Exec (Unit {0})
unfolding update_where has_id insert_metadata update_stamped
replace_metadata id at user pairs = do
  execute (update_where (has_id id) (λ a. record a { metadata = [] }))
  for_each (λ pair. execute (insert_metadata id pair)) pairs
  update_stamped id at user (λ a. a)

unfoldable pub is_none : {A : Type 0} → Option A → Bool
is_none none = true
is_none (some a) = false

-- `if b { m }`
unfoldable pub when : Bool → Exec (Unit {0}) → Exec (Unit {0})
when true m = m
when false m = pure tt

-- `update`
unfoldable pub update : String → UpdateAssetRequest → String → Exec Asset
update id request user = do
  at ← now
  get_by_id id
  when_some request.title (λ title. update_stamped id at user (λ a. record a { title = title }))
  when_some request.content
      (λ content. update_stamped id at user (λ a. record a { content = some content }))
  when_some request.metadata (replace_metadata id at user)
  when (is_none request.title && (is_none request.content && is_none request.metadata))
      (update_stamped id at user (λ a. a))
  get_by_id id

-- `if result.rows_affected() == 0 { return Err(NotFound) }`
unfoldable pub require_affected : ℕ → Exec (Unit {0})
require_affected zero = raise ApiError.not_found
require_affected (suc n) = pure tt

-- `soft_delete`
unfoldable pub soft_delete : String → Exec (Unit {0})
unfolding update_where is_live_id require_affected
soft_delete id = do
  at ← now
  affected ← execute (update_where (is_live_id id) (λ a. record a { deleted_at = some at }))
  require_affected affected

-- `UPDATE assets SET updated_at = ? WHERE id = ?`
unfoldable pub touch : String → Exec (Unit {0})
unfolding update_where has_id
touch id = do
  at ← now
  execute (update_where (has_id id) (λ a. record a { updated_at = at }))
  pure tt

-- `add_tag`
unfoldable pub add_tag : String → AddTagRequest → String → Exec Tag
unfolding new_tag insert_tag touch
add_tag asset_id request user = do
  get_by_id asset_id
  tag_id ← mint
  at ← now
  execute (insert_tag asset_id (new_tag tag_id user at request))
  touch asset_id
  pure (new_tag tag_id user at request)

-- `DELETE FROM tags WHERE id = ? AND asset_id = ?`, with `rows_affected`
unfoldable pub delete_tag : String → String → Store → Option (ℕ × Store)
unfolding has_id
delete_tag tag_id asset_id s = some (
  length (filter (λ a. has_id asset_id a && any (λ t. t.id == tag_id) a.tags) s.assets),
  record s {
    assets =
        map
          (λ a.
            if has_id asset_id a
            then record a { tags = filter (λ t. not (t.id == tag_id)) a.tags }
            else a)
          s.assets;
  },
)

-- Where no row is affected, the asset has to be live.
unfoldable pub require_asset : ℕ → String → Exec (Unit {0})
require_asset zero id = do get_by_id id; pure tt
require_asset (suc n) id = pure tt

-- `remove_tag`
unfoldable pub remove_tag : String → String → Exec (Unit {0})
unfolding delete_tag require_asset touch
remove_tag asset_id tag_id = do
  affected ← execute (delete_tag tag_id asset_id)
  require_asset affected asset_id
  touch asset_id

-- `update_auth_context`
unfoldable pub update_auth_context : String → AuthContext → Exec Asset
unfolding update_where is_live_id require_affected
update_auth_context id ctx = do
  at ← now
  affected ←
      execute
        (update_where (is_live_id id) (λ a. record a { auth_context = some ctx; updated_at = at }))
  require_affected affected
  get_by_id id

-- The body of the transaction of `adopt`: the rows of the asset and the entry of the adoption.
unfoldable pub adopt_rows : String → ℕ → CreateAssetRequest → String → String → Exec (Unit {0})
unfolding insert_rows
adopt_rows id at request user provenance = do
  insert_rows id at user request
  entry_id ← mint
  execute (
      Trail.insert_entry (record {
        id = entry_id;
        entity_type = "asset";
        entity_id = id;
        action = AuditAction.adopt;
        changes = Changes.adopted request.title provenance (length request.tags);
        user_id = user;
        timestamp = at;
      }))
  pure tt

-- `adopt`: an insert that does not fail affects one row.
unfoldable pub adopt : String → CreateAssetRequest → String → String → Exec Asset
unfolding adopt_rows has_row
adopt id request user provenance = do
  taken ← query λ s. has_row s.assets id
  ensure (not taken) ApiError.conflict
  at ← now
  transaction (adopt_rows id at request user provenance)
  get_by_id id
