-- ===== src/Collections/Repository.antt =====
-- src/repository/sqlite_collection_repository.rs: the statements on the tables `collections`,
-- `collection_tags` and `collection_assets`.
use pdt.Base.{
  ℕ, zero, suc, String, Bool, true, not, Option, none, some, List, [], ◌∷◌, ◌++◌, ◌==◌, ◌&&◌, ◌||◌,
  map, filter, any, find?, take, get_last?, length, ltb, if◌then◌else◌,
}
use mathlib.Core.Option
use pdt.Base.Order.{text_lt, sort}
use pdt.Model.Error.{ApiError}
use pdt.Model.Asset.{Tag, AddTagRequest}
use pdt.Model.Relation.{Collection, CreateCollectionRequest, UpdateCollectionRequest}
use pdt.Model.World.{
  Store, Exec, pure, query, execute, ensure, mint, now, when_some, for_each, ◌>>=◌, ◌>>◌,
}
use pdt.Assets.Rows.{has_row, or_not_found}
use pdt.Assets.Repository.{new_tag, is_none, when, require_affected}

unfoldable pub has_id : String → Collection → Bool
has_id id c = c.id == id

-- `UPDATE collections SET … WHERE …`, with `rows_affected`
unfoldable pub update_where :
    (Collection → Bool) → (Collection → Collection) → Store → Option (ℕ × Store)
update_where p f s = some (
  length (filter p s.collections),
  record s { collections = map (λ c. if p c then f c else c) s.collections },
)

-- `INSERT INTO collections`: the primary key is new.
unfoldable pub insert_collection : Collection → Store → Option (Unit {0} × Store)
unfolding has_id
insert_collection c s =
    if any (has_id c.id) s.collections
    then none
    else some (tt, record s { collections = s.collections ++ c ∷ [] })

-- `INSERT INTO collection_tags`: the collection has a row, and the primary key is new.
unfoldable pub insert_tag : String → Tag → Store → Option (Unit {0} × Store)
unfolding has_id
insert_tag id tag s =
    if not (any (has_id id) s.collections)
      || any (λ c. any (λ t. t.id == tag.id) c.tags) s.collections
    then none
    else some (
      tt,
      record s {
        collections =
            map (λ c. if has_id id c then record c { tags = c.tags ++ tag ∷ [] } else c)
              s.collections;
      },
    )

unfoldable pub add_new_tag : String → String → ℕ → AddTagRequest → Exec (Unit {0})
unfolding insert_tag
add_new_tag id user at request = do
  tag_id ← mint
  execute (insert_tag id (new_tag tag_id user at request))

-- The row of a collection, with its tags and the ids of its assets.
unfoldable pub get_by_id : String → Exec Collection
unfolding has_id or_not_found
get_by_id id = do found ← query λ s. find? (has_id id) s.collections; or_not_found found

unfoldable pub new_collection : String → ℕ → String → CreateCollectionRequest → Collection
new_collection id at user request = record {
  id = id;
  name = request.name;
  description = request.description;
  tags = [];
  asset_ids = [];
  created_at = at;
  updated_at = at;
  created_by = user;
  updated_by = user;
}

-- `create`: the tags are read back for the answer.
unfoldable pub create : CreateCollectionRequest → String → Exec Collection
unfolding new_collection insert_collection add_new_tag
create request user = do
  id ← mint
  at ← now
  execute (insert_collection (new_collection id at user request))
  for_each (add_new_tag id user at) request.tags
  get_by_id id

unfoldable pub update_stamped : String → ℕ → String → (Collection → Collection) → Exec (Unit {0})
unfolding update_where has_id
update_stamped id at user f = do
  execute (update_where (has_id id) (λ c. record (f c) { updated_at = at; updated_by = user }))
  pure tt

-- `update`
unfoldable pub update : String → UpdateCollectionRequest → String → Exec Collection
unfolding update_stamped
update id request user = do
  at ← now
  get_by_id id
  when_some request.name (λ name. update_stamped id at user (λ c. record c { name = name }))
  when_some request.description
      (λ text. update_stamped id at user (λ c. record c { description = some text }))
  when (is_none request.name && is_none request.description) (update_stamped id at user (λ c. c))
  get_by_id id

-- `DELETE FROM collections WHERE id = ?`, with `rows_affected`; the rows of its tags and assets go
-- with it.
unfoldable pub delete_collection : String → Store → Option (ℕ × Store)
unfolding has_id
delete_collection id s = some (
  length (filter (has_id id) s.collections),
  record s { collections = filter (λ c. not (has_id id c)) s.collections },
)

-- `delete`
unfoldable pub delete : String → Exec (Unit {0})
unfolding delete_collection require_affected
delete id = do affected ← execute (delete_collection id); require_affected affected

-- `id > cursor`, or no condition without a cursor
unfoldable pub is_after : Option String → Collection → Bool
is_after none c = true
is_after (some cursor) c = text_lt cursor c.id

-- `WHERE id > ? ORDER BY id ASC LIMIT ?`, with one row more than the limit
unfoldable pub rows_after : ℕ → Option String → List Collection → List Collection
unfolding is_after
rows_after limit cursor rows = take (suc limit) (filter (is_after cursor) (sort (λ c. c.id) rows))

-- The cursor is taken from the rows before they are cut to the limit.
unfoldable pub page : ℕ → List Collection → List Collection × Option String
page limit rows =
    if ltb limit (length rows)
    then (take limit rows, Option.map (λ c. c.id) (get_last? rows))
    else (rows, none)

-- `list`
unfoldable pub list : ℕ → Option String → Exec (List Collection × Option String)
unfolding rows_after page
list limit cursor = query λ s. page limit (rows_after limit cursor s.collections)

-- `UPDATE collections SET updated_at = ? WHERE id = ?`
unfoldable pub touch : String → Exec (Unit {0})
unfolding update_where has_id
touch id = do
  at ← now
  execute (update_where (has_id id) (λ c. record c { updated_at = at }))
  pure tt

-- `SELECT COUNT(*) FROM collections WHERE id = ?`
unfoldable pub require_collection : String → Exec (Unit {0})
unfolding has_id
require_collection id = do
  found ← query λ s. any (has_id id) s.collections
  ensure found ApiError.not_found

-- `HashSet`-like look-up in the rows of `collection_assets`
unfoldable pub holds : String → Collection → Bool
holds asset_id c = any (λ x. x == asset_id) c.asset_ids

-- `INSERT OR IGNORE INTO collection_assets`: the collection and the asset have rows; a row that is
-- there stays.
unfoldable pub insert_member : String → String → Store → Option (Unit {0} × Store)
unfolding has_id has_row holds
insert_member id asset_id s =
    if not (any (has_id id) s.collections) || not (has_row s.assets asset_id)
    then none
    else some (
      tt,
      record s {
        collections =
            map
              (λ c.
                if has_id id c && not (holds asset_id c)
                then record c { asset_ids = c.asset_ids ++ asset_id ∷ [] }
                else c)
              s.collections;
      },
    )

-- `add_asset`
unfoldable pub add_asset : String → String → Exec (Unit {0})
unfolding require_collection insert_member touch
add_asset id asset_id = do require_collection id; execute (insert_member id asset_id); touch id

-- The collection less one asset id.
unfoldable pub without : String → Collection → Collection
without asset_id c = record c { asset_ids = filter (λ x. not (x == asset_id)) c.asset_ids }

-- `DELETE FROM collection_assets WHERE collection_id = ? AND asset_id = ?`, with `rows_affected`
unfoldable pub delete_member : String → String → Store → Option (ℕ × Store)
unfolding has_id holds without
delete_member id asset_id s = some (
  length (filter (λ c. has_id id c && holds asset_id c) s.collections),
  record s { collections = map (λ c. if has_id id c then without asset_id c else c) s.collections },
)

-- Where no row is affected, the collection has to be there.
unfoldable pub require_member : ℕ → String → Exec (Unit {0})
unfolding require_collection
require_member zero id = require_collection id
require_member (suc n) id = pure tt

-- `remove_asset`
unfoldable pub remove_asset : String → String → Exec (Unit {0})
unfolding delete_member require_member touch
remove_asset id asset_id = do
  affected ← execute (delete_member id asset_id)
  require_member affected id
  touch id

-- `DELETE FROM collection_assets WHERE asset_id = ?`
unfoldable pub delete_members : String → Store → Option (ℕ × Store)
unfolding holds without
delete_members asset_id s = some (
  length (filter (holds asset_id) s.collections),
  record s { collections = map (without asset_id) s.collections },
)

-- `remove_asset_from_all`
unfoldable pub remove_asset_from_all : String → Exec (Unit {0})
unfolding delete_members update_where holds
remove_asset_from_all asset_id = do
  execute (delete_members asset_id)
  at ← now
  execute (update_where (holds asset_id) (λ c. record c { updated_at = at }))
  pure tt
