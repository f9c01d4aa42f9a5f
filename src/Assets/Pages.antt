-- ===== src/Assets/Pages.antt =====
-- `list` and `count_list` of src/repository/sqlite_asset_repository.rs: the live assets that a
-- filter selects, by pages behind a cursor.
pub mod Covered
use pdt.Base.{
  ℕ, suc, String, Bool, true, false, not, Option, none, some, List, [], ◌∷◌, ◌++◌, ◌==◌, ◌&&◌, ◌||◌,
  map, filter, any, length, take, ltb, eqb, eq_ignore_ascii_case, if◌then◌else◌,
}
use pdt.Base.Order.{text_lt}
use pdt.Base.Sort.{sort}
use pdt.Base.Paging.{cut}
use pdt.Model.Asset.{Asset, Tag}
use pdt.Model.World.{Exec, query}
use pdt.Assets.Rows.{is_live}

pub data SortField : Type 0 where
  created_at updated_at : SortField

pub data Direction : Type 0 where
  asc desc : Direction

-- `match sort_by`
unfoldable pub sort_field : String → SortField
sort_field s = if s == "created_at" then created_at else updated_at

-- `order.eq_ignore_ascii_case("asc")`
unfoldable pub direction : String → Direction
direction s = if eq_ignore_ascii_case s "asc" then asc else desc

unfoldable pub stamp : SortField → Asset → ℕ
stamp created_at a = a.created_at
stamp updated_at a = a.updated_at

-- The time and the id that a cursor `{date}|{id}` carries, and that the rows are ordered by.
abbrev pub Place : Type 0
Place = ℕ × String

unfoldable pub place : SortField → Asset → Place
unfolding stamp
place f a = (stamp f a, a.id)

-- `t < u OR (t = u AND i < j)`
unfoldable pub precedes : Place → Place → Bool
precedes (t, i) (u, j) = ltb t u || (eqb t u && text_lt i j)

-- The order of `ORDER BY`, which is the comparison of the cursor too.
unfoldable pub comes_before : Direction → Place → Place → Bool
unfolding precedes
comes_before asc p q = precedes p q
comes_before desc p q = precedes q p

-- What a client sends back as a cursor: a text with a separator, or none.
pub data Cursor : Type 0 where
  dated : Place → Cursor
  bare : String → Cursor

-- The condition of the cursor.
unfoldable pub is_behind : SortField → Direction → Option Cursor → Asset → Bool
unfolding comes_before place
is_behind f d none a = true
is_behind f d (some (dated p)) a = comes_before d p (place f a)
is_behind f asc (some (bare id)) a = text_lt id a.id
is_behind f desc (some (bare id)) a = text_lt a.id id

-- `EXISTS (SELECT 1 FROM tags …)`
unfoldable pub has_tag : String → String → Asset → Bool
has_tag category value a = any (λ t. t.category == category && t.value == value) a.tags

-- The filter of `list` by the type tag.
unfoldable pub is_of_type : Option String → Asset → Bool
unfolding has_tag
is_of_type none a = true
is_of_type (some value) a = has_tag "asset_type" value a

-- `WHERE deleted_at IS NULL AND … ORDER BY … LIMIT`, with one row more than the limit
unfoldable pub select_rows :
    SortField → Direction → (Asset → Bool) → ℕ → Option Cursor → List Asset → List Asset
unfolding is_live is_behind
select_rows f d p limit cursor rows = take (suc limit) (
    filter (is_behind f d cursor)
      (sort (comes_before d) (place f) (filter (λ a. is_live a && p a) rows)))

-- The page and its cursor, which is the place of its last asset.
unfoldable pub page_of :
    SortField
    → Direction
    → (Asset → Bool)
    → ℕ
    → Option Cursor
    → List Asset
    → List Asset × Option Place
unfolding select_rows cut
page_of f d p limit cursor rows = cut (place f) limit (select_rows f d p limit cursor rows)

-- `list`
unfoldable pub list :
    ℕ → Option Cursor → Option String → String → String → Exec (List Asset × Option Place)
unfolding page_of sort_field direction is_of_type
list limit cursor asset_type sort_by order = query λ s.
    page_of (sort_field sort_by) (direction order) (is_of_type asset_type) limit cursor s.assets

-- `count_list`
unfoldable pub count_list : Option String → Exec ℕ
unfolding is_of_type is_live
count_list asset_type =
    query λ s. length (filter (λ a. is_live a && is_of_type asset_type a) s.assets)
