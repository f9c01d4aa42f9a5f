-- ===== src/Assets/Search.antt =====
-- `search`, `search_compact`, `count_search` and `get_contents` of
-- src/repository/sqlite_asset_repository.rs. Which characters are alphanumeric and which rows an
-- FTS5 expression matches is not in the repository: both are parameters.
pub mod Covered
use Prim.Native.Char.{Char, code}
use pdt.Base.{
  ℕ, String, Bool, true, false, not, Option, none, some, List, [], ◌∷◌, ◌==◌, ◌&&◌, map, filter,
  any, length, join, concat, is_empty, if◌then◌else◌,
}
use mathlib.Core.Option
use pdt.Model.Asset.{Asset}
use pdt.Model.World.{Exec, pure, query}
use pdt.Assets.Rows.{is_live}
use pdt.Assets.Pages.{Cursor, Place, updated_at, desc, place, has_tag, select_rows, page_of}
use pdt.Base.Paging.{cut}

-- One character read from the right: it goes on the part under way, or a separator begins one.
unfoldable pub split_at : Bool → Char → List String → List String
split_at true c [] = String.◌∷◌ c String.[] ∷ []
split_at true c (part ∷ parts) = String.◌∷◌ c part ∷ parts
split_at false c parts = String.[] ∷ parts

-- A token as an FTS5 phrase
unfoldable pub quote : String → String
quote t = concat "\"" (concat t "\"")

module _ (is_alphanumeric : ℕ → Bool) where
  -- `raw.split(|c| !c.is_alphanumeric())`
  unfoldable pub split : String → List String
  unfolding split_at
  split String.[] = String.[] ∷ []
  split (String.◌∷◌ c s) = split_at (is_alphanumeric (code c)) c (split s)

  -- `.filter(|t| !t.is_empty())`
  unfoldable pub tokens : String → List String
  unfolding split
  tokens raw = filter (λ t. not (t == "")) (split raw)

  -- `build_fts_match_query`
  unfoldable pub build_fts_match_query : String → String
  unfolding tokens quote
  build_fts_match_query raw = join " " (map quote (tokens raw))

  -- The expression to match, where one is left.
  unfoldable pub fts_query : Option String → Option String
  unfolding build_fts_match_query
  fts_query none = none
  fts_query (some raw) =
      if raw == ""
      then none
      else if build_fts_match_query raw == ""
      then none
      else some (build_fts_match_query raw)

-- Each tag filter is an `EXISTS`.
unfoldable pub has_tags : List (String × String) → Asset → Bool
unfolding has_tag
has_tags [] a = true
has_tags ((category, value) ∷ filters) a = has_tag category value a && has_tags filters a

module _ (fts_match : String → Asset → Bool) where
  -- `a.rowid IN (SELECT … WHERE assets_fts MATCH ?)`, or no condition
  unfoldable pub is_match : Option String → Asset → Bool
  is_match none a = true
  is_match (some expression) a = fts_match expression a

module _ (is_alphanumeric : ℕ → Bool) (fts_match : String → Asset → Bool) where
  -- The filter of a search.
  unfoldable pub is_hit : Option String → List (String × String) → Asset → Bool
  unfolding is_match has_tags fts_query
  is_hit text filters a =
      is_match fts_match (fts_query is_alphanumeric text) a && has_tags filters a

  -- `search`: a row is answered once, since no condition multiplies rows.
  unfoldable pub search :
      Option String → List (String × String) → ℕ → Option Cursor → Exec (List Asset × Option Place)
  unfolding page_of is_hit
  search text filters limit cursor =
      query λ s. page_of updated_at desc (is_hit text filters) limit cursor s.assets

  -- `count_search`
  unfoldable pub count_search : Option String → List (String × String) → Exec ℕ
  unfolding is_hit is_live
  count_search text filters =
      query λ s. length (filter (λ a. is_live a && is_hit text filters a) s.assets)

-- The row of the compact page: no content and no metadata.
unfoldable pub compact : Asset → Asset
compact a = record a { content = none; metadata = [] }

-- `search_compact`
unfoldable pub search_compact :
    (ℕ → Bool)
    → (String → Asset → Bool)
    → Option String
    → List (String × String)
    → ℕ
    → Option Cursor
    → Exec (List Asset × Option Place)
unfolding compact is_hit select_rows cut
search_compact is_alphanumeric fts_match text filters limit cursor = query λ s.
    cut (place updated_at) limit (
      map compact (
        select_rows updated_at desc (is_hit is_alphanumeric fts_match text filters) limit cursor
          s.assets))

-- `if let Some(c) = content { out.insert(id, c) }`
unfoldable pub keep_content :
    String → Option String → List (String × String) → List (String × String)
keep_content id none rest = rest
keep_content id (some content) rest = (id, content) ∷ rest

-- `WHERE id IN (…) AND deleted_at IS NULL`, with the contents that are there
unfoldable pub contents_of : List String → List Asset → List (String × String)
unfolding is_live keep_content
contents_of ids [] = []
contents_of ids (a ∷ rows) =
    let rest = contents_of ids rows in
    if is_live a && any (λ id. id == a.id) ids then keep_content a.id a.content rest else rest

-- `get_contents`, by the entries of its map
unfoldable pub get_contents : List String → Exec (List (String × String))
unfolding contents_of
get_contents ids = if is_empty ids then pure [] else query λ s. contents_of ids s.assets
