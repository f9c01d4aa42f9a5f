-- ===== src/Assets/Search/Covered.antt =====
-- The pages of a search cover what it matches.
use pdt.Base.{ℕ, ◌<◌, String, ◌≡◌, Bool, Option, none, List, [], length}
use pdt.Base.Order.{IsKeyed}
use pdt.Model.Error.{ok}
use pdt.Model.Asset.{Asset}
use pdt.Model.World.{World}
use pdt.Assets.Pages.{updated_at, desc}
use pdt.Assets.Pages.Covered.{Walk, Lists, page_of_covers}
use pdt.Assets.Search.{is_hit, search, count_search}

-- A client that follows the cursors of `search`, on a store that does not change and without a
-- failure, is answered the live assets that match the text and carry all the tags, each once, the
-- latest update first, and they are as many as `count_search` says. The limit is positive, and
-- the ids are distinct.
pub search_covers :
    (is_alphanumeric : ℕ → Bool) (fts_match : String → Asset → Bool) (w : World) (limit : ℕ)
    (text : Option String) (filters : List (String × String))
    → w.faults ≡ []
    → 0 < limit
    → IsKeyed (λ a. a.id) w.state.assets
    → (listed : List Asset) × Walk
        (λ c. (search is_alphanumeric fts_match text filters limit c w).0)
        none
        listed
      × Lists updated_at desc (is_hit is_alphanumeric fts_match text filters) w.state.assets listed
      × ((count_search is_alphanumeric fts_match text filters w).0 ≡ ok (length listed))
unfolding search count_search
search_covers is_alphanumeric fts_match w limit text filters calm pos keyed =
    page_of_covers w updated_at desc (is_hit is_alphanumeric fts_match text filters) limit calm pos
      keyed
