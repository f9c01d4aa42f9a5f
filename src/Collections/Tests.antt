-- ===== src/Collections/Tests.antt =====
-- Three collections, in pages of one.
use pdt.Base.{String, ◌≡◌, refl, some, none, List, [], ◌∷◌, filter, take, map, eq_iff}
use pdt.Base.Order.{text_lt}
use pdt.Base.Sort.{sort, insert}
use pdt.Model.Error.{ok}
use pdt.Model.Relation.{Collection}
use pdt.Model.World.{World}
use pdt.Model.Sample.{no_rows, world_of}
use pdt.Collections.Repository.{page, rows_after, is_after, without, remove_asset_from_all}
use pdt.Collections.Listing.{by_id, page_skips}
use pdt.Collections.Members.{remove_asset_from_all-without}

abbrev named : String → Collection
named id = record {
  id = id;
  name = id;
  description = none;
  tags = [];
  asset_ids = "x" ∷ [];
  created_at = 0;
  updated_at = 0;
  created_by = "u";
  updated_by = "u";
}

abbrev two : List Collection
two = named "a" ∷ named "b" ∷ []

by_id-two : filter (is_after none) (by_id two) ≡ named "a" ∷ named "b" ∷ []
unfolding sort insert is_after text_lt
by_id-two = refl

page_skips_example :
    (page 1 (rows_after 1 none two) ≡ (named "a" ∷ [], some "b"))
    × (rows_after 1 (some "b") two ≡ take 2 [])
page_skips_example =
    page_skips two 1 none (named "a" ∷ []) [] (named "b")
      (((λ e. cc ((eq_iff "b" "a").1 e)), tt), (tt, tt)) refl by_id-two

abbrev world : World
world = world_of (record no_rows { collections = two }) 9 []

remove_asset_from_all-without_example :
    ((remove_asset_from_all "x" world).0 ≡ ok tt)
    × ((remove_asset_from_all "x" world).1.state.collections
        ≡ map (without "x") world.state.collections)
remove_asset_from_all-without_example = remove_asset_from_all-without world "x" refl
