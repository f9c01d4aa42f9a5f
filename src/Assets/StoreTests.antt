-- ===== src/Assets/StoreTests.antt =====
-- A store with an asset of a class, and what is asked of it.
use pdt.Base.{
  ℕ, String, ◌≡◌, refl, ◌⊎◌, Bool, true, false, none, some, List, [], ◌∷◌, ◌++◌, length, map, take,
  arith,
}
use pdt.Model.Error.{ok}
use pdt.Model.Asset.{Asset, Tag, CreateAssetRequest}
use pdt.Model.World.Hoare.{reading}
use pdt.Model.World.{World, transaction, query, attempt, ensure, now, pure, mint, for_each, execute}
use pdt.Assets.Rows
use pdt.Audit.Repository as Trail
use pdt.Model.Sample.{no_rows, world_of, asset_of}
use pdt.Audit.Prune.Correct.{IsCutoff}
use pdt.Assets.Birth.{guard_birth_auth_context, requested_or_default}
use pdt.Assets.Birth.Guarded.{IsGuarded}
use pdt.Assets.Rows.{find_live}
use pdt.Assets.Repository
use pdt.Assets.Repository.Adopted.{Landed, adopt_atomic}
use pdt.Assets.Service
use pdt.Assets.Service.Born.{create-IsGuarded}
use pdt.Assets.Service.Cascade.{Deleted, delete-cascades}
use pdt.Assets.Pages.{list, count_list, sort_field, direction, is_of_type, updated_at, desc}
use pdt.Assets.Pages.Covered.{Walk, Lists, list_covers}
use pdt.Assets.Search.{search, count_search, is_hit}
use pdt.Assets.Search.Covered.{search_covers}
use pdt.Assets.Prune.{prune, dry_run}
use pdt.Assets.Prune.Found.{old_of_class, prune-dry_run}
use pdt.Assets.Prune.Kept.{body, delete-prune-body}

abbrev tag : Tag
tag = record { id = "t"; category = "asset_type"; value = "idea"; added_by = "u"; added_at = 0 }

abbrev idea : Asset
idea = record (asset_of "a" none) { tags = tag ∷ [] }

-- Two days after the asset was made.
abbrev world : World
world = world_of (record no_rows { assets = idea ∷ [] }) 172_800_000_000_000 []

-- Every character is a letter, and every expression matches.
abbrev letters : ℕ → Bool
letters c = true

abbrev matches : String → Asset → Bool
matches e a = true

abbrev request : CreateAssetRequest
request = record { title = "t"; content = none; tags = []; metadata = []; auth_context = none }

found_idea : find_live world.state.assets "a" ≡ some idea
unfolding find_live
found_idea = refl

-- An adoption that meets no failure lands: the row is there, with its entry.
adopted : length (Repository.adopt "b" request "u" "backup" world).1.state.assets ≡ 2
unfolding Repository.adopt transaction query attempt ensure now pure mint for_each execute
    Rows.get_by_id Trail.insert_entry
adopted = refl

list_covers_example :
    (listed : List Asset) × Walk
      (λ c. (list 1 c (some "idea") "created_at" "asc" world).0)
      none
      listed
    × Lists
        (sort_field "created_at")
        (direction "asc")
        (is_of_type (some "idea"))
        world.state.assets
        listed
    × ((count_list (some "idea") world).0 ≡ ok (length listed))
list_covers_example =
    list_covers world 1 (some "idea") "created_at" "asc" refl (omega arith) (tt, tt)

search_covers_example :
    (listed : List Asset) × Walk
      (λ c. (search letters matches (some "x") (("asset_type", "idea") ∷ []) 1 c world).0)
      none
      listed
    × Lists updated_at desc
        (is_hit letters matches (some "x") (("asset_type", "idea") ∷ []))
        world.state.assets
        listed
    × ((count_search letters matches (some "x") (("asset_type", "idea") ∷ []) world).0
        ≡ ok (length listed))
search_covers_example =
    search_covers letters matches world 1 (some "x") (("asset_type", "idea") ∷ []) refl
      (omega arith) (tt, tt)

prune-dry_run_example :
    (cutoff : ℕ) × IsCutoff (reading world.state) 1 cutoff
    × ((prune letters matches "asset_type" "idea" 1 true "u" world).0
        ≡ ok (
            dry_run
              (length (old_of_class letters matches "asset_type" "idea" cutoff world.state.assets))
              (take 100
                (old_of_class letters matches "asset_type" "idea" cutoff world.state.assets))))
    × ((prune letters matches "asset_type" "idea" 1 true "u" world).1.state.store
        ≡ world.state.store)
prune-dry_run_example =
    prune-dry_run letters matches "asset_type" "idea" "u" 1 world refl (omega arith) (tt, tt)

delete-prune-body_example :
    (map body (Service.delete "a" "u" world).1.state.assets ≡ map body world.state.assets)
    × (map body (prune letters matches "asset_type" "idea" 1 false "u" world).1.state.assets
        ≡ map body world.state.assets)
delete-prune-body_example =
    delete-prune-body letters matches world "a" "u" "asset_type" "idea" 1 false

delete-cascades_example :
    ((Service.delete "a" "u" world).0 ≡ ok tt)
    × Deleted world.state.store "a" (Service.delete "a" "u" world).1.state.store
delete-cascades_example = delete-cascades world "a" "u" idea refl found_idea refl

adopt_atomic_example :
    ((Repository.adopt "b" request "u" "backup" world).1.state.store ≡ world.state.store)
    ⊎ Landed world.state.store "b" request "u" "backup"
        (Repository.adopt "b" request "u" "backup" world).1.state.store
adopt_atomic_example = adopt_atomic world "b" request "u" "backup"

create-IsGuarded_example :
    ((Service.create request "u" ("g" ∷ []) world).1.state.assets ≡ world.state.assets)
    ⊎ ((a : Asset) × ((Service.create request "u" ("g" ∷ []) world).1.state.assets
          ≡ world.state.assets ++ a ∷ [])
        × (a.auth_context ≡ some (guard_birth_auth_context request.auth_context ("g" ∷ [])))
        × IsGuarded
            (requested_or_default request.auth_context)
            ("g" ∷ [])
            (guard_birth_auth_context request.auth_context ("g" ∷ [])))
create-IsGuarded_example = create-IsGuarded world request "u" ("g" ∷ [])
