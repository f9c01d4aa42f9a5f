-- ===== src/Relations/Traversal.antt =====
-- `get_descendants` and `traverse_graph` of src/repository/sqlite_relation_repository.rs: the
-- assets below an asset, and those around it to a depth.
pub mod Descendants
use pdt.Base.{
  ℕ, zero, suc, ◌+◌, String, Bool, true, false, not, Option, none, some, List, [], ◌∷◌, ◌++◌, ◌==◌,
  ◌&&◌, ◌||◌, length, ltb, is_empty, Option, if◌then◌else◌,
}
use pdt.Model.Relation.{Relation}
use pdt.Relations.Graph.{asset_relations, contains}

-- The variables of `get_descendants`.
pub record Descent : Type 0 where
  pub visited : List String
  pub queue : List String
  pub results : List String

-- One row of the inner loop.
unfoldable pub descend : String → Descent → Relation → Descent
descend current s r =
    if r.from_asset_id == current && not (contains s.visited r.to_asset_id)
    then record {
      visited = r.to_asset_id ∷ s.visited;
      queue = s.queue ++ r.to_asset_id ∷ [];
      results = s.results ++ r.to_asset_id ∷ [];
    }
    else s

-- The inner loop.
unfoldable pub descend_all : String → Descent → List Relation → Descent
unfolding descend
descend_all current s [] = s
descend_all current s (r ∷ rows) = descend_all current (descend current s r) rows

-- The outer loop. `none` means that the fuel ran out.
unfoldable pub descent_loop :
    List Relation → ℕ → List String → List String → List String → Option (List String)
descent_loop rs fuel visited [] results = some results
descent_loop rs zero visited (current ∷ queue) results = none
descent_loop rs (suc fuel) visited (current ∷ queue) results =
    let s =
      descend_all current (record { visited = visited; queue = queue; results = results })
        (asset_relations rs current) in
    descent_loop rs fuel s.visited s.queue s.results

-- `get_descendants`. The queue takes the root and, once each, targets of rows, so one round more
-- than there are rows is enough.
unfoldable pub get_descendants : List Relation → String → Option (List String)
unfolding descent_loop
get_descendants rs root = descent_loop rs (suc (length rs)) (root ∷ []) (root ∷ []) []
