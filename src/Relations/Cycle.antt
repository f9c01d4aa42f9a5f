-- ===== src/Relations/Cycle.antt =====
-- `would_create_cycle`: a breadth-first search from the target of a new relation for its source.
pub mod Scan
pub mod Explored
pub mod Correct
use pdt.Base.{
  ℕ, zero, suc, String, Bool, true, false, Option, none, some, List, [], ◌∷◌, ◌++◌, ◌==◌, length,
  if◌then◌else◌,
}
use pdt.Model.Relation.{Relation}
use pdt.Relations.Graph.{outgoing, contains}

-- The variables of the search: `visited` and `queue`.
pub record Frontier : Type 0 where
  pub visited : List String
  pub queue : List String

-- `visited.insert(v); queue.push_back(v)`
unfoldable pub push : Frontier → String → Frontier
push s v = record { visited = v ∷ s.visited; queue = s.queue ++ v ∷ [] }

-- One row of the inner loop.
unfoldable pub offer : Frontier → String → Frontier
unfolding push contains
offer s v = if contains s.visited v then s else push s v

-- The inner loop over the rows of the current asset.
unfoldable pub scan : Frontier → List Relation → Frontier
unfolding offer
scan s [] = s
scan s (row ∷ rows) = scan (offer s row.to_asset_id) rows

-- The outer loop. `none` means that the fuel ran out.
pub cycle_loop : List Relation → String → ℕ → List String → List String → Option Bool
cycle_loop rs from fuel visited [] = some false
cycle_loop rs from zero visited (current ∷ queue) = none
cycle_loop rs from (suc fuel) visited (current ∷ queue) =
    let s = scan (record { visited = visited; queue = queue }) (outgoing rs current) in
    let rest = cycle_loop rs from fuel s.visited s.queue in
    if current == from then some true else rest

-- The queue takes the start and, once each, targets of rows, so one round more than there are rows
-- is enough.
pub would_create_cycle : List Relation → String → String → Option Bool
unfolding cycle_loop
would_create_cycle rs from to = cycle_loop rs from (suc (length rs)) (to ∷ []) (to ∷ [])
