-- ===== src/Relations/Tests.antt =====
-- A chain of two relations, and what is asked of it.
use mathlib.Core.List.Memᴰ
use pdt.Base.{String, ◌≡◌, Bool, true, some, List, [], ◌∷◌, ◌↔◌}
use pdt.Model.Relation.{Relation, RelationType, CreateRelationRequest}
use pdt.Model.World.{World}
use pdt.Model.Sample.{no_rows, world_of}
use pdt.Relations.Graph.{Reach}
use pdt.Relations.Cycle
use pdt.Relations.Cycle.Correct.{would_create_cycle_decides}
use pdt.Relations.Traversal
use pdt.Relations.Traversal.Descendants.{AreDescendants, get_descendants-AreDescendants}
use pdt.Relations.Repository
use pdt.Relations.Service
use pdt.Relations.Acyclic.{KeepsAcyclic, create-IsAcyclic}

abbrev link : String → String → Relation
link a b = record {
  id = a;
  from_asset_id = a;
  to_asset_id = b;
  relation_type = RelationType.depends_on;
  metadata = [];
  created_at = 0;
  created_by = "u";
}

abbrev chain : List Relation
chain = link "a" "b" ∷ link "b" "c" ∷ []

abbrev request : CreateRelationRequest
request = record {
  from_asset_id = "c";
  to_asset_id = "a";
  relation_type = RelationType.depends_on;
  metadata = [];
}

would_create_cycle_decides_example :
    (b : Bool) × (Cycle.would_create_cycle chain "c" "a" ≡ some b)
    × ((b ≡ true) ↔ ∥ Reach chain "a" "c" ∥₁)
would_create_cycle_decides_example = would_create_cycle_decides chain "c" "a"

create-IsAcyclic_example : KeepsAcyclic (Service.create request "u")
create-IsAcyclic_example = create-IsAcyclic request "u"

abbrev one : List Relation
one = link "a" "b" ∷ []

abbrev world : World
world = world_of (record no_rows { relations = one }) 7 []

get_descendants-AreDescendants_example :
    (ids : List String) × (Traversal.get_descendants chain "a" ≡ some ids)
    × AreDescendants chain "a" ids
get_descendants-AreDescendants_example = get_descendants-AreDescendants chain "a"
