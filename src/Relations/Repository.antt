-- ===== src/Relations/Repository.antt =====
-- src/repository/sqlite_relation_repository.rs: the statements on the `relations` table.
use pdt.Base.{
  ℕ, zero, suc, String, Bool, not, Option, none, some, List, [], ◌∷◌, ◌++◌, ◌==◌, ◌||◌, length,
  filter, find?, any, if◌then◌else◌,
}
use pdt.Model.Error.{ApiError}
use pdt.Model.Relation.{Relation, RelationType, CreateRelationRequest}
use pdt.Model.World.{Store, Exec, pure, raise, crash, query, execute, mint, now, ◌>>=◌}
use pdt.Assets.Rows.{has_row, or_not_found}
use pdt.Relations.Graph.{asset_relations}
use pdt.Relations.Cycle
use pdt.Relations.Traversal

-- `Display` of a relation type
unfoldable pub to_string : RelationType → String
to_string RelationType.contains = "contains"
to_string RelationType.references = "references"
to_string RelationType.related_to = "related_to"
to_string RelationType.depends_on = "depends_on"
to_string RelationType.supersedes = "supersedes"
to_string RelationType.complements = "complements"
to_string RelationType.has_instance = "has_instance"
to_string RelationType.has_agent = "has_agent"
to_string RelationType.has_access = "has_access"

-- `parse_relation_type`
unfoldable pub parse_relation_type : String → RelationType
parse_relation_type s =
    if s == "contains"
    then RelationType.contains
    else if s == "references"
    then RelationType.references
    else if s == "related_to"
    then RelationType.related_to
    else if s == "depends_on"
    then RelationType.depends_on
    else if s == "supersedes"
    then RelationType.supersedes
    else if s == "complements"
    then RelationType.complements
    else if s == "has_instance"
    then RelationType.has_instance
    else if s == "has_agent"
    then RelationType.has_agent
    else if s == "has_access"
    then RelationType.has_access
    else RelationType.related_to

-- The row of a new relation, as `hydrate_relation` reads it back: its type goes through a text.
unfoldable pub new_relation : String → ℕ → String → CreateRelationRequest → Relation
unfolding to_string parse_relation_type
new_relation id at user request = record {
  id = id;
  from_asset_id = request.from_asset_id;
  to_asset_id = request.to_asset_id;
  relation_type = parse_relation_type (to_string request.relation_type);
  metadata = request.metadata;
  created_at = at;
  created_by = user;
}

-- `INSERT INTO relations`: the primary key is new, and both assets have a row.
unfoldable pub insert_relation : Relation → Store → Option (Relation × Store)
unfolding has_row
insert_relation r s =
    if any (λ q. q.id == r.id) s.relations
      || (not (has_row s.assets r.from_asset_id) || not (has_row s.assets r.to_asset_id))
    then none
    else some (r, record s { relations = s.relations ++ r ∷ [] })

unfoldable pub create : CreateRelationRequest → String → Exec Relation
unfolding insert_relation
create request user = do
  id ← mint
  at ← now
  execute (insert_relation (new_relation id at user request))

unfoldable pub get_by_id : String → Exec Relation
unfolding or_not_found
get_by_id id = do found ← query λ s. find? (λ r. r.id == id) s.relations; or_not_found found

-- `DELETE FROM relations WHERE …`, with `rows_affected`
unfoldable pub delete_where : (Relation → Bool) → Store → Option (ℕ × Store)
delete_where p s =
    some
      (length (filter p s.relations), record s { relations = filter (λ r. not (p r)) s.relations })

unfoldable pub delete : String → Exec Unit
unfolding delete_where
delete id = do
  affected ← execute (delete_where λ r. r.id == id)
  elim affected [ zero ↦ raise ApiError.not_found | suc n ↦ pure tt ]

unfoldable pub get_asset_relations : String → Exec (List Relation)
get_asset_relations id = query λ s. asset_relations s.relations id

unfoldable pub list_by_type : String → Exec (List Relation)
unfolding to_string
list_by_type type = query λ s. filter (λ r. to_string r.relation_type == type) s.relations

-- Whether a relation has the asset for an end.
unfoldable pub touches : String → Relation → Bool
touches id r = r.from_asset_id == id || r.to_asset_id == id

unfoldable pub delete_by_asset : String → Exec ℕ
unfolding delete_where touches
delete_by_asset id = execute (delete_where (touches id))

-- The walk reads the store at each round and writes nothing, so one read stands for its reads; a
-- walk whose read fails answers that error. It never runs out of fuel.
unfoldable pub would_create_cycle : String → String → Exec Bool
would_create_cycle from to = do
  found ← query λ s. Cycle.would_create_cycle s.relations from to
  elim found [ none ↦ crash | some b ↦ pure b ]

-- `get_descendants`, whose reads are one read of the relations. It never runs out of fuel.
unfoldable pub get_descendants : String → Exec (List String)
get_descendants root = do
  found ← query λ s. Traversal.get_descendants s.relations root
  elim found [ none ↦ crash | some ids ↦ pure ids ]
