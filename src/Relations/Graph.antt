-- ===== src/Relations/Graph.antt =====
-- The rows of the `relations` table as a graph: an edge leads from `from_asset_id` to
-- `to_asset_id`, whatever the type of the relation.
use pdt.Base.{
  String, ◌≡◌, refl, subst, ◌↔◌, Bool, true, List, Memᴰ, ◌==◌, ◌||◌, eq_iff, filter, any, any_iff,
  Memᴰ-filter,
}
use pdt.Model.Relation.{Relation}

abbrev pub Edge : List Relation → String → String → Type 0
Edge rs u v = (r : Relation) × Memᴰ r rs × (r.from_asset_id ≡ u) × (r.to_asset_id ≡ v)

-- The walks from `src`, of any length.
pub data Reach (rs : List Relation) (src : String) : String → Type 0 where
  here : Reach rs src src
  step : {u v : String} → Reach rs src u → Edge rs u v → Reach rs src v

-- `SELECT … FROM relations WHERE from_asset_id = ?`
unfoldable pub outgoing : List Relation → String → List Relation
outgoing rs u = filter (λ r. r.from_asset_id == u) rs

-- `get_asset_relations`: `WHERE from_asset_id = ? OR to_asset_id = ?`
unfoldable pub asset_relations : List Relation → String → List Relation
asset_relations rs u = filter (λ r. r.from_asset_id == u || r.to_asset_id == u) rs

-- `HashSet::contains`
unfoldable pub contains : List String → String → Bool
contains seen v = any (λ x. x == v) seen

pub contains_iff : (seen : List String) (v : String) → (contains seen v ≡ true) ↔ Memᴰ v seen
unfolding contains
contains_iff seen v = (
  λ h. let (x, m, e) = (any_iff _ seen).0 h in subst (λ y. Memᴰ y seen) ((eq_iff x v).0 e) m,
  λ m. (any_iff _ seen).1 (v, m, (eq_iff v v).1 refl),
)

-- Whether an edge leads from `u` to `v`.
unfoldable pub has_edge : List Relation → String → String → Bool
unfolding outgoing
has_edge rs u v = any (λ r. r.to_asset_id == v) (outgoing rs u)

pub has_edge_iff : (rs : List Relation) (u v : String) → (has_edge rs u v ≡ true) ↔ Edge rs u v
unfolding has_edge
has_edge_iff rs u v = (
  λ h.
      let (r, m, e) = (any_iff _ (outgoing rs u)).0 h in
      let (m', f) = (Memᴰ-filter _ rs r).0 m in
      (r, m', (eq_iff r.from_asset_id u).0 f, (eq_iff r.to_asset_id v).0 e),
  λ (r, m, f, t).
      (any_iff _ (outgoing rs u)).1 (
        r,
        (Memᴰ-filter _ rs r).1 (m, (eq_iff r.from_asset_id u).1 f),
        (eq_iff r.to_asset_id v).1 t,
      ),
)

pub Reach-trans : {rs : List Relation} {a b c : String} → Reach rs a b → Reach rs b c → Reach rs a c
Reach-trans p here = p
Reach-trans p (step q e) = step (Reach-trans p q) e
