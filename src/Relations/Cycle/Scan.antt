-- ===== src/Relations/Cycle/Scan.antt =====
-- The inner loop of the cycle check: what it marks, what it queues, and how far it brings the
-- search on.
use mathlib.Core.List.Memᴰ
use pdt.Base.{
  ℕ, suc, ◌+◌, ◌≤◌, String, ◌≡◌, refl, ap, false, not, ◌&&◌, ◌||◌, List, [], ◌∷◌, ◌++◌, Memᴰ,
  Memᴰ-cons, ◌==◌, eq_iff, arith, length, length-append, any, if◌then◌else◌, inl, inr,
}
use pdt.Model.Relation.{Relation}
use pdt.Relations.Graph.{contains}
use pdt.Relations.Cycle.{Frontier, offer, scan}

pub contains-concat :
    (xs : List String) (x v : String) → contains (xs ++ x ∷ []) v ≡ (contains xs v || x == v)
unfolding contains
contains-concat [] x v = ground arith
contains-concat (y ∷ xs) x v = ground (arith, contains-concat xs x v)

-- `scan` marks the targets of the rows, and nothing else.
pub visited-scan :
    (s : Frontier) (rows : List Relation) (v : String)
    → contains (scan s rows).visited v
      ≡ (contains s.visited v || any (λ r. r.to_asset_id == v) rows)
unfolding scan
visited-scan s [] v = ground arith
visited-scan s (r ∷ rows) v = ground (
  arith,
  visited-scan (offer s r.to_asset_id) rows v,
  eq_iff r.to_asset_id v,
  λ (e : r.to_asset_id ≡ v). ap (contains s.visited) e,
)

-- `scan` queues what it newly marks, and nothing else.
pub queue-scan :
    (s : Frontier) (rows : List Relation) (v : String)
    → contains (scan s rows).queue v
      ≡ (contains s.queue v || (contains (scan s rows).visited v && not (contains s.visited v)))
unfolding scan
queue-scan s [] v = ground arith
queue-scan s (r ∷ rows) v = ground (
  arith,
  queue-scan (offer s r.to_asset_id) rows v,
  visited-scan (offer s r.to_asset_id) rows v,
  eq_iff r.to_asset_id v,
  contains-concat s.queue r.to_asset_id v,
  λ (e : r.to_asset_id ≡ v). ap (contains s.visited) e,
)

-- The rows whose target is not marked.
pub unseen : List Relation → List String → ℕ
unseen [] visited = 0
unseen (r ∷ rs) visited = (if contains visited r.to_asset_id then 0 else 1) + unseen rs visited

unseen-cons-le :
    (rs : List Relation) (visited : List String) (v : String)
    → unseen rs (v ∷ visited) ≤ unseen rs visited
unfolding unseen contains
unseen-cons-le [] visited v = omega arith
unseen-cons-le (r ∷ rs) visited v = ground (arith, unseen-cons-le rs visited v)

unseen-cons-lt :
    (rs : List Relation) (visited : List String) (r : Relation)
    → Memᴰ r rs
    → contains visited r.to_asset_id ≡ false
    → suc (unseen rs (r.to_asset_id ∷ visited)) ≤ unseen rs visited
unfolding unseen contains
unseen-cons-lt [] visited r m h = absurd (Memᴰ.not-nil m)
unseen-cons-lt (q ∷ rs) visited r m h = elim ((Memᴰ-cons r q rs).0 m) [
  | inl e ↦ ground (
    arith,
    unseen-cons-le rs visited r.to_asset_id,
    eq_iff r.to_asset_id q.to_asset_id,
    ap (λ (x : Relation). x.to_asset_id) e,
    ap (λ (x : Relation). contains visited x.to_asset_id) e,
  )
  | inr m' ↦ ground (arith, unseen-cons-lt rs visited r m' h)
]

pub unseen-le : (rs : List Relation) (visited : List String) → unseen rs visited ≤ length rs
unfolding unseen
unseen-le [] visited = omega arith
unseen-le (r ∷ rs) visited = ground (arith, unseen-le rs visited)

-- `scan` queues no more than it newly marks.
pub scan_work :
    (rs : List Relation) (s : Frontier) (rows : List Relation)
    → ((r : Relation) → Memᴰ r rows → Memᴰ r rs)
    → unseen rs (scan s rows).visited + length (scan s rows).queue
      ≤ unseen rs s.visited + length s.queue
unfolding scan
scan_work rs s [] sub = omega arith
scan_work rs s (r ∷ rows) sub =
    let rest = scan_work rs (offer s r.to_asset_id) rows (λ x m. sub x (Memᴰ.tail m)) in
    let new = unseen-cons-lt rs s.visited r (sub r (Memᴰ.head refl)) in
    ground (arith, rest, new, length-append s.queue (r.to_asset_id ∷ []))
