-- ===== src/Tenants/Deleted.antt =====
-- A deletion drops every pool over a database that it removes.
use pdt.Base.{
  String, true, ◌≡◌, refl, sym, ap, subst, ◌∙◌, ◌⊎◌, Bool, false, Option, none, some, List, [],
  arith, Bool-cases, inl, inr,
}
use pdt.Tenants.Tree.{Dir, DbPath, has_child, dir_exists, entries, find_parent, child_path, listing}
use pdt.Tenants.Coherent.{IsCoherent}
use pdt.Tenants.Manager.{Result, ok, err, Removal, removed, left, Manager, cached}
use pdt.Tenants.Deletion.{
  drop_pools, entries_at, remove_tree, delete_located, delete_instance, locate_dir, removal_result,
}
use pdt.Tenants.Removed.{not_top, not_below}
use pdt.Tenants.Pools.{Sound-top, Sound-child, cached-drop_pools}

-- What a deletion answers and leaves: after a success neither the directory that was located nor
-- the instance's pool is there.
abbrev pub Dropped : String → Manager → Result (Unit {0}) × Manager → Type 0
Dropped id m (ok u, m') =
    IsCoherent m'
    × (cached id m'.cache ≡ none)
    × ((path : DbPath) × (locate_dir (m.readable none) m.dirs id ≡ some path)
        × (dir_exists m'.dirs path.workspace path.child ≡ false))
Dropped id m (err e, m') = IsCoherent m'

delete_top :
    (r : Removal) (rest : List Removal) (id : String) (m : Manager)
    → IsCoherent m
    → locate_dir (m.readable none) m.dirs id ≡ some (record { workspace = id; child = none })
    → Dropped id m (
      removal_result r,
      record m {
        cache = drop_pools id (entries id m.dirs) m.cache;
        dirs = remove_tree r id none m.dirs;
        removals = rest;
      },
    )
unfolding removal_result
delete_top removed rest id m s e = (
  Sound-top removed id m.dirs m.cache s,
  cached-drop_pools id (entries id m.dirs) m.cache,
  (_, e, not_top id m.dirs),
)
delete_top (left db kept) rest id m s e = Sound-top (left db kept) id m.dirs m.cache s

delete_child :
    (r : Removal) (rest : List Removal) (w id : String) (m : Manager)
    → IsCoherent m
    → locate_dir (m.readable none) m.dirs id ≡ some (record { workspace = w; child = some id })
    → Dropped id m (
      removal_result r,
      record m {
        cache = drop_pools id [] m.cache;
        dirs = remove_tree r w (some id) m.dirs;
        removals = rest;
      },
    )
unfolding removal_result
delete_child removed rest w id m s e = (
  Sound-child removed w id m.dirs m.cache s,
  cached-drop_pools id [] m.cache,
  (_, e, not_below w id m.dirs),
)
delete_child (left db kept) rest w id m s e = Sound-child (left db kept) w id m.dirs m.cache s

-- The two shapes of the directory that is located.
locate_dir-cases :
    (readable : Bool) (dirs : List Dir) (id : String) (path : DbPath)
    → locate_dir readable dirs id ≡ some path
    → (path ≡ record { workspace = id; child = none })
      ⊎ ((w : String) × (path ≡ record { workspace = w; child = some id }))
unfolding locate_dir child_path
locate_dir-cases readable dirs id path h = elim (Bool-cases (dir_exists dirs id none)) [
  | inl top ↦ inl (ground (arith, top))
  | inr below ↦
      below_cases (find_parent (has_child id) (listing readable dirs)) (ground (arith, below))
]
  where
    below_cases :
        (found : Option String)
        → child_path id found ≡ some path
        → (path ≡ record { workspace = id; child = none })
          ⊎ ((w : String) × (path ≡ record { workspace = w; child = some id }))
    below_cases none e = absurd (cc e)
    below_cases (some w) e = inr (w, sym (cc e))

delete_located-Dropped :
    (id : String) (found : Option DbPath) (m : Manager)
    → IsCoherent m
    → m.readable (some id) ≡ true
    → locate_dir (m.readable none) m.dirs id ≡ found
    → Dropped id m (delete_located id found m)
unfolding delete_located entries_at listing
delete_located-Dropped id none m s read e = s
delete_located-Dropped id (some path) m s read e =
    let shown : DbPath → Type 0 = λ p. Dropped id m (delete_located id (some p) m) in
    elim (locate_dir-cases (m.readable none) m.dirs id path e) [
      | inl top ↦ subst shown (sym top) (rw read (delete_top _ _ id m s (e ∙ ap some top)))
      | inr (w, below) ↦ subst shown (sym below) (delete_child _ _ w id m s (e ∙ ap some below))
    ]

-- However the removal ends, a deletion of an instance whose directory can be read keeps the cache
-- coherent: no pool is left over a database that is gone. After a success the instance has no pool, and the directory that was located for
-- it, at the top or under a workspace, is not there.
pub delete_instance-Dropped :
    (is_uuid : String → Bool) (id : String) (m : Manager)
    → IsCoherent m
    → m.readable (some id) ≡ true
    → Dropped id m (delete_instance is_uuid id m)
unfolding delete_instance
delete_instance-Dropped is_uuid id m s read = elim (Bool-cases (is_uuid id)) [
  | inl valid ↦
      rw valid (delete_located-Dropped id (locate_dir (m.readable none) m.dirs id) m s read refl)
  | inr invalid ↦ rw invalid s
]
