-- ===== src/Tenants/Deletion.antt =====
-- `delete_instance` of `TenantPoolManager`: the pools of the instance are dropped, and then its
-- directory is removed.
use pdt.Base.{
  String, Bool, not, Option, none, some, List, [], ◌∷◌, ◌==◌, ◌&&◌, map, filter, any, if◌then◌else◌,
}
use pdt.Tenants.Tree.{
  Child, Dir, DbPath, dir_exists, find_parent, has_child, child_path, listing, entries,
}
use pdt.Tenants.Manager.{
  other, invalid_id, Result, ok, err, Removal, removed, left, Manager, uncache,
}

-- The directory to remove: at the top, or under the first workspace that has it, where the root
-- can be read.
unfoldable pub locate_dir : Bool → List Dir → String → Option DbPath
unfolding dir_exists find_parent child_path has_child listing
locate_dir readable dirs id =
    if dir_exists dirs id none
    then some (record { workspace = id; child = none })
    else child_path id (find_parent (has_child id) (listing readable dirs))

-- The pools of the directory are dropped: its own, and that of each of its entries. The cache has
-- uuids only, so of the entries of a workspace the directories count, and none of a child.
unfoldable pub drop_pools : String → List String → List (String × DbPath) → List (String × DbPath)
unfolding uncache
drop_pools id [] cache = uncache id cache
drop_pools id (name ∷ names) cache = uncache name (drop_pools id names cache)

-- The entries that are read: where the directory cannot be read, none, and its error is passed over.
unfoldable pub entries_at : Bool → DbPath → Option String → List Dir → List String
unfolding entries listing
entries_at readable path none dirs = listing readable (entries path.workspace dirs)
entries_at readable path (some child) dirs = []

-- What `remove_dir_all` makes of a child, and of a workspace.
unfoldable pub remove_child : Removal → String → Dir → Dir
remove_child removed id d = record d { children = filter (λ c. not (c.name == id)) d.children }
remove_child (left db kept) id d = record d {
  children = map (λ c. if c.name == id then record c { has_db = db && c.has_db } else c) d.children;
}

-- Of a directory that is left, a part of what it held is left.
unfoldable pub leave_part : Bool → List Child → Dir → Dir
leave_part db kept d = record d {
  has_db = db && d.has_db;
  children = filter (λ c. any (λ k. k.name == c.name) kept) d.children;
}

unfoldable pub remove_tree : Removal → String → Option String → List Dir → List Dir
unfolding remove_child leave_part
remove_tree removed workspace none dirs = filter (λ d. not (d.name == workspace)) dirs
remove_tree (left db kept) workspace none dirs =
    map (λ d. if d.name == workspace then leave_part db kept d else d) dirs
remove_tree r workspace (some id) dirs =
    map (λ d. if d.name == workspace then remove_child r id d else d) dirs

unfoldable pub removal_result : Removal → Result (Unit {0})
removal_result removed = ok tt
removal_result (left db kept) = err other

unfoldable pub next_removal : List Removal → Removal × List Removal
next_removal [] = (removed, [])
next_removal (r ∷ rest) = (r, rest)

-- The pools are dropped before the directory is removed.
unfoldable pub delete_located : String → Option DbPath → Manager → Result (Unit {0}) × Manager
unfolding drop_pools entries_at remove_tree next_removal removal_result
delete_located id none m = (err other, m)
delete_located id (some path) m =
    let (r, rest) = next_removal m.removals in
    (
      removal_result r,
      record m {
        cache =
            drop_pools id (entries_at (m.readable (some path.workspace)) path path.child m.dirs)
              m.cache;
        dirs = remove_tree r path.workspace path.child m.dirs;
        removals = rest;
      },
    )

-- `delete_instance`
unfoldable pub delete_instance : (String → Bool) → String → Manager → Result (Unit {0}) × Manager
unfolding delete_located locate_dir
delete_instance is_uuid id m =
    if is_uuid id
    then delete_located id (locate_dir (m.readable none) m.dirs id) m
    else (err invalid_id, m)
