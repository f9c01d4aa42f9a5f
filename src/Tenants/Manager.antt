-- ===== src/Tenants/Manager.antt =====
-- src/tenant.rs: the operations of `TenantPoolManager`. Which texts are uuids is the crate `uuid`'s
-- to say: it is a parameter.
use pdt.Base.{
  String, Bool, true, false, not, Option, none, some, List, [], ◌∷◌, ◌++◌, ◌==◌, ◌&&◌, map, filter,
  if◌then◌else◌,
}
use pdt.Tenants.Tree.{Child, Dir, DbPath, exists, create_dirs, put_db, locate_db, listing}

-- The errors that a caller tells apart, and all others.
pub data TenantError : Type 0 where
  not_provisioned invalid_id other : TenantError

pub data Result (A : Type 0) : Type 0 where
  ok : A → Result A
  err : TenantError → Result A

-- The services over the global store, or over one database.
pub data Services : Type 0 where
  global : Services
  instance_at : DbPath → Services

-- How an opening of a database ends: with its services, or with an error before the directory is
-- made, before the database is connected, or after that.
pub data Opening : Type 0 where
  opened no_directory no_connection unfinished : Opening

-- How a removal ends: whole, or with an error that leaves some of the directory.
pub data Removal : Type 0 where
  removed : Removal
  left : Bool → List Child → Removal

-- The cache of open pools, the directories, and how the coming openings and removals end; past
-- the end of the lists they succeed. `readable` says whether `read_dir` of the root, or of a
-- workspace, succeeds.
pub record Manager : Type 0 where
  pub cache : List (String × DbPath)
  pub dirs : List Dir
  pub openings : List Opening
  pub removals : List Removal
  pub readable : Option String → Bool

-- `cache.get(id)`
unfoldable pub cached : String → List (String × DbPath) → Option DbPath
cached id [] = none
cached id ((key, path) ∷ cache) = if key == id then some path else cached id cache

-- `cache.remove(id)`
unfoldable pub uncache : String → List (String × DbPath) → List (String × DbPath)
uncache id cache = filter (λ entry. not (entry.0 == id)) cache

-- `cache.insert(id, …)`
unfoldable pub insert : String → DbPath → List (String × DbPath) → List (String × DbPath)
unfolding uncache
insert id path cache = uncache id cache ++ (id, path) ∷ []

-- One opening; without `create_if_missing` a connection makes no database.
unfoldable pub open_as : Opening → DbPath → Bool → List Dir → Result DbPath × List Dir
open_as no_directory path create dirs = (err other, dirs)
open_as no_connection path create dirs = (err other, create_dirs path.workspace path.child dirs)
open_as unfinished path true dirs =
    (err other, put_db path.workspace path.child (create_dirs path.workspace path.child dirs))
open_as unfinished path false dirs = (err other, create_dirs path.workspace path.child dirs)
open_as opened path true dirs =
    (ok path, put_db path.workspace path.child (create_dirs path.workspace path.child dirs))
open_as opened path false dirs =
    let made = create_dirs path.workspace path.child dirs in
    (if exists made path then ok path else err other, made)

unfoldable pub next_opening : List Opening → Opening × List Opening
next_opening [] = (opened, [])
next_opening (o ∷ rest) = (o, rest)

-- `open_instance_services`: the migrations and the group of the admins belong to an opening.
unfoldable pub open_instance_services : DbPath → Bool → Manager → Result DbPath × Manager
unfolding open_as next_opening
open_instance_services path create m =
    let (o, rest) = next_opening m.openings in
    let (r, dirs) = open_as o path create m.dirs in (r, record m { dirs = dirs; openings = rest })

-- The services of a database that was opened, which go into the cache.
unfoldable pub keep_open : String → Result DbPath → Manager → Result Services × Manager
unfolding insert
keep_open id (err e) m = (err e, m)
keep_open id (ok path) m = (ok (instance_at path), record m { cache = insert id path m.cache })

unfoldable pub open_located : String → Option DbPath → Manager → Result Services × Manager
unfolding open_instance_services keep_open
open_located id none m = (err not_provisioned, m)
open_located id (some path) m =
    let (r, m') = open_instance_services path false m in keep_open id r m'

unfoldable pub discard : Result DbPath → Result (Unit {0})
discard (ok path) = ok tt
discard (err e) = err e

-- What follows a success
unfoldable pub and_then :
    Result (Unit {0}) × Manager
    → (Manager → Result (Unit {0}) × Manager)
    → Result (Unit {0}) × Manager
and_then (ok u, m) f = f m
and_then (err e, m) f = (err e, m)

-- What is not yet there is opened, and made by that.
unfoldable pub open_new : DbPath → Manager → Result (Unit {0}) × Manager
unfolding open_instance_services discard
open_new path m =
    let (r, m') = open_instance_services path true m in
    if exists m.dirs path then (ok tt, m) else (discard r, m')

-- The place of a new instance; its parent has to be provisioned.
unfoldable pub new_path : String → Option String → List Dir → Option DbPath
new_path id none dirs = some (record { workspace = id; child = none })
new_path id (some parent) dirs =
    if exists dirs (record { workspace = parent; child = none })
    then some (record { workspace = parent; child = some id })
    else none

unfoldable pub provision_at : Option DbPath → Manager → Result (Unit {0}) × Manager
unfolding open_new
provision_at none m = (err other, m)
provision_at (some path) m = open_new path m

module _ (is_uuid : String → Bool) where
  -- What is not in the cache is validated, located and opened.
  unfoldable pub services_of : Option DbPath → String → Manager → Result Services × Manager
  unfolding open_located locate_db
  services_of (some path) id m = (ok (instance_at path), m)
  services_of none id m =
      if is_uuid id
      then open_located id (locate_db (m.readable none) m.dirs id) m
      else (err invalid_id, m)

  -- `get_services`
  unfoldable pub get_services : Option String → Manager → Result Services × Manager
  unfolding services_of cached
  get_services none m = (ok global, m)
  get_services (some id) m = services_of (cached id m.cache) id m

  unfoldable pub parent_is_uuid : Option String → Bool
  parent_is_uuid none = true
  parent_is_uuid (some parent) = is_uuid parent

  -- `provision_instance`
  unfoldable pub provision_instance : String → Option String → Manager → Result (Unit {0}) × Manager
  unfolding provision_at new_path parent_is_uuid
  provision_instance id parent m =
      if is_uuid id && parent_is_uuid parent
      then provision_at (new_path id parent m.dirs) m
      else (err invalid_id, m)

  -- The children, one after the other, up to the first failure.
  unfoldable pub provision_children : String → List String → Manager → Result (Unit {0}) × Manager
  unfolding provision_instance and_then
  provision_children workspace [] m = (ok tt, m)
  provision_children workspace (child ∷ rest) m =
      and_then (provision_instance child (some workspace) m)
        (λ m'. provision_children workspace rest m')

  -- `provision_workspace_tree`
  unfoldable pub provision_workspace_tree :
      String → List String → Manager → Result (Unit {0}) × Manager
  unfolding provision_children and_then
  provision_workspace_tree workspace children m =
      and_then (provision_instance workspace none m)
        (λ m'. provision_children workspace children m')

-- Where the archives of an instance stand: beside its database, or in the directory `global`.
pub data ArchiveHome : Type 0 where
  global_home : ArchiveHome
  beside : DbPath → ArchiveHome

unfoldable pub home_of : Option DbPath → Result ArchiveHome
home_of none = err not_provisioned
home_of (some path) = ok (beside path)

-- `audit_archive_dir`
unfoldable pub audit_archive_dir : Option String → Manager → Result ArchiveHome
unfolding locate_db home_of
audit_archive_dir none m = ok global_home
audit_archive_dir (some id) m = home_of (locate_db (m.readable none) m.dirs id)

-- `scan_workspace_dirs`, by its names
unfoldable pub scan_workspace_dirs : List Dir → List String
scan_workspace_dirs dirs = map (λ d. d.name) (filter (λ d. d.has_db) dirs)

-- `list_instances`: the keys of the cache and the workspaces, as a set without its order
unfoldable pub list_instances : Manager → List String
unfolding scan_workspace_dirs listing
list_instances m = map (λ e. e.0) m.cache ++ scan_workspace_dirs (listing (m.readable none) m.dirs)

-- The workspaces that are read, each with its children, where it can be read.
unfoldable pub tree_rows : (String → Bool) → List Dir → List (String × Option String)
unfolding listing
tree_rows readable [] = []
tree_rows readable (d ∷ dirs) =
    let rest = tree_rows readable dirs in
    let children =
      map (λ c. (d.name, some c.name))
        (filter (λ c. c.has_db) (listing (readable d.name) d.children))
      ++ rest in
    if d.has_db then (d.name, none) ∷ children else children

-- `list_instance_tree`
unfoldable pub list_instance_tree : Manager → List (String × Option String)
unfolding tree_rows listing
list_instance_tree m = tree_rows (λ w. m.readable (some w)) (listing (m.readable none) m.dirs)
