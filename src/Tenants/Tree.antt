-- ===== src/Tenants/Tree.antt =====
-- The directory tree of the instances: workspaces under the root, and their children under them.
-- A directory holds the database of its instance, or not yet.
use pdt.Base.{
  String, Bool, true, false, Option, none, some, List, [], ◌∷◌, ◌++◌, ◌==◌, ◌&&◌, map, any,
  if◌then◌else◌,
}

pub record Child : Type 0 where
  pub name : String
  pub has_db : Bool

pub record Dir : Type 0 where
  pub name : String
  pub has_db : Bool
  pub children : List Child

-- The place of a database: `{root}/{workspace}/pdt.db` or `{root}/{workspace}/{child}/pdt.db`.
pub record DbPath : Type 0 where
  pub workspace : String
  pub child : Option String

-- The instance whose database the place holds.
unfoldable pub instance_of : String → Option String → String
instance_of workspace none = workspace
instance_of workspace (some child) = child

abbrev pub owner : DbPath → String
owner path = instance_of path.workspace path.child

unfoldable pub has_child : String → Dir → Bool
has_child id d = any (λ c. c.name == id) d.children

unfoldable pub has_child_db : String → Dir → Bool
has_child_db id d = any (λ c. c.name == id && c.has_db) d.children

-- `path.exists()` of the database
unfoldable pub db_exists : List Dir → String → Option String → Bool
unfolding has_child_db
db_exists dirs workspace none = any (λ d. d.name == workspace && d.has_db) dirs
db_exists dirs workspace (some id) = any (λ d. d.name == workspace && has_child_db id d) dirs

abbrev pub exists : List Dir → DbPath → Bool
exists dirs path = db_exists dirs path.workspace path.child

-- `path.is_dir()` of the directory of the database
unfoldable pub dir_exists : List Dir → String → Option String → Bool
unfolding has_child
dir_exists dirs workspace none = any (λ d. d.name == workspace) dirs
dir_exists dirs workspace (some id) = any (λ d. d.name == workspace && has_child id d) dirs

-- A directory of this name under the root
unfoldable pub add_workspace : String → List Dir → List Dir
add_workspace workspace dirs =
    if any (λ d. d.name == workspace) dirs
    then dirs
    else dirs ++ (record { name = workspace; has_db = false; children = [] }) ∷ []

unfoldable pub add_child : String → Dir → Dir
unfolding has_child
add_child id d =
    if has_child id d
    then d
    else record d { children = d.children ++ (record { name = id; has_db = false }) ∷ [] }

-- `create_dir_all`: directories that are there stay.
unfoldable pub create_dirs : String → Option String → List Dir → List Dir
unfolding add_workspace add_child
create_dirs workspace none dirs = add_workspace workspace dirs
create_dirs workspace (some id) dirs =
    map (λ d. if d.name == workspace then add_child id d else d) (add_workspace workspace dirs)

unfoldable pub put_child_db : String → Dir → Dir
put_child_db id d = record d {
  children = map (λ c. if c.name == id then record c { has_db = true } else c) d.children;
}

-- The database file, made by its first connection.
unfoldable pub put_db : String → Option String → List Dir → List Dir
unfolding put_child_db
put_db workspace none dirs =
    map (λ d. if d.name == workspace then record d { has_db = true } else d) dirs
put_db workspace (some id) dirs =
    map (λ d. if d.name == workspace then put_child_db id d else d) dirs

-- The workspace that holds a child with a database of this name, the first that is read.
unfoldable pub find_parent : (Dir → Bool) → List Dir → Option String
find_parent p [] = none
find_parent p (d ∷ dirs) = if p d then some d.name else find_parent p dirs

unfoldable pub child_path : String → Option String → Option DbPath
child_path id none = none
child_path id (some workspace) = some (record { workspace = workspace; child = some id })

-- `if let Ok(entries) = read_dir(…)`: where the directory cannot be read there is nothing in it.
unfoldable pub listing : {A : Type 0} → Bool → List A → List A
listing true entries = entries
listing false entries = []

-- `locate_db`: at the top, or under the first workspace that has it, where the root can be read.
unfoldable pub locate_db : Bool → List Dir → String → Option DbPath
unfolding db_exists find_parent child_path has_child_db listing
locate_db readable dirs id =
    if db_exists dirs id none
    then some (record { workspace = id; child = none })
    else child_path id (find_parent (has_child_db id) (listing readable dirs))

-- The names in the directories of a workspace
unfoldable pub entries : String → List Dir → List String
entries workspace [] = []
entries workspace (d ∷ dirs) =
    let rest = entries workspace dirs in
    if d.name == workspace then map (λ c. c.name) d.children ++ rest else rest
