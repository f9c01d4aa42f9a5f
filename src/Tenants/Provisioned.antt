-- ===== src/Tenants/Provisioned.antt =====
-- A provisioning makes the database asked for, and takes none away.
use pdt.Base.{
  String, ◌≡◌, refl, sym, subst, ◌∙◌, Bool, true, false, Option, none, some, List, [], ◌∷◌, ◌++◌,
  ◌==◌, ◌&&◌, eq_refl, any, arith, Bool-cases, inl, inr, if◌then◌else◌,
}
use pdt.Tenants.Tree.{
  Child, Dir, DbPath, exists, db_exists, has_child_db, has_child, add_workspace, add_child,
  create_dirs, put_child_db, put_db,
}
use pdt.Tenants.Databases.{exists-create_dirs, exists-put_db, any-map_mono, add_child_self}
use pdt.Tenants.Coherent.{Sound, Sound-mono, Extends, IsCoherent}
use pdt.Tenants.Manager.{
  invalid_id, Result, ok, err, Opening, opened, no_directory, no_connection, unfinished, Manager,
  open_as, next_opening, open_instance_services, open_new, discard, new_path, provision_at,
  parent_is_uuid, provision_instance,
}

any-added : (w : String) (dirs : List Dir) → any (λ d. d.name == w) (add_workspace w dirs) ≡ true
unfolding add_workspace
any-added w dirs = elim (Bool-cases (any (λ d. d.name == w) dirs)) [
  | inl there ↦ rw there there
  | inr new ↦ rw new (last dirs)
]
  where
    last :
        (xs : List Dir)
        → any (λ d. d.name == w) (xs ++ (record { name = w; has_db = false; children = [] }) ∷ [])
          ≡ true
    last [] = ground (arith, eq_refl w)
    last (x ∷ xs) = ground (arith, last xs)

has_child-added : (id : String) (d : Dir) → has_child id (add_child id d) ≡ true
unfolding has_child add_child
has_child-added id d = elim (Bool-cases (any (λ c. c.name == id) d.children)) [
  | inl there ↦ rw there there
  | inr new ↦ rw new (last d.children)
]
  where
    last :
        (xs : List Child)
        → any (λ c. c.name == id) (xs ++ (record { name = id; has_db = false }) ∷ []) ≡ true
    last [] = ground (arith, eq_refl id)
    last (x ∷ xs) = ground (arith, last xs)

has_child_db-put :
    (id : String) (d : Dir) → has_child id d ≡ true → has_child_db id (put_child_db id d) ≡ true
unfolding has_child_db has_child put_child_db
has_child_db-put id d = any-map_mono _ _ _ d.children (λ c h. rw h (ground arith))

put_named :
    (w id : String) (d : Dir)
    → (d.name == w && has_child id d) ≡ true
    → ((if d.name == w then put_child_db id d else d).name == w
        && has_child_db id (if d.name == w then put_child_db id d else d))
      ≡ true
put_named w id d h = elim (Bool-cases (d.name == w)) [
  | inr apart ↦ absurd (ground (arith, apart))
  | inl here ↦
      let stored = has_child_db-put id d (ground (arith, here)) in
      rw (here, stored) (unfold put_child_db in ground (arith, here))
]

-- The database is there once its directory and its file are made.
pub exists-put_db-create_dirs :
    (w : String) (child : Option String) (dirs : List Dir)
    → db_exists (put_db w child (create_dirs w child dirs)) w child ≡ true
unfolding db_exists put_db create_dirs
exists-put_db-create_dirs w none dirs =
    any-map_mono _ _ _ (add_workspace w dirs) (λ d h. rw h (ground arith)) (any-added w dirs)
exists-put_db-create_dirs w (some id) dirs =
    any-map_mono _ _ _ _ (λ d h. put_named w id d h)
      (any-map_mono _ _ _ (add_workspace w dirs)
        (λ d h. rw (h, (add_child_self id d).0, has_child-added id d) (ground arith))
        (any-added w dirs))

open_as-Extends :
    (o : Opening) (path : DbPath) (dirs : List Dir) → Extends dirs (open_as o path true dirs).1
unfolding open_as
open_as-Extends no_directory path dirs q there = there
open_as-Extends no_connection path dirs q there =
    exists-create_dirs path.workspace path.child dirs q ∙ there
open_as-Extends unfinished path dirs q there =
    exists-put_db path.workspace path.child _ q.workspace q.child
      (exists-create_dirs path.workspace path.child dirs q ∙ there)
open_as-Extends opened path dirs q there =
    exists-put_db path.workspace path.child _ q.workspace q.child
      (exists-create_dirs path.workspace path.child dirs q ∙ there)

-- What an opening that may make the database answers and leaves.
abbrev Made : DbPath → List Dir → Result (Unit {0}) → List Dir → Type 0
Made path dirs (ok u) dirs' = Extends dirs dirs' × (exists dirs' path ≡ true)
Made path dirs (err e) dirs' = Extends dirs dirs'

open_as-Made :
    (o : Opening) (path : DbPath) (dirs : List Dir)
    → Made path dirs (discard (open_as o path true dirs).0) (open_as o path true dirs).1
unfolding discard open_as
open_as-Made no_directory path dirs = open_as-Extends no_directory path dirs
open_as-Made no_connection path dirs = open_as-Extends no_connection path dirs
open_as-Made unfinished path dirs = open_as-Extends unfinished path dirs
open_as-Made opened path dirs =
    (open_as-Extends opened path dirs, exists-put_db-create_dirs path.workspace path.child dirs)

abbrev MadeIn : DbPath → Manager → Result (Unit {0}) × Manager → Type 0
MadeIn path m (r, m') = Made path m.dirs r m'.dirs × (m'.cache ≡ m.cache)

open_new-MadeIn : (path : DbPath) (m : Manager) → MadeIn path m (open_new path m)
unfolding open_new open_instance_services
open_new-MadeIn path m = elim (Bool-cases (exists m.dirs path)) [
  | inl there ↦ rw there (((λ q h. h), there), refl)
  | inr new ↦ rw new ((open_as-Made (next_opening m.openings).0 path m.dirs, refl))
]

new_path-Extends :
    (id : String) (parent : Option String) (dirs dirs' : List Dir) (path : DbPath)
    → Extends dirs dirs'
    → new_path id parent dirs ≡ some path
    → new_path id parent dirs' ≡ some path
unfolding new_path
new_path-Extends id none dirs dirs' path h e = e
new_path-Extends id (some parent) dirs dirs' path h e =
    let place : DbPath = record { workspace = parent; child = none } in
    elim (Bool-cases (exists dirs place)) [
      | inl there ↦ rw (h place there) (rw there at e)
      | inr absent ↦ absurd (cc (rw absent at e))
    ]

-- What a provisioning answers and leaves.
abbrev pub Provisioned :
    (String → Bool) → String → Option String → Manager → Result (Unit {0}) × Manager → Type 0
Provisioned is_uuid id parent m (ok u, m') =
    Extends m.dirs m'.dirs
    × IsCoherent m'
    × ((path : DbPath) × (new_path id parent m.dirs ≡ some path) × (exists m'.dirs path ≡ true))
    × (provision_instance is_uuid id parent m' ≡ (ok tt, m'))
Provisioned is_uuid id parent m (err e, m') = Extends m.dirs m'.dirs × IsCoherent m'

module _ (is_uuid : String → Bool) (id : String) (parent : Option String)
    (valid : (is_uuid id && parent_is_uuid is_uuid parent) ≡ true) where
  again :
      (m : Manager) (path : DbPath)
      → new_path id parent m.dirs ≡ some path
      → exists m.dirs path ≡ true
      → provision_instance is_uuid id parent m ≡ (ok tt, m)
  unfolding provision_instance provision_at open_new
  again m path e there = rw (valid, e, there) refl

  made_lem :
      (m : Manager) (path : DbPath) (r : Result (Unit {0}) × Manager)
      → IsCoherent m
      → new_path id parent m.dirs ≡ some path
      → MadeIn path m r
      → Provisioned is_uuid id parent m r
  made_lem m path (ok u, m') s e ((more, there), kept) = (
    more,
    subst (λ c. Sound m'.dirs c) (sym kept) (Sound-mono m.dirs m'.dirs m.cache more s),
    (path, e, there),
    again m' path (new_path-Extends id parent m.dirs m'.dirs path more e) there,
  )
  made_lem m path (err x, m') s e (more, kept) =
      (more, subst (λ c. Sound m'.dirs c) (sym kept) (Sound-mono m.dirs m'.dirs m.cache more s))

  provision_at-Provisioned :
      (m : Manager) (found : Option DbPath)
      → IsCoherent m
      → new_path id parent m.dirs ≡ found
      → Provisioned is_uuid id parent m (provision_at found m)
  unfolding provision_at
  provision_at-Provisioned m none s e = ((λ q h. h), s)
  provision_at-Provisioned m (some path) s e =
      made_lem m path (open_new path m) s e (open_new-MadeIn path m)

-- However the opening ends, provisioning an instance takes no database away and keeps the cache
-- coherent. After a success the database of the instance is on disk, at the top or under its
-- parent, and provisioning it again succeeds and changes nothing.
pub provision_instance-Provisioned :
    (is_uuid : String → Bool) (id : String) (parent : Option String) (m : Manager)
    → IsCoherent m
    → Provisioned is_uuid id parent m (provision_instance is_uuid id parent m)
provision_instance-Provisioned is_uuid id parent m s =
    elim (Bool-cases (is_uuid id && parent_is_uuid is_uuid parent)) [
      | inl valid ↦
          subst (Provisioned is_uuid id parent m) (sym (passed valid))
            (provision_at-Provisioned is_uuid id parent valid m (new_path id parent m.dirs) s refl)
      | inr invalid ↦
          subst (Provisioned is_uuid id parent m) (sym (refused invalid)) ((λ q h. h), s)
    ]
  where
    passed :
        (is_uuid id && parent_is_uuid is_uuid parent) ≡ true
        → provision_instance is_uuid id parent m ≡ provision_at (new_path id parent m.dirs) m
    passed valid = unfold provision_instance in rw valid refl

    refused :
        (is_uuid id && parent_is_uuid is_uuid parent) ≡ false
        → provision_instance is_uuid id parent m ≡ (err invalid_id, m)
    refused invalid = unfold provision_instance in rw invalid refl
