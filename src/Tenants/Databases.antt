-- ===== src/Tenants/Databases.antt =====
-- Which databases are on disk after directories and databases are made, and where one is found.
use pdt.Base.{
  String, ◌≡◌, refl, subst, ◌∙◌, Bool, true, false, Option, none, some, List, [], ◌∷◌, ◌++◌, ◌==◌,
  ◌&&◌, ◌||◌, eq_iff, map, any, arith, Bool-cases, inl, inr, if◌then◌else◌,
}
use pdt.Tenants.Tree.{
  Dir, DbPath, owner, instance_of, exists, db_exists, has_child_db, has_child, add_workspace,
  add_child, create_dirs, put_child_db, put_db, find_parent, child_path, listing, locate_db,
}

module _ {ℓ} {A : Type ℓ} where
  any-map_same :
      (p : A → Bool) (g : A → A) (xs : List A)
      → ((a : A) → p (g a) ≡ p a)
      → any p (map g xs) ≡ any p xs
  any-map_same p g [] h = refl
  any-map_same p g (x ∷ xs) h = ground (arith, h x, any-map_same p g xs h)

  pub any-map_mono :
      (p q : A → Bool) (g : A → A) (xs : List A)
      → ((a : A) → p a ≡ true → q (g a) ≡ true)
      → any p xs ≡ true
      → any q (map g xs) ≡ true
  any-map_mono p q g [] h e = cc
  any-map_mono p q g (x ∷ xs) h e = ground (arith, h x, any-map_mono p q g xs h)

  any-append_one : (p : A → Bool) (xs : List A) (x : A) → any p (xs ++ x ∷ []) ≡ (any p xs || p x)
  any-append_one p [] x = ground arith
  any-append_one p (y ∷ xs) x = ground (arith, any-append_one p xs x)

-- Making a directory makes no database.
has_child_db-add_child :
    (id c : String) (d : Dir) → has_child_db c (add_child id d) ≡ has_child_db c d
unfolding has_child_db add_child
has_child_db-add_child id c d = elim (Bool-cases (has_child id d)) [
  | inl there ↦ rw there refl
  | inr new ↦
      rw new (any-append_one _ d.children (record { name = id; has_db = false }) ∙ ground arith)
]

db_exists-add_workspace :
    (w : String) (dirs : List Dir) (v : String) (child : Option String)
    → db_exists (add_workspace w dirs) v child ≡ db_exists dirs v child
unfolding db_exists add_workspace has_child_db
db_exists-add_workspace w dirs v none = elim (Bool-cases (any (λ d. d.name == w) dirs)) [
  | inl there ↦ rw there refl
  | inr new ↦ rw new (any-append_one _ dirs _ ∙ ground arith)
]
db_exists-add_workspace w dirs v (some c) = elim (Bool-cases (any (λ d. d.name == w) dirs)) [
  | inl there ↦ rw there refl
  | inr new ↦ rw new (any-append_one _ dirs _ ∙ ground arith)
]

pub add_child_self :
    (id : String) (d : Dir)
    → ((add_child id d).name ≡ d.name) × ((add_child id d).has_db ≡ d.has_db)
unfolding add_child
add_child_self id d = (ground arith, ground arith)

same_child :
    (w v id : String) (child : Option String) (dirs : List Dir)
    → db_exists (map (λ d. if d.name == w then add_child id d else d) dirs) v child
      ≡ db_exists dirs v child
unfolding db_exists
same_child w v id none dirs = any-map_same _ _ dirs λ d. elim (Bool-cases (d.name == w)) [
  | inl here ↦ rw (here, (add_child_self id d).0, (add_child_self id d).1) refl
  | inr other ↦ rw other refl
]
same_child w v id (some c) dirs = any-map_same _ _ dirs λ d. elim (Bool-cases (d.name == w)) [
  | inl here ↦ rw (here, (add_child_self id d).0, has_child_db-add_child id c d) refl
  | inr other ↦ rw other refl
]

pub exists-create_dirs :
    (w : String) (child : Option String) (dirs : List Dir) (path : DbPath)
    → exists (create_dirs w child dirs) path ≡ exists dirs path
unfolding create_dirs
exists-create_dirs w none dirs path = db_exists-add_workspace w dirs path.workspace path.child
exists-create_dirs w (some id) dirs path =
    same_child w path.workspace id path.child (add_workspace w dirs)
    ∙ db_exists-add_workspace w dirs path.workspace path.child

-- A new database leaves those that are there.
has_child_db-put :
    (id c : String) (d : Dir) → has_child_db c d ≡ true → has_child_db c (put_child_db id d) ≡ true
unfolding has_child_db put_child_db
has_child_db-put id c d = any-map_mono _ _ _ d.children (λ x h. ground arith)

put_kept :
    (w v id c : String) (d : Dir)
    → (d.name == v && has_child_db c d) ≡ true
    → ((put_child_db id d).name == v && has_child_db c (put_child_db id d)) ≡ true
unfolding put_child_db
put_kept w v id c d h = ground (arith, has_child_db-put id c d)

pub exists-put_db :
    (w : String) (child : Option String) (dirs : List Dir) (v : String) (at : Option String)
    → db_exists dirs v at ≡ true
    → db_exists (put_db w child dirs) v at ≡ true
unfolding db_exists put_db
exists-put_db w none dirs v none = any-map_mono _ _ _ dirs λ d h. ground arith
exists-put_db w none dirs v (some c) =
    any-map_mono _ _ _ dirs
      λ d h. elim (Bool-cases (d.name == w)) [ inl here ↦ rw here h | inr other ↦ rw other h ]
exists-put_db w (some id) dirs v none = any-map_mono _ _ _ dirs λ d h.
    elim (Bool-cases (d.name == w)) [
      | inl here ↦ rw here (unfold put_child_db in h)
      | inr other ↦ rw other h
    ]
exists-put_db w (some id) dirs v (some c) = any-map_mono _ _ _ dirs λ d h.
    elim (Bool-cases (d.name == w)) [
      | inl here ↦ rw here (put_kept w v id c d h)
      | inr other ↦ rw other h
    ]

-- Where a database is found, it is, and its place is the instance's.
find_parent_lem :
    (p : Dir → Bool) (dirs : List Dir) (w : String)
    → find_parent p dirs ≡ some w
    → any (λ d. d.name == w && p d) dirs ≡ true
unfolding find_parent
find_parent_lem p [] w h = absurd (cc h)
find_parent_lem p (d ∷ dirs) w h = elim (Bool-cases (p d)) [
  | inl here ↦
      let name : d.name ≡ w = ground (arith, here) in ground (arith, (eq_iff d.name w).1 name, here)
  | inr there ↦ ground (arith, there, find_parent_lem p dirs w)
]

-- A place that is the instance's, with its database.
abbrev pub Holds : List Dir → String → DbPath → Type 0
Holds dirs id path = (owner path ≡ id) × (exists dirs path ≡ true)

child_path-Holds :
    (dirs : List Dir) (id : String) (found : Option String) (path : DbPath)
    → find_parent (has_child_db id) dirs ≡ found
    → child_path id found ≡ some path
    → Holds dirs id path
unfolding child_path instance_of db_exists
child_path-Holds dirs id none path e h = absurd (cc h)
child_path-Holds dirs id (some w) path e h =
    let same : record { workspace = w; child = some id } ≡ path = cc h in
    subst (Holds dirs id) same (refl, find_parent_lem (has_child_db id) dirs w e)

listed_lem :
    (readable : Bool) (dirs : List Dir) (id : String) (path : DbPath)
    → child_path id (find_parent (has_child_db id) (listing readable dirs)) ≡ some path
    → Holds dirs id path
unfolding listing find_parent child_path
listed_lem true dirs id path h =
    child_path-Holds dirs id (find_parent (has_child_db id) dirs) path refl h
listed_lem false dirs id path h = absurd (cc h)

pub locate_db-Holds :
    (readable : Bool) (dirs : List Dir) (id : String) (path : DbPath)
    → locate_db readable dirs id ≡ some path
    → Holds dirs id path
unfolding locate_db instance_of
locate_db-Holds readable dirs id path h = elim (Bool-cases (db_exists dirs id none)) [
  | inl top ↦
      let same : record { workspace = id; child = none } ≡ path = ground (arith, top) in
      subst (Holds dirs id) same (refl, top)
  | inr below ↦ listed_lem readable dirs id path (ground (arith, below))
]
