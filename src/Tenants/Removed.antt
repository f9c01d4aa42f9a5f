-- ===== src/Tenants/Removed.antt =====
-- Which databases and directories are left where a directory is removed.
use pdt.Base.{
  String, ◌≡◌, refl, sym, subst, Bool, true, false, not, Option, none, some, List, [], ◌∷◌, ◌==◌,
  eq_iff, filter, any, arith, Bool-cases, inl, inr,
}
use pdt.Tenants.Tree.{Child, Dir, instance_of, db_exists, has_child_db, has_child, dir_exists}
use pdt.Tenants.Databases.{any-map_mono}
use pdt.Tenants.Manager.{Removal, removed, left}
use pdt.Tenants.Deletion.{remove_child, remove_tree}

-- A database is not in what is removed: it stays.
any-filter_mono {ℓ} :
    {A : Type ℓ} (p q : A → Bool) (xs : List A)
    → ((a : A) → p a ≡ true → q a ≡ true)
    → any p xs ≡ true
    → any p (filter q xs) ≡ true
any-filter_mono p q [] h e = cc
any-filter_mono p q (x ∷ xs) h e = ground (arith, h x, any-filter_mono p q xs h)

other_name : (name v w : String) → (name == v) ≡ true → (v == w) ≡ false → (name == w) ≡ false
other_name name v w h ne = subst (λ x. (x == w) ≡ false) (sym ((eq_iff name v).0 h)) ne

-- The databases of another workspace stay.
pub remove_tree-other :
    (r : Removal) (w : String) (dirs : List Dir) (v : String) (child : Option String)
    → (v == w) ≡ false
    → db_exists dirs v child ≡ true
    → db_exists (remove_tree r w none dirs) v child ≡ true
unfolding remove_tree db_exists
remove_tree-other removed w dirs v none ne =
    any-filter_mono _ _ dirs
      λ d h. let apart = other_name d.name v w (ground arith) ne in ground (arith, apart)
remove_tree-other removed w dirs v (some c) ne =
    any-filter_mono _ _ dirs
      λ d h. let apart = other_name d.name v w (ground arith) ne in ground (arith, apart)
remove_tree-other (left db kept) w dirs v none ne =
    any-map_mono _ _ _ dirs λ d h. let apart = other_name d.name v w (ground arith) ne in rw apart h
remove_tree-other (left db kept) w dirs v (some c) ne =
    any-map_mono _ _ _ dirs λ d h. let apart = other_name d.name v w (ground arith) ne in rw apart h

-- The other children of a workspace stay, and its own database.
child_kept :
    (r : Removal) (id c : String) (d : Dir)
    → (c == id) ≡ false
    → has_child_db c d ≡ true
    → has_child_db c (remove_child r id d) ≡ true
unfolding has_child_db remove_child
child_kept removed id c d ne =
    any-filter_mono _ _ d.children
      λ x h. let apart = other_name x.name c id (ground arith) ne in ground (arith, apart)
child_kept (left db kept) id c d ne =
    any-map_mono _ _ _ d.children
      λ x h. let apart = other_name x.name c id (ground arith) ne in rw apart h

remove_child_self :
    (r : Removal) (id : String) (d : Dir)
    → ((remove_child r id d).name ≡ d.name) × ((remove_child r id d).has_db ≡ d.has_db)
unfolding remove_child
remove_child_self removed id d = (refl, refl)
remove_child_self (left db kept) id d = (refl, refl)

pub remove_tree-child :
    (r : Removal) (w id : String) (dirs : List Dir) (v : String) (child : Option String)
    → (instance_of v child == id) ≡ false
    → db_exists dirs v child ≡ true
    → db_exists (remove_tree r w (some id) dirs) v child ≡ true
unfolding remove_tree db_exists instance_of
remove_tree-child r w id dirs v none ne = any-map_mono _ _ _ dirs λ d h.
    elim (Bool-cases (d.name == w)) [
      | inl here ↦ rw (here, (remove_child_self r id d).0, (remove_child_self r id d).1) h
      | inr apart ↦ rw apart h
    ]
remove_tree-child r w id dirs v (some c) ne = any-map_mono _ _ _ dirs λ d h.
    elim (Bool-cases (d.name == w)) [
      | inl here ↦
          let kept = child_kept r id c d ne (ground arith) in
          rw (here, (remove_child_self r id d).0, kept) (ground arith)
      | inr apart ↦ rw apart h
    ]

pub not_top :
    (id : String) (dirs : List Dir) → dir_exists (remove_tree removed id none dirs) id none ≡ false
unfolding dir_exists remove_tree
not_top id [] = refl
not_top id (d ∷ dirs) = ground (arith, not_top id dirs)

not_child : (id : String) (d : Dir) → has_child id (remove_child removed id d) ≡ false
unfolding has_child remove_child
not_child id d = without id d.children
  where
    without :
        (id : String) (xs : List Child)
        → any (λ c. c.name == id) (filter (λ c. not (c.name == id)) xs) ≡ false
    without id [] = refl
    without id (x ∷ xs) = ground (arith, without id xs)

pub not_below :
    (w id : String) (dirs : List Dir)
    → dir_exists (remove_tree removed w (some id) dirs) w (some id) ≡ false
unfolding dir_exists remove_tree
not_below w id [] = refl
not_below w id (d ∷ dirs) = elim (Bool-cases (d.name == w)) [
  | inl here ↦
      rw (here, not_child id d, (remove_child_self removed id d).0)
        (ground (arith, not_below w id dirs))
  | inr apart ↦ rw apart (ground (arith, apart, not_below w id dirs))
]
