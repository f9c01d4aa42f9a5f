-- ===== src/Tenants/Pools.antt =====
-- Which pools are left where those of a directory are dropped.
use pdt.Base.{
  String, ◌≡◌, refl, sym, subst, Bool, true, false, Option, none, some, List, [], ◌∷◌, ◌++◌, ◌==◌,
  ◌&&◌, ◌||◌, eq_iff, map, any, arith, Bool-cases, inl, inr,
}
use pdt.Tenants.Tree.{Child, Dir, DbPath, instance_of, db_exists, has_child_db, entries}
use pdt.Tenants.Databases.{Holds}
use pdt.Tenants.Coherent.{Sound}
use pdt.Tenants.Manager.{Removal, cached, uncache}
use pdt.Tenants.Deletion.{drop_pools, remove_tree}
use pdt.Tenants.Removed.{remove_tree-other, remove_tree-child}

abbrev AllOf : (String → DbPath → Type 0) → List (String × DbPath) → Type 0
AllOf Q [] = Unit
AllOf Q ((key, path) ∷ cache) = Q key path × AllOf Q cache

AllOf-mono :
    (Q R : String → DbPath → Type 0) (cache : List (String × DbPath))
    → ((key : String) (path : DbPath) → Q key path → R key path)
    → AllOf Q cache
    → AllOf R cache
AllOf-mono Q R [] h a = tt
AllOf-mono Q R ((key, path) ∷ cache) h (q, a) = (h key path q, AllOf-mono Q R cache h a)

AllOf-uncache :
    (Q : String → DbPath → Type 0) (name : String) (cache : List (String × DbPath))
    → AllOf Q cache
    → AllOf (λ key path. Q key path × ((key == name) ≡ false)) (uncache name cache)
unfolding uncache
AllOf-uncache Q name [] a = tt
AllOf-uncache Q name ((key, path) ∷ cache) (q, a) = elim (Bool-cases (key == name)) [
  | inl dropped ↦ rw dropped (AllOf-uncache Q name cache a)
  | inr kept ↦ rw kept ((q, kept), AllOf-uncache Q name cache a)
]

-- What is left in the cache is neither the instance nor one of the names.
AllOf-drop_pools :
    (Q : String → DbPath → Type 0) (id : String) (names : List String)
    (cache : List (String × DbPath))
    → AllOf Q cache
    → AllOf
        (λ key path. Q key path × ((key == id) ≡ false) × (any (λ n. key == n) names ≡ false))
        (drop_pools id names cache)
unfolding drop_pools
AllOf-drop_pools Q id [] cache a =
    AllOf-mono _ _ _ (λ key path (q, ne). (q, ne, refl)) (AllOf-uncache Q id cache a)
AllOf-drop_pools Q id (name ∷ names) cache a =
    AllOf-mono _ _ _ (λ key path ((q, ne, out), apart). (q, ne, ground (arith, apart)))
      (AllOf-uncache _ name _ (AllOf-drop_pools Q id names cache a))

Sound-AllOf :
    (dirs : List Dir) (cache : List (String × DbPath)) → Sound dirs cache → AllOf (Holds dirs) cache
Sound-AllOf dirs [] s = tt
Sound-AllOf dirs ((key, path) ∷ cache) (h, s) = (h, Sound-AllOf dirs cache s)

AllOf-Sound :
    (dirs : List Dir) (cache : List (String × DbPath)) → AllOf (Holds dirs) cache → Sound dirs cache
AllOf-Sound dirs [] s = tt
AllOf-Sound dirs ((key, path) ∷ cache) (h, s) = (h, AllOf-Sound dirs cache s)

any-append {ℓ} :
    {A : Type ℓ} (p : A → Bool) (xs ys : List A) → any p (xs ++ ys) ≡ (any p xs || any p ys)
any-append p [] ys = refl
any-append p (x ∷ xs) ys = ground (arith, any-append p xs ys)

-- A child with a database is among the entries of its workspace.
child_name :
    (c : String) (children : List Child)
    → any (λ x. x.name == c && x.has_db) children ≡ true
    → any (λ n. c == n) (map (λ x. x.name) children) ≡ true
child_name c [] h = cc
child_name c (x ∷ children) h =
    ground
      (arith, child_name c children, eq_iff x.name c, eq_iff c x.name, λ (e : x.name ≡ c). sym e)

entries_lem :
    (w c : String) (dirs : List Dir)
    → db_exists dirs w (some c) ≡ true
    → any (λ n. c == n) (entries w dirs) ≡ true
unfolding db_exists entries has_child_db
entries_lem w c [] h = cc
entries_lem w c (d ∷ dirs) h = elim (Bool-cases (d.name == w)) [
  | inl here ↦
      rw (here, any-append (λ n. c == n) (map (λ x. x.name) d.children) (entries w dirs))
        (ground (arith, here, child_name c d.children, entries_lem w c dirs))
  | inr there ↦ rw there (entries_lem w c dirs (ground (arith, there)))
]

-- A pool that is left is not over a database of the removed workspace.
outside :
    (dirs : List Dir) (id key v : String) (child : Option String)
    → instance_of v child ≡ key
    → db_exists dirs v child ≡ true
    → (key == id) ≡ false
    → any (λ n. key == n) (entries id dirs) ≡ false
    → (v == id) ≡ false
unfolding instance_of
outside dirs id key v none own there ne out = subst (λ x. (x == id) ≡ false) (sym own) ne
outside dirs id key v (some c) own there ne out = elim (Bool-cases (v == id)) [
  | inr apart ↦ apart
  | inl same ↦
      let inside : db_exists dirs id (some c) ≡ true =
        subst (λ x. db_exists dirs x (some c) ≡ true) ((eq_iff v id).0 same) there in
      let listed = entries_lem id c dirs inside in
      absurd (cc (subst (λ x. any (λ n. x == n) (entries id dirs) ≡ true) own listed, out))
]

pub Sound-top :
    (r : Removal) (id : String) (dirs : List Dir) (cache : List (String × DbPath))
    → Sound dirs cache
    → Sound (remove_tree r id none dirs) (drop_pools id (entries id dirs) cache)
Sound-top r id dirs cache s = AllOf-Sound _ _ (
    AllOf-mono _ _ _
      (λ key path ((own, there), ne, out). (
        own,
        remove_tree-other r id dirs path.workspace path.child
            (outside dirs id key path.workspace path.child own there ne out) there,
      ))
      (AllOf-drop_pools (Holds dirs) id (entries id dirs) cache (Sound-AllOf dirs cache s)))

pub Sound-child :
    (r : Removal) (w id : String) (dirs : List Dir) (cache : List (String × DbPath))
    → Sound dirs cache
    → Sound (remove_tree r w (some id) dirs) (drop_pools id [] cache)
Sound-child r w id dirs cache s = AllOf-Sound _ _ (
    AllOf-mono _ _ _
      (λ key path ((own, there), ne, out). (
        own,
        remove_tree-child r w id dirs path.workspace path.child
            (subst (λ x. (x == id) ≡ false) (sym own) ne) there,
      ))
      (AllOf-drop_pools (Holds dirs) id [] cache (Sound-AllOf dirs cache s)))

cached-AllOf :
    (id : String) (cache : List (String × DbPath))
    → AllOf (λ key path. (key == id) ≡ false) cache
    → cached id cache ≡ none
unfolding cached
cached-AllOf id [] a = refl
cached-AllOf id ((key, path) ∷ cache) (ne, a) = rw ne (cached-AllOf id cache a)

AllOf-any : (cache : List (String × DbPath)) → AllOf (λ key path. Unit) cache
AllOf-any [] = tt
AllOf-any ((key, path) ∷ cache) = (tt, AllOf-any cache)

-- The instance itself is dropped.
pub cached-drop_pools :
    (id : String) (names : List String) (cache : List (String × DbPath))
    → cached id (drop_pools id names cache) ≡ none
cached-drop_pools id names cache = cached-AllOf id _ (
    AllOf-mono _ _ _ (λ key path (q, ne, out). ne)
      (AllOf-drop_pools (λ key path. Unit) id names cache (AllOf-any cache)))
