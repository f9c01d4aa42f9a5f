-- ===== src/Tenants/Coherent.antt =====
-- The cache of the pool manager holds, for each of its keys, a pool over a database of that
-- instance, which is on disk.
use pdt.Base.{
  String, ◌≡◌, refl, subst, ◌∙◌, Bool, true, false, Option, none, some, List, [], ◌∷◌, ◌++◌, ◌==◌,
  eq_iff, filter, arith, Bool-cases, inl, inr, ◌⊎◌,
}
use pdt.Tenants.Tree.{
  Dir, DbPath, exists, locate_db, find_parent, has_child_db, child_path, listing, db_exists,
}
use pdt.Tenants.Databases.{exists-create_dirs, Holds, locate_db-Holds}
use pdt.Tenants.Manager.{
  TenantError, not_provisioned, invalid_id, other, Result, ok, err, Services, global, instance_at,
  Opening, opened, no_directory, no_connection, unfinished, Manager, cached, uncache, insert,
  open_as, next_opening, open_instance_services, keep_open, open_located, services_of, get_services,
}

abbrev pub Sound : List Dir → List (String × DbPath) → Type 0
Sound dirs [] = Unit
Sound dirs ((key, path) ∷ cache) = Holds dirs key path × Sound dirs cache

abbrev pub IsCoherent : Manager → Type 0
IsCoherent m = Sound m.dirs m.cache

-- The databases that are there stay.
abbrev pub Extends : List Dir → List Dir → Type 0
Extends dirs dirs' = (path : DbPath) → exists dirs path ≡ true → exists dirs' path ≡ true

pub Sound-mono :
    (dirs dirs' : List Dir) (cache : List (String × DbPath))
    → Extends dirs dirs'
    → Sound dirs cache
    → Sound dirs' cache
Sound-mono dirs dirs' [] h s = tt
Sound-mono dirs dirs' ((key, path) ∷ cache) h ((own, there), s) =
    ((own, h path there), Sound-mono dirs dirs' cache h s)

pub Sound-filter :
    (dirs : List Dir) (p : String × DbPath → Bool) (cache : List (String × DbPath))
    → Sound dirs cache
    → Sound dirs (filter p cache)
Sound-filter dirs p [] s = tt
Sound-filter dirs p ((key, path) ∷ cache) (h, s) = elim (Bool-cases (p (key, path))) [
  | inl kept ↦ rw kept (h, Sound-filter dirs p cache s)
  | inr dropped ↦ rw dropped (Sound-filter dirs p cache s)
]

Sound-append :
    (dirs : List Dir) (id : String) (path : DbPath) (cache : List (String × DbPath))
    → Sound dirs cache
    → Holds dirs id path
    → Sound dirs (cache ++ (id, path) ∷ [])
Sound-append dirs id path [] s h = (h, tt)
Sound-append dirs id path ((key, q) ∷ cache) (k, s) h = (k, Sound-append dirs id path cache s h)

Sound-insert :
    (dirs : List Dir) (id : String) (path : DbPath) (cache : List (String × DbPath))
    → Sound dirs cache
    → Holds dirs id path
    → Sound dirs (insert id path cache)
unfolding insert uncache
Sound-insert dirs id path cache s h = Sound-append dirs id path _ (Sound-filter dirs _ cache s) h

cached-Holds :
    (dirs : List Dir) (id : String) (cache : List (String × DbPath)) (path : DbPath)
    → Sound dirs cache
    → cached id cache ≡ some path
    → Holds dirs id path
unfolding cached
cached-Holds dirs id [] path s h = absurd (cc h)
cached-Holds dirs id ((key, q) ∷ cache) path (k, s) h = elim (Bool-cases (key == id)) [
  | inl hit ↦
      let same : q ≡ path = ground (arith, hit) in
      subst (λ x. Holds dirs x path) ((eq_iff key id).0 hit) (subst (Holds dirs key) same k)
  | inr miss ↦ cached-Holds dirs id cache path s (ground (arith, miss))
]

-- What an opening without `create_if_missing` leaves: the same databases.
abbrev pub SameDbs : List Dir → List Dir → Type 0
SameDbs dirs dirs' = (path : DbPath) → exists dirs' path ≡ exists dirs path

open_as-SameDbs :
    (o : Opening) (path : DbPath) (dirs : List Dir) → SameDbs dirs (open_as o path false dirs).1
unfolding open_as
open_as-SameDbs no_directory path dirs q = refl
open_as-SameDbs no_connection path dirs q = exists-create_dirs path.workspace path.child dirs q
open_as-SameDbs unfinished path dirs q = exists-create_dirs path.workspace path.child dirs q
open_as-SameDbs opened path dirs q = exists-create_dirs path.workspace path.child dirs q

open_as-path :
    (o : Opening) (path q : DbPath) (create : Bool) (dirs : List Dir)
    → (open_as o path create dirs).0 ≡ ok q
    → path ≡ q
unfolding open_as
open_as-path no_directory path q create dirs h = absurd (cc h)
open_as-path no_connection path q create dirs h = absurd (cc h)
open_as-path unfinished path q true dirs h = absurd (cc h)
open_as-path unfinished path q false dirs h = absurd (cc h)
open_as-path opened path q true dirs h = cc h
open_as-path opened path q false dirs h = ground arith

-- What `get_services` answers for an instance, and leaves.
abbrev pub Served : String → Manager → Result Services → Type 0
Served id m (ok global) = ⊥
Served id m (ok (instance_at path)) = Holds m.dirs id path
Served id m (err not_provisioned) =
    (exists m.dirs (record { workspace = id; child = none }) ≡ false)
    × ((find_parent (has_child_db id) m.dirs ≡ none) ⊎ (m.readable none ≡ false))
Served id m (err invalid_id) = Unit
Served id m (err other) = Unit

abbrev pub After : String → Manager → Result Services × Manager → Type 0
After id m (r, m') = SameDbs m.dirs m'.dirs × Served id m r × IsCoherent m'

keep_open-After :
    (id : String) (m : Manager) (path : DbPath) (r : Result DbPath) (m' : Manager)
    → Holds m.dirs id path
    → SameDbs m.dirs m'.dirs
    → Sound m'.dirs m'.cache
    → ((q : DbPath) → r ≡ ok q → path ≡ q)
    → ((e : TenantError) → r ≡ err e → e ≡ other)
    → After id m (keep_open id r m')
unfolding keep_open
keep_open-After id m path (err not_provisioned) m' h same s at e =
    absurd (cc (e not_provisioned refl))
keep_open-After id m path (err invalid_id) m' h same s at e = (same, tt, s)
keep_open-After id m path (err other) m' h same s at e = (same, tt, s)
keep_open-After id m path (ok q) m' h same s at e =
    let there : Holds m.dirs id q = subst (Holds m.dirs id) (at q refl) h in
    (same, there, Sound-insert m'.dirs id q m'.cache s (there.0, same q ∙ there.1))

open_as-error :
    (o : Opening) (path : DbPath) (create : Bool) (dirs : List Dir) (e : TenantError)
    → (open_as o path create dirs).0 ≡ err e
    → e ≡ other
unfolding open_as
open_as-error no_directory path create dirs e h = cc h
open_as-error no_connection path create dirs e h = cc h
open_as-error unfinished path true dirs e h = cc h
open_as-error unfinished path false dirs e h = cc h
open_as-error opened path true dirs e h = absurd (cc h)
open_as-error opened path false dirs e h = ground arith

no_parent : (id : String) (found : Option String) → child_path id found ≡ none → found ≡ none
unfolding child_path
no_parent id none e = refl
no_parent id (some w) e = absurd (cc e)

unlisted :
    (id : String) (dirs : List Dir) (readable : Bool)
    → child_path id (find_parent (has_child_db id) (listing readable dirs)) ≡ none
    → (find_parent (has_child_db id) dirs ≡ none) ⊎ (readable ≡ false)
unfolding listing
unlisted id dirs true e = inl (no_parent id _ e)
unlisted id dirs false e = inr refl

missing :
    (id : String) (m : Manager)
    → locate_db (m.readable none) m.dirs id ≡ none
    → Served id m (err not_provisioned)
unfolding locate_db
missing id m e = elim (Bool-cases (db_exists m.dirs id none)) [
  | inl top ↦ absurd (ground (arith, top))
  | inr below ↦ (below, unlisted id m.dirs (m.readable none) (ground (arith, below)))
]

open_located-After :
    (id : String) (found : Option DbPath) (m : Manager)
    → IsCoherent m
    → locate_db (m.readable none) m.dirs id ≡ found
    → After id m (open_located id found m)
unfolding open_located open_instance_services
open_located-After id none m s e = (λ path. refl, missing id m e, s)
open_located-After id (some path) m s e =
    let o = (next_opening m.openings).0 in
    let after = open_as o path false m.dirs in
    let same = open_as-SameDbs o path m.dirs in
    keep_open-After id m path after.0
      (record m { dirs = after.1; openings = (next_opening m.openings).1 })
      (locate_db-Holds (m.readable none) m.dirs id path e) same
      (Sound-mono m.dirs after.1 m.cache (λ q there. same q ∙ there) s)
      (λ q. open_as-path o path q false m.dirs) (λ x. open_as-error o path false m.dirs x)

services_of-After :
    (is_uuid : String → Bool) (id : String) (found : Option DbPath) (m : Manager)
    → IsCoherent m
    → cached id m.cache ≡ found
    → After id m (services_of is_uuid found id m)
unfolding services_of
services_of-After is_uuid id (some path) m s e =
    (λ q. refl, cached-Holds m.dirs id m.cache path s e, s)
services_of-After is_uuid id none m s e = elim (Bool-cases (is_uuid id)) [
  | inl valid ↦ rw valid (open_located-After id (locate_db (m.readable none) m.dirs id) m s refl)
  | inr invalid ↦ rw invalid ((λ q. refl, tt, s))
]

-- However the openings end, the look-up of an instance's services makes no database and loses
-- none, and keeps the cache coherent. It answers services over a database of that very instance,
-- which is on disk, or an error, and that the instance is not provisioned only where no database
-- of it is found at the top, and none under a workspace or the root cannot be read.
pub get_services-After :
    (is_uuid : String → Bool) (id : String) (m : Manager)
    → IsCoherent m
    → After id m (get_services is_uuid (some id) m)
unfolding get_services
get_services-After is_uuid id m s = services_of-After is_uuid id (cached id m.cache) m s refl
