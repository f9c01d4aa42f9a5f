-- ===== src/Model/World.antt =====
-- The world of an operation: the tables of one store, the archive files, the clock, the supply of
-- uuids, and a schedule of the failures that queries and file operations meet.
pub mod Hoare
pub mod Outcome
pub mod Keeps
pub mod Read
pub mod Transaction
use pdt.Base.{
  ◌==◌, ◌&&◌, eqb, Option, none, some, suc, ◌+◌, ℕ, String, Bool, true, false, List, [], ◌∷◌,
}
use pdt.Model.Error.{ApiError, Result, ok, err, panic}
use pdt.Model.Asset.{Asset}
use pdt.Model.Relation.{Relation, Collection}
use pdt.Model.Group.{Group, GroupMember}
use pdt.Model.Audit.{AuditEntry, ArchivePath}

unfoldable pub same_path : ArchivePath → ArchivePath → Bool
same_path p q = p.dir == q.dir && eqb p.second q.second

-- What outlives an operation: the tables of a store (migrations/sqlite), and the archive files. A
-- hydrated asset carries its tags and metadata, and a hydrated collection its asset ids.
pub record Store : Type 0 where
  pub assets : List Asset
  pub relations : List Relation
  pub collections : List Collection
  pub audit_entries : List AuditEntry
  pub groups : List Group
  pub group_members : List GroupMember
  pub archives : ArchivePath → Option (List AuditEntry)

-- What an operation reads and writes. `ticks` says how far the clock moves at each coming reading
-- of it. `uuid n` is the n-th uuid that `Uuid::new_v4` returns, and `minted` counts those returned.
pub record State : Type 0 where
  pub store : Store
  pub open store use *
  pub clock : ℕ
  pub ticks : List ℕ
  pub uuid : ℕ → String
  pub minted : ℕ

-- `faults` says of each coming query or file operation whether it fails; past its end none does.
pub record World : Type 0 where
  pub state : State
  pub faults : List Bool

abbrev pub Exec : Type 0 → Type 0
Exec A = World → Result A × World

module _ {A : Type 0} where
  unfoldable pub pure : A → Exec A
  pure a w = (ok a, w)

  unfoldable pub raise : ApiError → Exec A
  raise e w = (err e, w)

  unfoldable pub crash : Exec A
  crash w = (panic, w)

  -- A step that may fail: the schedule decides, and a failed step changes nothing else.
  attempt_from : List Bool → ApiError → (State → Result A × State) → State → Result A × World
  attempt_from [] e f s = let (r, t) = f s in (r, record { state = t; faults = [] })
  attempt_from (true ∷ rest) e f s = (err e, record { state = s; faults = rest })
  attempt_from (false ∷ rest) e f s = let (r, t) = f s in (r, record { state = t; faults = rest })

  unfoldable pub attempt : ApiError → (State → Result A × State) → Exec A
  unfolding attempt_from
  attempt e f w = attempt_from w.faults e f w.state

  -- A read of the store.
  unfoldable pub query : (Store → A) → Exec A
  unfolding attempt
  query f = attempt ApiError.database λ s. (ok (f s.store), s)

  -- A file operation of the archive; a failure of it is an `Internal` error.
  unfoldable pub file_op : (Store → A × Store) → Exec A
  unfolding attempt
  file_op f =
      attempt ApiError.internal λ s. let (a, t) = f s.store in (ok a, record s { store = t })

  commit : State → Option (A × Store) → Result A × State
  commit s none = (err ApiError.database, s)
  commit s (some (a, t)) = (ok a, record s { store = t })

  -- A statement that writes the store and answers, such as with `rows_affected`; `none` means that
  -- it violates a constraint, and then it writes nothing.
  unfoldable pub execute : (Store → Option (A × Store)) → Exec A
  unfolding attempt commit
  execute f = attempt ApiError.database λ s. commit s (f s.store)

-- `if !b { return Err(e); }`
unfoldable pub ensure : Bool → ApiError → Exec (Unit {0})
unfolding pure raise
ensure true e = pure tt
ensure false e = raise e

-- `Uuid::new_v4`
unfoldable pub mint : Exec String
mint w = (
  ok (w.state.uuid w.state.minted),
  record w { state = record w.state { minted = suc w.state.minted } },
)

advance : List ℕ → State → State
advance [] s = s
advance (d ∷ rest) s = record s { clock = s.clock + d; ticks = rest }

-- `Utc::now`
unfoldable pub now : Exec ℕ
unfolding advance
now w = let s = advance w.state.ticks w.state in (ok s.clock, record w { state = s })

module _ {A B : Type 0} where
  abbrev pub continue : Result A → (A → Exec B) → Exec B
  continue (ok a) f w = f a w
  continue (err e) f w = (err e, w)
  continue panic f w = (panic, w)

  infixl 10 ◌>>=◌
  abbrev pub ◌>>=◌ : Exec A → (A → Exec B) → Exec B
  ◌>>=◌ m f w = let (r, w') = m w in continue r f w'

  infixl 10 ◌>>◌
  abbrev pub ◌>>◌ : Exec A → Exec B → Exec B
  ◌>>◌ m n w = let (r, w') = m w in continue r (λ _. n) w'

-- `if let Some(a) = o { m(a) }`
unfoldable pub when_some : {A : Type 0} → Option A → (A → Exec (Unit {0})) → Exec (Unit {0})
when_some none f = pure tt
when_some (some a) f = f a

-- `for x in xs { m(x) }`
unfoldable pub for_each : {A : Type 0} → (A → Exec (Unit {0})) → List A → Exec (Unit {0})
for_each f [] = pure tt
for_each f (x ∷ xs) = do f x; for_each f xs

-- Where the body does not return, or the commit fails, the store is as it was at the beginning.
abbrev pub settle : {A : Type 0} → Store → Result A × World → Result A × World
settle old (ok a, w) = (ok a, w)
settle old (err e, w) = (err e, record w { state = record w.state { store = old } })
settle old (panic, w) = (panic, record w { state = record w.state { store = old } })

-- A transaction of the pool: it begins, runs the body, and commits.
unfoldable pub transaction : {A : Type 0} → Exec A → Exec A
transaction body = do query λ s. tt; λ w. settle w.state.store ((body >>= λ a. query λ s. a) w)

-- `let _ = m;`: the next step follows, whether `m` failed or not. A panic goes on.
abbrev pub swallow : {A : Type 0} → Result A → Result (Unit {0})
swallow (ok a) = ok tt
swallow (err e) = ok tt
swallow panic = panic

unfoldable pub try : {A : Type 0} → Exec A → Exec (Unit {0})
try m w = let (r, w') = m w in (swallow r, w')
