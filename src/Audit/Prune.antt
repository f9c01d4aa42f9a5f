-- ===== src/Audit/Prune.antt =====
-- `AuditService::audit_prune`: archive the old entries, verify the count, delete them.
pub mod Copy
pub mod Archive
pub mod Delete
pub mod Correct
pub mod Dry
use mathlib.Core.Option
use pdt.Base.{
  ℕ, zero, suc, ◌+◌, ◌-◌, ◌*◌, ◌/◌, String, Bool, true, false, not, Option, none, some, List, [],
  ◌∷◌, ◌++◌, ◌&&◌, length, eqb, ltb, if◌then◌else◌,
}
use pdt.Model.Error.{ApiError}
use pdt.Model.Audit.{AuditEntry, AuditAction, Changes, ArchivePath}
use pdt.Model.World.{
  Store, Exec, same_path, pure, raise, crash, file_op, ensure, now, try, ◌>>=◌, ◌>>◌,
}
use pdt.Audit.Repository

-- The clock counts nanoseconds from the first instant that chrono represents.
abbrev pub second_ns : ℕ
second_ns = 1_000_000_000

abbrev pub day_ns : ℕ
day_ns = 86_400 * second_ns

-- `Utc::now() - Duration::days(n)`, which panics where no instant represents the difference.
unfoldable pub days_before : ℕ → ℕ → Exec ℕ
days_before days at = if ltb at (days * day_ns) then crash else pure (at - days * day_ns)

-- `File::create`: a file of that name is truncated.
unfoldable pub create_file : ArchivePath → Store → Unit {0} × Store
create_file path s =
    (tt, record s { archives = λ p. if same_path p path then some [] else s.archives p })

-- One row written as a line at the end of the file.
unfoldable pub write_row : ArchivePath → AuditEntry → Store → Unit {0} × Store
write_row path e s = (
  tt,
  record s {
    archives = λ p.
        if same_path p path
        then Option.map (λ rows. rows ++ e ∷ []) (s.archives p)
        else s.archives p;
  },
)

-- `remove_file`
unfoldable pub remove_file : ArchivePath → Store → Unit {0} × Store
remove_file path s =
    (tt, record s { archives = λ p. if same_path p path then none else s.archives p })

-- Directory creation, flush and fsync: they may fail, and change no row.
unfoldable pub touch : Store → Unit {0} × Store
touch s = (tt, s)

-- The rows of one page.
unfoldable pub write_rows : ArchivePath → List AuditEntry → Exec (Unit {0})
unfolding write_row
write_rows path [] = pure tt
write_rows path (e ∷ page) = do file_op (write_row path e); write_rows path page

-- The cursor walk by pages of `limit` rows; it answers the number of rows written. On fuel: a page
-- that is not the last is full, so it takes rows off those that are left.
unfoldable pub copy_pages : ℕ → ArchivePath → ℕ → ℕ → Option String → ℕ → Exec ℕ
unfolding write_rows
copy_pages limit path cutoff zero cursor archived = crash
copy_pages limit path cutoff (suc fuel) cursor archived = do
  (page, next) ← Repository.list_before cutoff limit cursor
  write_rows path page
  elim next [
    | none ↦ pure (archived + length page)
    | some c ↦ copy_pages limit path cutoff fuel (some c) (archived + length page)
  ]

-- What the operation answers, less the inputs that it repeats.
pub data Report : Type 0 where
  dry_run : ℕ → ℕ → List AuditEntry → Report
  -- candidates, archived, deleted, post_count, verified, archive_path
  executed : ℕ → ℕ → ℕ → ℕ → Bool → ArchivePath → Report

unfoldable pub required : Option String → Exec String
required none = raise ApiError.internal
required (some dir) = pure dir

-- The verify: a partial archive is removed and the operation refused.
unfoldable pub verify : Bool → ArchivePath → ℕ → Exec (ArchivePath × ℕ)
unfolding remove_file try
verify true path archived = pure (path, archived)
verify false path archived = do try (file_op (remove_file path)); raise ApiError.internal

-- The archive phase: it answers the file and its number of rows, once that is the number of
-- candidates and the file is on disk.
unfoldable pub archive_phase : ℕ → ℕ → String → Exec (ArchivePath × ℕ)
unfolding touch create_file copy_pages verify
archive_phase cutoff candidates dir = do
  file_op touch
  at ← now
  let path : ArchivePath = record { dir = dir; second = at / second_ns }
  file_op (create_file path)
  archived ← copy_pages 500 path cutoff (suc candidates) none 0
  file_op touch
  file_op touch
  file_op touch
  verify (eqb archived candidates) path archived

-- The delete phase, its check and its own audit entry.
unfoldable pub delete_phase : ℕ → ℕ → ℕ → ArchivePath → ℕ → String → Exec Report
delete_phase cutoff candidates archived path days user = do
  deleted ← Repository.delete_before cutoff
  post_count ← Repository.count_before cutoff
  let verified = eqb post_count 0 && eqb deleted archived
  Repository.create "audit_entries" "*" AuditAction.delete
      (Changes.audit_prune days cutoff archived deleted path) user
  pure (executed candidates archived deleted post_count verified path)

unfoldable pub execute_prune : ℕ → ℕ → Option String → ℕ → String → Exec Report
unfolding required archive_phase delete_phase
execute_prune cutoff candidates archive_dir days user = do
  dir ← required archive_dir
  (path, archived) ← archive_phase cutoff candidates dir
  delete_phase cutoff candidates archived path days user

-- The branch on `dry_run`: the numbers and the first ten candidates, or the execution.
unfoldable pub after_count : Bool → ℕ → ℕ → ℕ → String → Option String → Exec Report
unfolding execute_prune
after_count true cutoff candidates days user archive_dir = do
  (sample, _) ← Repository.list_before cutoff 10 none
  pure (dry_run candidates cutoff sample)
after_count false cutoff candidates days user archive_dir =
    execute_prune cutoff candidates archive_dir days user

unfoldable pub audit_prune : ℕ → Bool → String → Option String → Exec Report
unfolding days_before after_count
audit_prune days dry user archive_dir = do
  at ← now
  cutoff ← days_before days at
  candidates ← Repository.count_before cutoff
  after_count dry cutoff candidates days user archive_dir
