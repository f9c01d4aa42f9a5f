-- ===== src/Audit/Repository.antt =====
-- src/repository/sqlite_audit_repository.rs: the statements on the `audit_entries` table.
pub mod Frame
use pdt.Base.{
  ℕ, suc, String, Bool, true, false, not, Option, none, some, List, [], ◌∷◌, ◌++◌, ◌==◌, ◌&&◌,
  length, filter, any, take, get_last?, ltb, eqb, if◌then◌else◌,
}
use mathlib.Core.Option
use pdt.Base.Order.{text_lt, sort}
use pdt.Model.Error.{ApiError}
use pdt.Model.Audit.{AuditEntry, AuditAction, Changes}
use pdt.Model.World.{Store, Exec, pure, query, execute, mint, now, ◌>>=◌}

-- `INSERT INTO audit_entries`: the primary key is new.
unfoldable pub insert_entry : AuditEntry → Store → Option (AuditEntry × Store)
insert_entry e s =
    if any (λ q. q.id == e.id) s.audit_entries
    then none
    else some (e, record s { audit_entries = s.audit_entries ++ e ∷ [] })

unfoldable pub create : String → String → AuditAction → Changes → String → Exec AuditEntry
unfolding insert_entry
create entity_type entity_id action changes user = do
  id ← mint
  at ← now
  execute (
      insert_entry (record {
        id = id;
        entity_type = entity_type;
        entity_id = entity_id;
        action = action;
        changes = changes;
        user_id = user;
        timestamp = at;
      }))

-- `timestamp < cutoff`; the RFC 3339 texts are written with one offset, and compare as the times.
unfoldable pub is_old : ℕ → AuditEntry → Bool
is_old cutoff e = ltb e.timestamp cutoff

-- `SELECT COUNT(*) FROM audit_entries WHERE timestamp < ?`
unfoldable pub count_before : ℕ → Exec ℕ
unfolding is_old
count_before cutoff = query λ s. length (filter (is_old cutoff) s.audit_entries)

-- `id > cursor`, or no condition without a cursor
unfoldable pub is_after : Option String → AuditEntry → Bool
is_after none e = true
is_after (some cursor) e = text_lt cursor e.id

-- `SELECT … WHERE timestamp < ? AND id > ? ORDER BY id ASC LIMIT ?`
unfoldable pub page_before : ℕ → ℕ → Option String → List AuditEntry → List AuditEntry
unfolding is_old is_after
page_before cutoff limit cursor rows =
    take limit (filter (is_after cursor) (filter (is_old cutoff) (sort (λ e. e.id) rows)))

-- The id of the last row of a full page.
unfoldable pub next_cursor : ℕ → List AuditEntry → Option String
next_cursor limit page =
    if eqb (length page) limit then Option.map (λ e. e.id) (get_last? page) else none

unfoldable pub list_before : ℕ → ℕ → Option String → Exec (List AuditEntry × Option String)
unfolding page_before next_cursor
list_before cutoff limit cursor = do
  page ← query λ s. page_before cutoff limit cursor s.audit_entries
  pure (page, next_cursor limit page)

-- `DELETE FROM audit_entries WHERE timestamp < ?`
unfoldable pub delete_rows : ℕ → Store → Option (ℕ × Store)
unfolding is_old
delete_rows cutoff s = some (
  length (filter (is_old cutoff) s.audit_entries),
  record s { audit_entries = filter (λ e. not (is_old cutoff e)) s.audit_entries },
)

unfoldable pub delete_before : ℕ → Exec ℕ
unfolding delete_rows
delete_before cutoff = execute (delete_rows cutoff)
