-- ===== src/Retention/Policy/Cleared.antt =====
-- What the policy clears, by the entries of its file.
use pdt.Base.{
  ℕ, ◌≤◌, String, ◌≡◌, refl, ap, subst, ◌↔◌, Bool, true, false, Option, none, some, List, [], ◌∷◌,
  ◌++◌, eq_iff, any, find?, arith, Bool-cases, inl, inr,
}
use pdt.Retention.Policy.{
  Disposition, ClassEntry, AuditEntriesClass, PrunePolicy, PruneVerdict, is_class, at_window,
  disposition_verdict, audit_disposition_verdict, entry_verdict, evaluate, audit_verdict,
  evaluate_audit_entries,
}

-- The first entry for a class clears it.
pub record IsCleared (policy : PrunePolicy) (category value : String) (days : ℕ) : Type 0 where
  before : List ClassEntry
  entry : ClassEntry
  after : List ClassEntry
  listed : policy.classes ≡ before ++ entry ∷ after
  earlier : any (is_class category value) before ≡ false
  category_is : entry.tag_category ≡ category
  value_is : entry.tag_value ≡ value
  deletable : entry.disposition ≡ Disposition.soft_delete
  old_enough : entry.window_days ≤ days

find?-split {ℓ} :
    {A : Type ℓ} (p : A → Bool) (xs : List A) (a : A)
    → find? p xs ≡ some a
    → (before : List A) × (after : List A) × (xs ≡ before ++ a ∷ after)
      × (any p before ≡ false)
      × (p a ≡ true)
find?-split p [] a h = cc
find?-split p (x ∷ xs) a h = elim (Bool-cases (p x)) [
  | inl here ↦
      let e : x ≡ a = ground (arith, here) in
      ([], xs, ap (λ y. y ∷ xs) e, refl, subst (λ y. p y ≡ true) e here)
  | inr there ↦
      let (before, after, e, no_match, match) = find?-split p xs a (rw there at h) in
      (x ∷ before, after, ap (λ ys. x ∷ ys) e, rw (there, no_match) refl, match)
]

find?-middle {ℓ} :
    {A : Type ℓ} (p : A → Bool) (before : List A) (a : A) (after : List A)
    → any p before ≡ false
    → p a ≡ true
    → find? p (before ++ a ∷ after) ≡ some a
find?-middle p [] a after h k = rw k refl
find?-middle p (x ∷ before) a after h k = ground (arith, find?-middle p before a after)

at_window-allowed :
    (days window : ℕ) → at_window days window ≡ PruneVerdict.allowed ↔ (window ≤ days)
unfolding at_window
at_window-allowed days window = (λ h. ground arith, λ h. ground arith)

disposition_verdict-allowed :
    (d : Disposition) (days window : ℕ)
    → disposition_verdict d days window ≡ PruneVerdict.allowed
    → (d ≡ Disposition.soft_delete) × (window ≤ days)
unfolding disposition_verdict
disposition_verdict-allowed Disposition.archive days window h = cc
disposition_verdict-allowed Disposition.soft_delete days window h =
    (refl, (at_window-allowed days window).0 h)
disposition_verdict-allowed Disposition.archive_then_delete days window h = cc

-- The entry found, and what its verdict says.
entry_verdict-allowed :
    (days : ℕ) (o : Option ClassEntry)
    → entry_verdict days o ≡ PruneVerdict.allowed
    → (entry : ClassEntry) × (o ≡ some entry)
      × (entry.disposition ≡ Disposition.soft_delete)
      × (entry.window_days ≤ days)
unfolding entry_verdict
entry_verdict-allowed days none h = cc
entry_verdict-allowed days (some entry) h =
    let (d, w) = disposition_verdict-allowed entry.disposition days entry.window_days h in
    (entry, refl, d, w)

audit_disposition_verdict-allowed :
    (d : Disposition) (days window : ℕ)
    → audit_disposition_verdict d days window ≡ PruneVerdict.allowed
    → (d ≡ Disposition.archive_then_delete) × (window ≤ days)
unfolding audit_disposition_verdict
audit_disposition_verdict-allowed Disposition.archive days window h = cc
audit_disposition_verdict-allowed Disposition.soft_delete days window h = cc
audit_disposition_verdict-allowed Disposition.archive_then_delete days window h =
    (refl, (at_window-allowed days window).0 h)

audit_verdict-allowed :
    (days : ℕ) (o : Option AuditEntriesClass)
    → audit_verdict days o ≡ PruneVerdict.allowed
    → (entry : AuditEntriesClass) × (o ≡ some entry)
      × (entry.disposition ≡ Disposition.archive_then_delete)
      × (entry.window_days ≤ days)
unfolding audit_verdict
audit_verdict-allowed days none h = cc
audit_verdict-allowed days (some entry) h =
    let (d, w) = audit_disposition_verdict-allowed entry.disposition days entry.window_days h in
    (entry, refl, d, w)

module _ (policy : PrunePolicy) (category value : String) (days : ℕ) where
  allowed-IsCleared :
      evaluate policy category value days ≡ PruneVerdict.allowed
      → IsCleared policy category value days
  unfolding evaluate is_class
  allowed-IsCleared h =
      let (entry, found, d, w) = entry_verdict-allowed days _ h in
      let (before, after, e, no_match, match) = find?-split _ policy.classes entry found in
      record {
        before = before;
        entry = entry;
        after = after;
        listed = e;
        earlier = no_match;
        category_is = (eq_iff _ _).0 (ground (arith, match));
        value_is = (eq_iff _ _).0 (ground (arith, match));
        deletable = d;
        old_enough = w;
      }

  IsCleared-allowed :
      IsCleared policy category value days
      → evaluate policy category value days ≡ PruneVerdict.allowed
  unfolding evaluate is_class entry_verdict disposition_verdict
  IsCleared-allowed c =
      let found = find?-middle (is_class category value) c.before c.entry c.after c.earlier (
        ground (
          arith,
          (eq_iff c.entry.tag_category category).1 c.category_is,
          (eq_iff c.entry.tag_value value).1 c.value_is,
        )) in
      rw (c.listed, found, c.deletable)
        ((at_window-allowed days c.entry.window_days).1 c.old_enough)

-- `evaluate` clears an execution exactly where the first entry for the class is of disposition
-- soft_delete and its window is not above the window asked for.
pub evaluate-allowed_iff :
    (policy : PrunePolicy) (category value : String) (days : ℕ)
    → (evaluate policy category value days ≡ PruneVerdict.allowed)
      ↔ IsCleared policy category value days
evaluate-allowed_iff policy category value days =
    (allowed-IsCleared policy category value days, IsCleared-allowed policy category value days)

-- `evaluate_audit_entries` clears an execution exactly where the policy has the section, its
-- disposition is archive_then_delete and its window is not above the window asked for.
pub evaluate_audit_entries-allowed_iff :
    (policy : PrunePolicy) (days : ℕ)
    → (evaluate_audit_entries policy days ≡ PruneVerdict.allowed) ↔ (
        (entry : AuditEntriesClass) × (policy.audit_entries ≡ some entry)
        × (entry.disposition ≡ Disposition.archive_then_delete)
        × (entry.window_days ≤ days))
unfolding evaluate_audit_entries audit_verdict audit_disposition_verdict
evaluate_audit_entries-allowed_iff policy days = (
  audit_verdict-allowed days policy.audit_entries,
  λ (entry, e, d, w). rw (e, d) ((at_window-allowed days entry.window_days).1 w),
)
