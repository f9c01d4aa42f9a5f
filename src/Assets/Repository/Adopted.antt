-- ===== src/Assets/Repository/Adopted.antt =====
-- An adoption lands whole, with its entry, or not at all.
use pdt.Base.{
  ℕ, String, ◌≡◌, refl, sym, ap, ◌∙◌, true, false, not, Option, none, some, [], ◌∷◌, ◌++◌, ◌⊎◌, inl,
  inr, map, arith, length,
}
use pdt.Model.Asset.{Asset, CreateAssetRequest}
use pdt.Model.Audit.{AuditEntry, AuditAction, Changes}
use pdt.Model.World.{Store, World, execute}
use pdt.Model.World.Hoare.{
  Runs, Runs-bind, Runs-pure, Runs-raise, Runs-query, Runs-execute, Runs-mint, Runs-now,
  Runs-ensure, Runs-given, Runs-fails,
}
use pdt.Model.World.Outcome.{Runs-any}
use pdt.Model.World.Transaction.{Runs-transaction}
use pdt.Audit.Repository as Trail
use pdt.Assets.Rows.{has_row, or_not_found}
use pdt.Assets.Rows
use pdt.Assets.Repository.{adopt_rows, adopt}
use pdt.Assets.Repository.Rows as New

module _ (store : Store) (id : String) (request : CreateAssetRequest)
    (user provenance : String) where
  abbrev Unchanged : Store → Type 0
  Unchanged s = s ≡ store

  -- One asset more, with what was asked for, and one entry more, which names the provenance.
  abbrev pub Landed : Store → Type 0
  Landed s =
      (has_row store.assets id ≡ false)
      × (at : ℕ) × (a : Asset) × (e : AuditEntry) × New.IsRow store id at user request
          (map New.asked request.tags) request.metadata a
      × (e.entity_id ≡ id)
      × (e.action ≡ AuditAction.adopt)
      × (e.changes ≡ Changes.adopted request.title provenance (length request.tags))
      × (s ≡ record store {
        assets = store.assets ++ a ∷ [];
        audit_entries = store.audit_entries ++ e ∷ [];
      })

  module _ (new : has_row store.assets id ≡ false) where
    insert_entry-Landed :
        (at : ℕ) (e : AuditEntry)
        → e.entity_id ≡ id
        → e.action ≡ AuditAction.adopt
        → e.changes ≡ Changes.adopted request.title provenance (length request.tags)
        → Runs false
            (λ s. New.HasAsked store id at user request s.store)
            (execute (Trail.insert_entry e))
            (λ _ s. Landed s.store)
            (λ s. Unit)
    unfolding Trail.insert_entry
    insert_entry-Landed at e about action changes =
        Runs-execute _ (λ loose s h. tt) (λ s h x. tt)
          λ s (a, row, same) u t x.
            let after : record s.store { audit_entries = s.audit_entries ++ e ∷ [] } ≡ t =
              ground arith in
            (
              new,
              at,
              a,
              e,
              row,
              about,
              action,
              changes,
              sym after
                  ∙ ap (λ (y : Store). record y { audit_entries = y.audit_entries ++ e ∷ [] }) same,
            )

    adopt_rows-Landed :
        (at : ℕ)
        → Runs false
            (λ s. Unchanged s.store)
            (adopt_rows id at request user provenance)
            (λ _ s. Landed s.store)
            (λ s. Unit)
    unfolding adopt_rows
    adopt_rows-Landed at =
        Runs-bind _
          (Runs-fails (λ s. New.Partly store id at user request s.store) (λ s h. tt)
            (New.insert_rows-HasAsked store id at user request new))
          λ _.
            Runs-bind (λ _ s. New.HasAsked store id at user request s.store) (Runs-mint (λ s h. h))
              λ entry_id.
                Runs-bind _ (insert_entry-Landed at _ refl refl refl) λ _. Runs-pure tt (λ s h. h)

    get_by_id-Landed :
        Runs false
          (λ s. Landed s.store)
          (Rows.get_by_id id)
          (λ _ s. Unchanged s.store ⊎ Landed s.store)
          (λ s. Unchanged s.store ⊎ Landed s.store)
    unfolding Rows.get_by_id or_not_found
    get_by_id-Landed =
        Runs-bind (λ _ s. Landed s.store) (Runs-query _ (λ loose s h. inr h) (λ s h. h))
          λ found. answered found
      where
        answered :
            (found : Option Asset)
            → Runs false
                (λ s. Landed s.store)
                (or_not_found found)
                (λ _ s. Unchanged s.store ⊎ Landed s.store)
                (λ s. Unchanged s.store ⊎ Landed s.store)
        answered none = Runs-raise _ (λ s h. inr h)
        answered (some a) = Runs-pure a (λ s h. inr h)

  adopt-Runs :
      Runs false
        (λ s. Unchanged s.store)
        (adopt id request user provenance)
        (λ _ s. Unchanged s.store ⊎ Landed s.store)
        (λ s. Unchanged s.store ⊎ Landed s.store)
  unfolding adopt
  adopt-Runs =
      Runs-bind (λ taken s. Unchanged s.store × (taken ≡ has_row store.assets id))
        (Runs-query _ (λ loose s h. inl h) (λ s h. (h, ap (λ (x : Store). has_row x.assets id) h)))
        λ taken. Runs-given λ same.
          Runs-bind (λ _ s. Unchanged s.store × (not taken ≡ true))
            (Runs-ensure _ _ (λ s h b. inl h))
            λ _. Runs-given λ free.
              let new : has_row store.assets id ≡ false = ground (arith, same) in
              Runs-bind (λ _ s. Unchanged s.store) (Runs-now (λ s h at le ticks. h))
                λ at.
                  Runs-bind (λ _ s. Landed s.store)
                    (Runs-fails _ (λ s h. inl h)
                      (Runs-transaction Unchanged Landed (adopt_rows-Landed new at)))
                    λ _. get_by_id-Landed new

-- Whichever statements fail, and whatever it answers, an adoption changes nothing, or it adds one
-- live asset under the id, with the title, content, tags, metadata and context asked for, together
-- with one entry of the trail, which names the asset and the provenance. Where the id has a row
-- already, live or deleted, it changes nothing.
pub adopt_atomic :
    (w : World) (id : String) (request : CreateAssetRequest) (user provenance : String)
    → ((adopt id request user provenance w).1.state.store ≡ w.state.store)
      ⊎ Landed w.state.store id request user provenance
          (adopt id request user provenance w).1.state.store
adopt_atomic w id request user provenance =
    Runs-any
      (λ s. (s.store ≡ w.state.store) ⊎ Landed w.state.store id request user provenance s.store)
      (adopt-Runs w.state.store id request user provenance) w refl
