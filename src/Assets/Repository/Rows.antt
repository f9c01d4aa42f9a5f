-- ===== src/Assets/Repository/Rows.antt =====
-- The rows of a new asset, one statement after the other: the table gets one asset more, which
-- carries what was asked for.
use pdt.Base.{
  ℕ, String, ◌≡◌, refl, sym, ap, subst, ◌∙◌, false, none, some, List, [], ◌∷◌, ◌++◌, ◌==◌, map,
  arith, eq_iff, ◌⊎◌, Bool-cases, inl, inr, if◌then◌else◌,
}
use mathlib.Core.List.{append_assoc, append-nil}
use pdt.Model.Asset.{Asset, Tag, AddTagRequest, CreateAssetRequest, Metadata, Value}
use pdt.Model.World.{Store, execute, for_each}
use pdt.Model.World.Hoare.{Runs, Runs-bind, Runs-pure, Runs-execute, Runs-mint}
use pdt.Assets.Birth.{requested_or_default}
use pdt.Assets.Rows.{has_row}
use pdt.Assets.Repository.{
  has_id, new_asset, new_tag, insert_asset, insert_tag, insert_metadata, insert_rows, add_new_tag,
}

-- What a tag says.
abbrev pub said : Tag → String × String
said t = (t.category, t.value)

abbrev pub asked : AddTagRequest → String × String
asked t = (t.category, t.value)

map-append_one {ℓ κ} :
    {A : Type ℓ} {B : Type κ} (f : A → B) (xs : List A) (x : A)
    → map f (xs ++ x ∷ []) ≡ map f xs ++ f x ∷ []
map-append_one f [] x = refl
map-append_one f (y ∷ xs) x = ap (λ ys. f y ∷ ys) (map-append_one f xs x)

-- An update by an id that only the last row has.
update_last :
    (id : String) (f : Asset → Asset) (rows : List Asset) (a : Asset)
    → has_row rows id ≡ false
    → a.id ≡ id
    → map (λ b. if has_id id b then f b else b) (rows ++ a ∷ []) ≡ rows ++ f a ∷ []
unfolding has_row has_id
update_last id f [] a new e = rw ((eq_iff a.id id).1 e) refl
update_last id f (b ∷ rows) a new e = elim (Bool-cases (b.id == id)) [
  | inl same ↦ absurd (ground (arith, same))
  | inr other ↦ rw other (ap (λ ys. b ∷ ys) (update_last id f rows a (ground (arith, other)) e))
]

module _ (store : Store) (id : String) (at : ℕ) (user : String) (request : CreateAssetRequest) where
  -- The row under way, with the tags and the metadata so far.
  pub record IsRow (tags : List (String × String)) (metadata : Metadata) (a : Asset) : Type 0 where
    pub named : a.id ≡ id
    pub titled : a.title ≡ request.title
    pub filled : a.content ≡ request.content
    pub tagged : map said a.tags ≡ tags
    pub described : a.metadata ≡ metadata
    pub made : (a.created_at ≡ at) × (a.created_by ≡ user)
    pub kept : a.deleted_at ≡ none
    pub guarded : a.auth_context ≡ some (requested_or_default request.auth_context)

  -- The store has one asset more.
  abbrev pub HasRow : List (String × String) → Metadata → Store → Type 0
  HasRow tags metadata s =
      (a : Asset) × IsRow tags metadata a × (s ≡ record store { assets = store.assets ++ a ∷ [] })

  -- A state between the statements: no row yet, or the row under way.
  abbrev pub Partly : Store → Type 0
  Partly s =
      (s ≡ store)
      ⊎ ((tags : List (String × String)) × (metadata : Metadata) × HasRow tags metadata s)

  -- All the rows of the new asset.
  abbrev pub HasAsked : Store → Type 0
  HasAsked = HasRow (map asked request.tags) request.metadata

  module _ (new : has_row store.assets id ≡ false) where
    insert_asset-HasRow :
        Runs false
          (λ s. s.store ≡ store)
          (execute (insert_asset (new_asset id at user request)))
          (λ _ s. HasRow [] [] s.store)
          (λ s. Partly s.store)
    unfolding insert_asset new_asset
    insert_asset-HasRow =
        Runs-execute _ (λ loose s h. inl h) (λ s h e. inl h)
          λ s h u t e.
            let a = new_asset id at user request in
            let absent : has_row s.assets id ≡ false =
              ap (λ (x : Store). has_row x.assets id) h ∙ new in
            let after : record s.store { assets = s.assets ++ a ∷ [] } ≡ t =
              ground (arith, absent) in
            (
              a,
              record {
                named = refl;
                titled = refl;
                filled = refl;
                tagged = refl;
                described = refl;
                made = (refl, refl);
                kept = refl;
                guarded = refl;
              },
              sym after ∙ ap (λ (x : Store). record x { assets = x.assets ++ a ∷ [] }) h,
            )

    -- A statement that writes the row under way.
    change_row :
        (f : Asset → Asset) (a : Asset) (s t : Store)
        → a.id ≡ id
        → s ≡ record store { assets = store.assets ++ a ∷ [] }
        → record s { assets = map (λ b. if has_id id b then f b else b) s.assets } ≡ t
        → t ≡ record store { assets = store.assets ++ f a ∷ [] }
    change_row f a s t named e after =
        sym after
        ∙ ap
            (λ (x : Store). record x {
              assets = map (λ b. if has_id id b then f b else b) x.assets;
            })
            e
        ∙ ap (λ rows. record store { assets = rows }) (update_last id f store.assets a new named)

    insert_tag-HasRow :
        (tag : Tag) (done : List (String × String)) (metadata : Metadata)
        → Runs false
            (λ s. HasRow done metadata s.store)
            (execute (insert_tag id tag))
            (λ _ s. HasRow (done ++ said tag ∷ []) metadata s.store)
            (λ s. Partly s.store)
    unfolding insert_tag
    insert_tag-HasRow tag done metadata =
        Runs-execute _ (λ loose s h. inr (_, _, h)) (λ s h e. inr (_, _, h))
          λ s (a, row, same) u t e.
            let add : Asset → Asset = λ b. record b { tags = b.tags ++ tag ∷ [] } in
            let after : record s.store {
              assets = map (λ b. if has_id id b then add b else b) s.assets;
            }
                ≡ t =
              ground arith in
            (
              add a,
              record {
                named = row.named;
                titled = row.titled;
                filled = row.filled;
                tagged = map-append_one said a.tags tag ∙ ap (λ xs. xs ++ said tag ∷ []) row.tagged;
                described = row.described;
                made = row.made;
                kept = row.kept;
                guarded = row.guarded;
              },
              change_row add a s.store t row.named same after,
            )

    add_new_tag-HasRow :
        (tag : AddTagRequest) (done : List (String × String)) (metadata : Metadata)
        → Runs false
            (λ s. HasRow done metadata s.store)
            (add_new_tag id user at tag)
            (λ _ s. HasRow (done ++ asked tag ∷ []) metadata s.store)
            (λ s. Partly s.store)
    unfolding add_new_tag new_tag
    add_new_tag-HasRow tag done metadata =
        Runs-bind (λ _ s. HasRow done metadata s.store) (Runs-mint (λ s h. h))
          λ tag_id. insert_tag-HasRow (new_tag tag_id user at tag) done metadata

    insert_metadata-HasRow :
        (pair : String × Value) (tags : List (String × String)) (done : Metadata)
        → Runs false
            (λ s. HasRow tags done s.store)
            (execute (insert_metadata id pair))
            (λ _ s. HasRow tags (done ++ pair ∷ []) s.store)
            (λ s. Partly s.store)
    unfolding insert_metadata
    insert_metadata-HasRow pair tags done =
        Runs-execute _ (λ loose s h. inr (_, _, h)) (λ s h e. inr (_, _, h))
          λ s (a, row, same) u t e.
            let add : Asset → Asset = λ b. record b { metadata = b.metadata ++ pair ∷ [] } in
            let after : record s.store {
              assets = map (λ b. if has_id id b then add b else b) s.assets;
            }
                ≡ t =
              ground arith in
            (
              add a,
              record {
                named = row.named;
                titled = row.titled;
                filled = row.filled;
                tagged = row.tagged;
                described = ap (λ xs. xs ++ pair ∷ []) row.described;
                made = row.made;
                kept = row.kept;
                guarded = row.guarded;
              },
              change_row add a s.store t row.named same after,
            )

    tags-HasRow :
        (requests : List AddTagRequest) (done : List (String × String))
        → Runs false
            (λ s. HasRow done [] s.store)
            (for_each (add_new_tag id user at) requests)
            (λ _ s. HasRow (done ++ map asked requests) [] s.store)
            (λ s. Partly s.store)
    unfolding for_each
    tags-HasRow [] done =
        Runs-pure tt λ s. subst (λ xs. HasRow xs [] s.store) (sym (append-nil done))
    tags-HasRow (tag ∷ requests) done = Runs-bind _ (add_new_tag-HasRow tag done []) λ _.
        subst
          (λ xs.
            Runs false (λ s. HasRow (done ++ asked tag ∷ []) [] s.store)
              (for_each (add_new_tag id user at) requests) (λ _ s. HasRow xs [] s.store)
              (λ s. Partly s.store))
          (append_assoc done (asked tag ∷ []) (map asked requests))
          (tags-HasRow requests (done ++ asked tag ∷ []))

    metadata-HasRow :
        (pairs : Metadata) (tags : List (String × String)) (done : Metadata)
        → Runs false
            (λ s. HasRow tags done s.store)
            (for_each (λ pair. execute (insert_metadata id pair)) pairs)
            (λ _ s. HasRow tags (done ++ pairs) s.store)
            (λ s. Partly s.store)
    unfolding for_each
    metadata-HasRow [] tags done =
        Runs-pure tt λ s. subst (λ xs. HasRow tags xs s.store) (sym (append-nil done))
    metadata-HasRow (pair ∷ pairs) tags done =
        Runs-bind _ (insert_metadata-HasRow pair tags done) λ _.
          subst
            (λ xs.
              Runs false (λ s. HasRow tags (done ++ pair ∷ []) s.store)
                (for_each (λ pair. execute (insert_metadata id pair)) pairs)
                (λ _ s. HasRow tags xs s.store) (λ s. Partly s.store))
            (append_assoc done (pair ∷ []) pairs) (metadata-HasRow pairs tags (done ++ pair ∷ []))

    pub insert_rows-HasAsked :
        Runs false
          (λ s. s.store ≡ store)
          (insert_rows id at user request)
          (λ _ s. HasAsked s.store)
          (λ s. Partly s.store)
    unfolding insert_rows
    insert_rows-HasAsked =
        Runs-bind _ insert_asset-HasRow
          λ _. Runs-bind _ (tags-HasRow request.tags []) λ _. metadata-HasRow request.metadata _ []
