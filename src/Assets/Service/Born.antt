-- ===== src/Assets/Service/Born.antt =====
-- An asset is born with the context that the guard gives it.
use pdt.Base.{
  ℕ, String, ◌≡◌, refl, ap, ◌∙◌, ◌⊎◌, inl, inr, true, false, Option, none, some, List, [], ◌∷◌,
  ◌++◌, Bool-cases, arith,
}
use pdt.Model.Error.{ApiError}
use pdt.Model.Asset.{Asset, AuthContext, CreateAssetRequest}
use pdt.Model.Audit.{AuditAction, Changes}
use pdt.Model.World.{Store, State, World}
use pdt.Model.World.Hoare.{
  Runs, Runs-bind, Runs-mint, Runs-now, Runs-ensure, Runs-conseq, Runs-fails, Runs-execute,
  Runs-absurd,
}
use pdt.Model.World.Outcome.{Runs-any}
use pdt.Model.World.Keeps.{Keeps, Keeps-bind, Keeps-then, Keeps-pure, Keeps-raise, Keeps-query}
use pdt.Audit.Repository.Frame as Trail
use pdt.Assets.Birth.{guard_birth_auth_context, requested_or_default}
use pdt.Assets.Birth.Guarded.{IsGuarded, guard_birth_auth_context-IsGuarded}
use pdt.Assets.Rows.{has_row, or_not_found}
use pdt.Assets.Rows
use pdt.Assets.Repository
use pdt.Assets.Repository.Rows as New
use pdt.Assets.Service

module _ (rows : List Asset) (ctx : AuthContext) where
  -- The table is as it was, or has one asset more, with this context.
  abbrev pub Grown : Store → Type 0
  Grown s =
      (s.assets ≡ rows) ⊎ ((a : Asset) × (a.auth_context ≡ some ctx) × (s.assets ≡ rows ++ a ∷ []))

module _ (store : Store) (request : CreateAssetRequest) (user : String) where
  abbrev P : Store → Type 0
  P = Grown store.assets (requested_or_default request.auth_context)

  Partly-Grown : (id : String) (at : ℕ) (s : Store) → New.Partly store id at user request s → P s
  Partly-Grown id at s (inl same) = inl (ap (λ (x : Store). x.assets) same)
  Partly-Grown id at s (inr (tags, metadata, (a, row, same))) =
      inr (a, row.guarded, ap (λ (x : Store). x.assets) same)

  -- An id that has a row is refused.
  taken_rows :
      (id : String) (at : ℕ)
      → has_row store.assets id ≡ true
      → Runs false
          (λ s. s.store ≡ store)
          (Repository.insert_rows id at user request)
          (λ _ s. P s.store)
          (λ s. P s.store)
  unfolding Repository.insert_rows Repository.insert_asset Repository.new_asset
  taken_rows id at taken =
      Runs-bind (λ _ s. ⊥)
        (Runs-execute _ (λ loose s h. unchanged s h) (λ s h e. unchanged s h)
          λ s h u t e.
            let there : has_row s.assets id ≡ true =
              ap (λ (x : Store). has_row x.assets id) h ∙ taken in
            absurd (ground (arith, there)))
        λ _. Runs-absurd (λ s h. h)
    where
      unchanged : (s : State) → s.store ≡ store → P s.store
      unchanged s h = inl (ap (λ (x : Store). x.assets) h)

  insert_rows-Grown :
      (id : String) (at : ℕ)
      → Runs false
          (λ s. s.store ≡ store)
          (Repository.insert_rows id at user request)
          (λ _ s. P s.store)
          (λ s. P s.store)
  insert_rows-Grown id at = elim (Bool-cases (has_row store.assets id)) [
    | inr new ↦
        Runs-conseq _ (λ u s h. Partly-Grown id at s.store (inr (_, _, h)))
          (Runs-fails _ (λ s h. Partly-Grown id at s.store h)
            (New.insert_rows-HasAsked store id at user request new))
    | inl taken ↦ taken_rows id at taken
  ]

  or_not_found-Grown : (o : Option Asset) → Keeps P (or_not_found o)
  unfolding or_not_found
  or_not_found-Grown none = Keeps-raise P ApiError.not_found
  or_not_found-Grown (some a) = Keeps-pure P a

  create-Grown :
      Runs false
        (λ s. s.store ≡ store)
        (Repository.create request user)
        (λ _ s. P s.store)
        (λ s. P s.store)
  unfolding Repository.create Rows.get_by_id
  create-Grown =
      Runs-bind (λ _ s. s.store ≡ store) (Runs-now (λ s h at le ticks. h))
        λ at.
          Runs-bind (λ _ s. s.store ≡ store) (Runs-mint (λ s h. h))
            λ id.
              Runs-bind (λ _ s. P s.store) (insert_rows-Grown id at)
                λ _. Keeps-bind P (Keeps-query P _) or_not_found-Grown

  log-Grown :
      (action : AuditAction) (id : String) (changes : Changes) (by : String)
      → Keeps P (Service.log action id changes by)
  unfolding Service.log
  log-Grown action id changes by =
      Keeps-then P (Trail.create-Runs P (λ s es p. p) _ _ _ _ _) (Keeps-pure P tt)

service_create-Runs :
    (store : Store) (request : CreateAssetRequest) (user : String) (groups : List String)
    → Runs false
        (λ s. s.store ≡ store)
        (Service.create request user groups)
        (λ _ s. Grown store.assets (guard_birth_auth_context request.auth_context groups) s.store)
        (λ s. Grown store.assets (guard_birth_auth_context request.auth_context groups) s.store)
unfolding Service.create Service.guarded requested_or_default
service_create-Runs store request user groups =
    let asked = Service.guarded request groups in
    Runs-bind (λ _ s. s.store ≡ store)
      (Runs-conseq _ (λ u s h. h.0)
        (Runs-ensure _ _ (λ s h e. inl (ap (λ (x : Store). x.assets) h))))
      λ _. Runs-bind _ (create-Grown store asked user) λ a.
        Keeps-then (P store asked user) (log-Grown store asked user _ _ _ _)
          (Keeps-pure (P store asked user) a)

-- Whichever statements fail, and whatever it answers, AssetService::create leaves the table of
-- assets as it is or adds one asset to it, and the context of that asset is the birth guard's: it
-- is stored, and guarded.
pub create-IsGuarded :
    (w : World) (request : CreateAssetRequest) (user : String) (groups : List String)
    → ((Service.create request user groups w).1.state.assets ≡ w.state.assets)
      ⊎ ((a : Asset) × ((Service.create request user groups w).1.state.assets
            ≡ w.state.assets ++ a ∷ [])
          × (a.auth_context ≡ some (guard_birth_auth_context request.auth_context groups))
          × IsGuarded
              (requested_or_default request.auth_context)
              groups
              (guard_birth_auth_context request.auth_context groups))
create-IsGuarded w request user groups =
    elim (Runs-any
      (λ s. Grown w.state.assets (guard_birth_auth_context request.auth_context groups) s.store)
      (service_create-Runs w.state.store request user groups) w refl) [
        | inl same ↦ inl same
        | inr (a, ctx, grown) ↦
            inr (a, grown, ctx, guard_birth_auth_context-IsGuarded request.auth_context groups)
      ]
