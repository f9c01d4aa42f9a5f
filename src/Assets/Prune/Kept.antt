-- ===== src/Assets/Prune/Kept.antt =====
-- Nothing that deletes assets erases one: a row keeps all but its deletion stamp.
use pdt.Base.{
  ℕ, zero, suc, String, ◌≡◌, refl, ap, subst, ◌∙◌, Bool, true, false, Option, none, some, List, [],
  ◌∷◌, map, arith, Bool-cases, inl, inr, if◌then◌else◌,
}
use pdt.Model.Error.{ApiError, Result, ok, err, panic}
use pdt.Model.Asset.{Asset}
use pdt.Model.Audit.{AuditAction, Changes}
use pdt.Model.World.{Store, World, Exec, execute}
use pdt.Model.World.Hoare.{Post}
use pdt.Model.World.Outcome.{Runs-any}
use pdt.Model.World.Keeps.{
  Keeps, Keeps-bind, Keeps-then, Keeps-pure, Keeps-raise, Keeps-query, Keeps-now, Keeps-execute,
}
use pdt.Audit.Repository.Frame as Trail
use pdt.Assets.Rows.{or_not_found}
use pdt.Assets.Rows
use pdt.Assets.Repository
use pdt.Assets.Service
use pdt.Assets.Prune.{is_ok, succeeded, prune_each, prune, report_or_prune}
use pdt.Assets.Prune.Walk.{prune_candidates-Keeps}
use pdt.Relations.Repository as Links
use pdt.Collections.Repository as Shelf

-- What a row keeps: all but the deletion stamp.
abbrev pub body : Asset → Asset
body a = record a { deleted_at = none }

map-update {ℓ κ} :
    {A : Type ℓ} {B : Type κ} (g : A → B) (p : A → Bool) (f : A → A) (xs : List A)
    → ((a : A) → g (f a) ≡ g a)
    → map g (map (λ a. if p a then f a else a) xs) ≡ map g xs
map-update g p f [] h = refl
map-update g p f (x ∷ xs) h = elim (Bool-cases (p x)) [
  | inl hit ↦ rw hit (
      ap (λ b. b ∷ map g (map (λ a. if p a then f a else a) xs)) (h x)
      ∙ ap (λ ys. g x ∷ ys) (map-update g p f xs h))
  | inr other ↦ rw other (ap (λ ys. g x ∷ ys) (map-update g p f xs h))
]

-- A call whose failure is answered keeps what the call keeps.
pub Keeps-is_ok : (P : Store → Type 0) {A : Type 0} {m : Exec A} → Keeps P m → Keeps P (is_ok m)
unfolding is_ok
Keeps-is_ok P {A} {m} h = record { at = λ w c p. kept (m w) (h.at w c p) }
  where
    kept :
        (r : Result A × World)
        → Post false (λ _ s. P s.store) (λ s. P s.store) r
        → Post false (λ _ s. P s.store) (λ s. P s.store) (succeeded r.0, r.1)
    kept (ok a, w) q = q
    kept (err e, w) q = ((λ h. absurd (cc h)), q)
    kept (panic, w) q = q

module _ (rows : List Asset) where
  abbrev KeepsRows : Store → Type 0
  KeepsRows s = map body s.assets ≡ rows

  stamp_where-KeepsRows :
      (p : Asset → Bool) (at : ℕ)
      → Keeps KeepsRows
          (execute (Repository.update_where p (λ a. record a { deleted_at = some at })))
  unfolding Repository.update_where
  stamp_where-KeepsRows p at = Keeps-execute KeepsRows _ λ s h n t e.
      let after : record s {
        assets = map (λ a. if p a then record a { deleted_at = some at } else a) s.assets;
      }
          ≡ t =
        ground arith in
      subst KeepsRows after (map-update body p _ s.assets (λ a. refl) ∙ h)

  -- A call that changes other tables only.
  frame_execute :
      {A : Type 0} (f : Store → Option (A × Store))
      → ((s t : Store) (a : A) → f s ≡ some (a, t) → t.assets ≡ s.assets)
      → Keeps KeepsRows (execute f)
  frame_execute f frame = Keeps-execute KeepsRows f λ s h a t e. ap (map body) (frame s t a e) ∙ h

  delete_relations-KeepsRows : (id : String) → Keeps KeepsRows (Links.delete_by_asset id)
  unfolding Links.delete_by_asset Links.delete_where
  delete_relations-KeepsRows id = frame_execute _ λ s t n e. ground arith

  remove_members-KeepsRows : (id : String) → Keeps KeepsRows (Shelf.remove_asset_from_all id)
  unfolding Shelf.remove_asset_from_all Shelf.delete_members Shelf.update_where
  remove_members-KeepsRows id = Keeps-then KeepsRows (frame_execute _ λ s t n e. ground arith) (
      Keeps-bind KeepsRows (Keeps-now KeepsRows) λ at.
        Keeps-then KeepsRows (frame_execute _ λ s t n e. ground arith) (Keeps-pure KeepsRows tt))

  log-KeepsRows :
      (action : AuditAction) (id : String) (changes : Changes) (user : String)
      → Keeps KeepsRows (Service.log action id changes user)
  unfolding Service.log
  log-KeepsRows action id changes user =
      Keeps-then KeepsRows (Trail.create-Runs KeepsRows (λ s es p. p) _ _ _ _ _)
        (Keeps-pure KeepsRows tt)

  or_not_found-KeepsRows : (o : Option Asset) → Keeps KeepsRows (or_not_found o)
  unfolding or_not_found
  or_not_found-KeepsRows none = Keeps-raise KeepsRows ApiError.not_found
  or_not_found-KeepsRows (some a) = Keeps-pure KeepsRows a

  get_by_id-KeepsRows : (id : String) → Keeps KeepsRows (Rows.get_by_id id)
  unfolding Rows.get_by_id
  get_by_id-KeepsRows id = Keeps-bind KeepsRows (Keeps-query KeepsRows _) or_not_found-KeepsRows

  require_affected-KeepsRows : (n : ℕ) → Keeps KeepsRows (Repository.require_affected n)
  unfolding Repository.require_affected
  require_affected-KeepsRows zero = Keeps-raise KeepsRows ApiError.not_found
  require_affected-KeepsRows (suc n) = Keeps-pure KeepsRows tt

  soft_delete-KeepsRows : (id : String) → Keeps KeepsRows (Repository.soft_delete id)
  unfolding Repository.soft_delete
  soft_delete-KeepsRows id =
      Keeps-bind KeepsRows (Keeps-now KeepsRows)
        λ at. Keeps-bind KeepsRows (stamp_where-KeepsRows _ at) require_affected-KeepsRows

  delete-KeepsRows : (id user : String) → Keeps KeepsRows (Service.delete id user)
  unfolding Service.delete Links.get_asset_relations
  delete-KeepsRows id user = Keeps-then KeepsRows (get_by_id-KeepsRows id) (
      Keeps-bind KeepsRows (Keeps-query KeepsRows _) λ cascaded.
        Keeps-then KeepsRows (soft_delete-KeepsRows id) (
          Keeps-then KeepsRows (delete_relations-KeepsRows id)
            (Keeps-then KeepsRows (remove_members-KeepsRows id) (log-KeepsRows _ _ _ _))))

  prune_each-KeepsRows :
      (user : String) (candidates : List Asset) (counts : ℕ × List String)
      → Keeps KeepsRows (prune_each user candidates counts)
  unfolding prune_each
  prune_each-KeepsRows user [] counts = Keeps-pure KeepsRows counts
  prune_each-KeepsRows user (a ∷ candidates) counts =
      Keeps-bind KeepsRows (Keeps-is_ok KeepsRows (delete-KeepsRows a.id user))
        λ done. prune_each-KeepsRows user candidates _

  report-KeepsRows :
      (dry : Bool) (user : String) (candidates : List Asset)
      → Keeps KeepsRows (report_or_prune dry user candidates)
  unfolding report_or_prune
  report-KeepsRows true user candidates = Keeps-pure KeepsRows _
  report-KeepsRows false user candidates =
      Keeps-bind KeepsRows (prune_each-KeepsRows user candidates (0, []))
        λ counts. Keeps-pure KeepsRows _

  prune-KeepsRows :
      (is_alphanumeric : ℕ → Bool) (fts_match : String → Asset → Bool) (category value : String)
      (days : ℕ) (dry : Bool) (user : String)
      → Keeps KeepsRows (prune is_alphanumeric fts_match category value days dry user)
  unfolding prune
  prune-KeepsRows is_alphanumeric fts_match category value days dry user =
      Keeps-bind KeepsRows
        (prune_candidates-Keeps KeepsRows is_alphanumeric fts_match category value days)
        (report-KeepsRows dry user)

-- Whichever statements fail, and whatever they answer, neither the deletion of an asset nor the
-- asset prune removes a row of the table: each row keeps its place and all its fields but the
-- deletion stamp.
pub delete-prune-body :
    (is_alphanumeric : ℕ → Bool) (fts_match : String → Asset → Bool) (w : World)
    (id user category value : String) (days : ℕ) (dry : Bool)
    → (map body (Service.delete id user w).1.state.assets ≡ map body w.state.assets)
      × (map body (prune is_alphanumeric fts_match category value days dry user w).1.state.assets
          ≡ map body w.state.assets)
delete-prune-body is_alphanumeric fts_match w id user category value days dry = (
  Runs-any (λ s. KeepsRows (map body w.state.assets) s.store) (delete-KeepsRows _ id user) w refl,
  Runs-any (λ s. KeepsRows (map body w.state.assets) s.store)
      (prune-KeepsRows _ is_alphanumeric fts_match category value days dry user) w refl,
)
