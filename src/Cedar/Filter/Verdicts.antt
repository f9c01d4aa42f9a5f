-- ===== src/Cedar/Filter/Verdicts.antt =====
-- What stands behind an answer of the checks and of the batched filter: the policies' decisions.
use mathlib.Core.List.Memᴰ
use pdt.Base.{
  String, ◌≡◌, refl, sym, ap, subst, ◌∙◌, inl, inr, Bool, true, false, none, some, List, [], ◌∷◌,
  Memᴰ, Memᴰ-cons, ◌&&◌, filter, Bool-cases, Option-cases, if◌then◌else◌,
}
use pdt.Model.Error.{ApiError, Result, ok, err, panic, ◌>>=◌}
use pdt.Model.Asset.{Asset}
use pdt.Cedar.Entity.{
  JwtClaims, AssetEntity, PrincipalEntity, asset_to_cedar_entity,
  user_to_cedar_principal_with_groups,
}
use pdt.Cedar.Filter.{
  should_enforce_cedar, deny_on_error, verdict_of, band_verdicts, is_kept, filter_bands,
  cedar_band_key, evaluate_permission, check_permission, filter_by_permission_batched,
}
use pdt.Cedar.Filter.Batch.{Extends, Covers, verdict_of-here, verdict_of-cases}

module _ {A : Type 0} (enforced : A → Bool) (decide : A → Result Bool) (key : A → String)
    (all : List A) where
  -- A recorded verdict is the decision on an asset of the band.
  abbrev Backed : List (String × Bool) → Type 0
  Backed m =
      (k : String) (v : Bool)
      → verdict_of enforced decide key m k ≡ some v
      → (b : A) × Memᴰ b all × (enforced b ≡ true) × (key b ≡ k) × (decide b ≡ ok v)

  Backed-cons :
      (a : A) (v : Bool) (m : List (String × Bool))
      → Memᴰ a all
      → enforced a ≡ true
      → decide a ≡ ok v
      → Backed m
      → Backed ((key a, v) ∷ m)
  Backed-cons a v m mem on d backed k v' e =
      elim (verdict_of-cases enforced decide key all (key a) v m k) [
        | inl (here, e') ↦ (
          a,
          mem,
          on,
          here,
          d
              ∙ ap ok (
                  cc (
                    verdict_of-here enforced decide key all (key a) v m,
                    ap (verdict_of enforced decide key ((key a, v) ∷ m)) here,
                    e,
                  )),
        )
        | inr there ↦ backed k v' (sym there ∙ e)
      ]

  -- What the verdicts hold after the rows.
  abbrev Recorded : List A → List (String × Bool) → List (String × Bool) → Type 0
  Recorded rows m m' =
      Backed m' × Extends enforced decide key all m m' × Covers enforced decide key all m' rows

  decided :
      (r : Result Bool) (f : Bool → Result (List (String × Bool))) (m' : List (String × Bool))
      → (r >>= f) ≡ ok m'
      → (v : Bool) × (r ≡ ok v) × (f v ≡ ok m')
  decided (ok v) f m' h = (v, refl, h)
  decided (err e) f m' h = absurd (cc h)
  decided panic f m' h = absurd (cc h)

  further :
      (a : A) (rows : List A) (m m1 m' : List (String × Bool))
      → Extends enforced decide key all m m1
      → (enforced a ≡ true → (v : Bool) × (verdict_of enforced decide key m1 (key a) ≡ some v))
      → Recorded rows m1 m'
      → Recorded (a ∷ rows) m m'
  further a rows m m1 m' ext first (backed, ext', cover) = (
    backed,
    λ k v h. ext' k v (ext k v h),
    λ x mem on. elim ((Memᴰ-cons x a rows).0 mem) [
      | inl here ↦
          let (v, found) = first (subst (λ y. enforced y ≡ true) here on) in
          (
            v,
            ext' (key x) v
                (subst (λ y. verdict_of enforced decide key m1 (key y) ≡ some v) (sym here) found),
          )
      | inr there ↦ cover x there on
    ],
  )

  band_verdicts-Recorded :
      (rows : List A) (m m' : List (String × Bool))
      → ((x : A) → Memᴰ x rows → Memᴰ x all)
      → Backed m
      → band_verdicts enforced decide key rows m ≡ ok m'
      → Recorded rows m m'
  unfolding band_verdicts
  band_verdicts-Recorded [] m m' within backed h =
      let same : m ≡ m' = cc h in
      subst (Recorded [] m) same (backed, λ k v e. e, λ x mem. absurd (Memᴰ.not-nil mem))
  band_verdicts-Recorded (a ∷ rows) m m' within backed h =
      let rest : (x : A) → Memᴰ x rows → Memᴰ x all = λ x mem. within x (Memᴰ.tail mem) in
      elim (Bool-cases (enforced a)) [
        | inr off ↦
            further a rows m m m' (λ k v e. e) (λ on. absurd cc)
              (band_verdicts-Recorded rows m m' rest backed (rw (band_verdicts, off) at h))
        | inl on ↦ elim (Option-cases (verdict_of enforced decide key m (key a))) [
          | inr (v, found) ↦
              further a rows m m m' (λ k v e. e) (λ on'. (v, found))
                (band_verdicts-Recorded rows m m' rest backed (rw (band_verdicts, on, found) at h))
          | inl unknown ↦
              let (v, d, h') = decided (decide a) _ m' (rw (band_verdicts, on, unknown) at h) in
              further a rows m ((key a, v) ∷ m) m' (new_entry a v m unknown)
                (λ on'. (v, verdict_of-here enforced decide key all (key a) v m))
                (band_verdicts-Recorded rows ((key a, v) ∷ m) m' rest
                  (Backed-cons a v m (within a (Memᴰ.head refl)) on d backed) h')
        ]
      ]
    where
      new_entry :
          (a : A) (v : Bool) (m : List (String × Bool))
          → verdict_of enforced decide key m (key a) ≡ none
          → Extends enforced decide key all m ((key a, v) ∷ m)
      new_entry a v m unknown k v' e =
          elim (verdict_of-cases enforced decide key all (key a) v m k) [
            | inl (here, e') ↦ absurd (cc (ap (verdict_of enforced decide key m) here))
            | inr there ↦ there ∙ e
          ]

  nothing_yet : Backed []
  unfolding verdict_of
  nothing_yet k v e = absurd cc

  -- The verdict on a band; without one its assets are dropped.
  abbrev verdict_in : List (String × Bool) → String → Bool
  verdict_in m k = elim (verdict_of enforced decide key m k) [ none ↦ false | some v ↦ v ]

  -- A list is what one verdict for each band keeps of another, each verdict a decision on an asset
  -- of its band.
  pub record IsDecided (kept : List A) : Type 0 where
    pub verdict : String → Bool
    pub kept_is : kept ≡ filter (λ a. if enforced a then verdict (key a) else true) all
    pub backed :
        (a : A)
        → Memᴰ a all
        → enforced a ≡ true
        → (b : A) × Memᴰ b all
          × (enforced b ≡ true)
          × (key b ≡ key a)
          × (decide b ≡ ok (verdict (key a)))

  found_in :
      (m : List (String × Bool)) (a : A)
      → Backed m
      → (v : Bool) × (verdict_of enforced decide key m (key a) ≡ some v)
      → (b : A) × Memᴰ b all
        × (enforced b ≡ true)
        × (key b ≡ key a)
        × (decide b ≡ ok (verdict_in m (key a)))
  found_in m a backed (v, found) =
      let (b, mem, on, same, d) = backed (key a) v found in
      (b, mem, on, same, d ∙ ap ok (rw (verdict_in, found) refl))

  filtered :
      (r : Result (List (String × Bool))) (kept : List A)
      → (r >>= (λ m. ok (filter (is_kept enforced decide key m) all))) ≡ ok kept
      → (m : List (String × Bool)) × (r ≡ ok m)
        × (filter (is_kept enforced decide key m) all ≡ kept)
  filtered (ok m) kept h = (m, refl, cc h)
  filtered (err e) kept h = absurd (cc h)
  filtered panic kept h = absurd (cc h)

  pub filter_bands-IsDecided :
      (kept : List A) → filter_bands enforced decide key all ≡ ok kept → IsDecided kept
  unfolding filter_bands is_kept
  filter_bands-IsDecided kept h =
      let (m, e, same) = filtered (band_verdicts enforced decide key all []) kept h in
      let (backed, ext, cover) = band_verdicts-Recorded all [] m (λ x mem. mem) nothing_yet e in
      record {
        verdict = verdict_in m;
        kept_is = sym same;
        backed = λ a mem on. found_in m a backed (cover a mem on);
      }

module _ (build_principal_entity : JwtClaims → Bool)
    (builds_uids builds_request : JwtClaims → String → String → Bool) (parses_uid : String → Bool)
    (is_allowed : PrincipalEntity → String → AssetEntity → Bool) (claims : JwtClaims)
    (groups : List String) (action : String) where
  -- What the policies say to the request for an asset; one that is not built is denied.
  abbrev pub policies_allow : Asset → Bool
  policies_allow a =
      builds_uids claims action a.id
      && (builds_request claims action a.id
          && is_allowed (user_to_cedar_principal_with_groups build_principal_entity claims groups)
              action (asset_to_cedar_entity a))

  abbrev evaluated : Asset → Result Bool
  evaluated a =
      evaluate_permission build_principal_entity builds_uids builds_request parses_uid is_allowed
        claims groups action a

  deny_on_error-policies_allow :
      (a : Asset) (v : Bool) → deny_on_error (evaluated a) ≡ ok v → v ≡ policies_allow a
  unfolding deny_on_error evaluate_permission
  deny_on_error-policies_allow a v h = elim (Bool-cases (builds_uids claims action a.id)) [
    | inr unbuilt ↦ rw unbuilt (cc (rw (evaluate_permission, unbuilt) at h))
    | inl built ↦ elim (Bool-cases (parses_uid a.created_by)) [
      | inr unparsed ↦ absurd (cc (rw (evaluate_permission, built, unparsed) at h))
      | inl parsed ↦ elim (Bool-cases (builds_request claims action a.id)) [
        | inr failed ↦
            rw (built, failed) (cc (rw (evaluate_permission, built, parsed, failed) at h))
        | inl ready ↦ rw (built, ready) (cc (rw (evaluate_permission, built, parsed, ready) at h))
      ]
    ]
  ]

  checked :
      (r : Result Bool)
      → (r >>= (λ allowed. if allowed then ok (tt {0}) else err ApiError.forbidden)) ≡ ok (tt {0})
      → deny_on_error r ≡ ok true
  unfolding deny_on_error
  checked (ok true) h = refl
  checked (ok false) h = absurd (cc h)
  checked (err e) h = absurd (cc h)
  checked panic h = absurd (cc h)

  -- An enforced asset passes the check only where the policies allow the request.
  pub check_permission-policies_allow :
      (a : Asset)
      → should_enforce_cedar a ≡ true
      → check_permission build_principal_entity builds_uids builds_request parses_uid is_allowed
          claims groups action a
        ≡ ok tt
      → policies_allow a ≡ true
  unfolding check_permission
  check_permission-policies_allow a on h =
      sym (
        deny_on_error-policies_allow a true
          (checked (evaluated a) (rw (check_permission, on) at h)))

  -- What the policies keep of a list: one verdict for each band, which is what they say to the
  -- request for an enforced asset of that band.
  pub record IsFiltered (assets kept : List Asset) : Type 0 where
    pub verdict : String → Bool
    pub kept_is :
        kept
        ≡ filter (λ a. if should_enforce_cedar a then verdict (cedar_band_key a) else true) assets
    pub decided_by :
        (a : Asset)
        → Memᴰ a assets
        → should_enforce_cedar a ≡ true
        → (b : Asset) × Memᴰ b assets
          × (should_enforce_cedar b ≡ true)
          × (cedar_band_key b ≡ cedar_band_key a)
          × (verdict (cedar_band_key a) ≡ policies_allow b)

  pub filter_by_permission_batched-IsFiltered :
      (assets kept : List Asset)
      → filter_by_permission_batched build_principal_entity builds_uids builds_request parses_uid
          is_allowed claims groups action assets
        ≡ ok kept
      → IsFiltered assets kept
  unfolding filter_by_permission_batched
  filter_by_permission_batched-IsFiltered assets kept h =
      let d =
        filter_bands-IsDecided should_enforce_cedar (λ a. deny_on_error (evaluated a))
          cedar_band_key assets kept h in
      record {
        verdict = d.verdict;
        kept_is = d.kept_is;
        decided_by = λ a mem on.
            let (b, mem', on', same, e) = d.backed a mem on in
            (b, mem', on', same, deny_on_error-policies_allow b _ e);
      }
