-- ===== src/Cedar/Filter/Batch.antt =====
-- The filter band by band against the filter row by row, for any decision and any key.
use mathlib.Core.List.Memᴰ
use pdt.Base.{
  String, ◌≡◌, refl, sym, ap, subst, ◌∙◌, ◌⊎◌, inl, inr, Bool, true, none, some, List, [], ◌∷◌,
  Memᴰ, Memᴰ-cons, ◌==◌, eq_iff, eq_refl, filter, Bool-cases, Option-cases,
}
use pdt.Model.Error.{Result, ok, panic, ◌>>=◌}
use pdt.Cedar.Filter.{filter_rows, verdict_of, band_verdicts, is_kept, filter_bands}

module _ {A : Type 0} (enforced : A → Bool) (decide : A → Result Bool) (key : A → String)
    (all : List A) where
  -- A decision answers or panics, and within a band the decisions agree.
  pub record IsBanded : Type 0 where
    pub settled : (a : A) → ((v : Bool) × (decide a ≡ ok v)) ⊎ (decide a ≡ panic)
    pub same :
        (x y : A)
        → Memᴰ x all
        → Memᴰ y all
        → enforced x ≡ true
        → enforced y ≡ true
        → key x ≡ key y
        → decide x ≡ decide y

  -- A recorded verdict is that of every asset of its band.
  abbrev Right : List (String × Bool) → Type 0
  Right m =
      (k : String) (v : Bool)
      → verdict_of enforced decide key m k ≡ some v
      → (x : A) → Memᴰ x all
      → enforced x ≡ true
      → key x ≡ k
      → decide x ≡ ok v

  abbrev pub Extends : List (String × Bool) → List (String × Bool) → Type 0
  Extends m m' =
      (k : String) (v : Bool)
      → verdict_of enforced decide key m k ≡ some v
      → verdict_of enforced decide key m' k ≡ some v

  abbrev pub Covers : List (String × Bool) → List A → Type 0
  Covers m rows =
      (x : A)
      → Memᴰ x rows
      → enforced x ≡ true
      → (v : Bool) × (verdict_of enforced decide key m (key x) ≡ some v)

  data Outcome (rows : List A) (m : List (String × Bool)) : Type 0 where
    ends :
        (m' : List (String × Bool))
        → band_verdicts enforced decide key rows m ≡ ok m'
        → Right m'
        → Extends m m'
        → Covers m' rows
        → Outcome rows m
    stops :
        (x : A)
        → band_verdicts enforced decide key rows m ≡ panic
        → Memᴰ x rows
        → enforced x ≡ true
        → decide x ≡ panic
        → Outcome rows m

  pub verdict_of-here :
      (k : String) (v : Bool) (m : List (String × Bool))
      → verdict_of enforced decide key ((k, v) ∷ m) k ≡ some v
  unfolding verdict_of
  verdict_of-here k v m = rw (eq_refl k) refl

  -- An entry is the new one, or one of before under another key.
  pub verdict_of-cases :
      (k : String) (v : Bool) (m : List (String × Bool)) (j : String)
      → ((k ≡ j) × (verdict_of enforced decide key ((k, v) ∷ m) j ≡ some v))
        ⊎ (verdict_of enforced decide key ((k, v) ∷ m) j ≡ verdict_of enforced decide key m j)
  unfolding verdict_of
  verdict_of-cases k v m j = elim (Bool-cases (k == j)) [
    | inl same ↦ inl ((eq_iff k j).0 same, rw same refl)
    | inr other ↦ inr (rw other refl)
  ]

  module _ (banded : IsBanded) where
    Right-cons :
        (a : A) (v : Bool) (m : List (String × Bool))
        → Memᴰ a all
        → enforced a ≡ true
        → decide a ≡ ok v
        → Right m
        → Right ((key a, v) ∷ m)
    Right-cons a v m mem on d right k v' e x mem' on' same = elim (verdict_of-cases (key a) v m k) [
      | inl (here, e') ↦ banded.same x a mem' mem on' on (same ∙ sym here) ∙ d ∙ ap ok cc
      | inr there ↦ right k v' (sym there ∙ e) x mem' on' same
    ]

    Extends-cons :
        (a : A) (v : Bool) (m : List (String × Bool))
        → verdict_of enforced decide key m (key a) ≡ none
        → Extends m ((key a, v) ∷ m)
    Extends-cons a v m absent k v' e = elim (verdict_of-cases (key a) v m k) [
      | inl (here, e') ↦ absurd (cc (ap (verdict_of enforced decide key m) here))
      | inr there ↦ there ∙ e
    ]

    -- An asset before the others, once its own verdict is recorded where it wants one.
    before :
        (a : A) (rows : List A) (m m1 : List (String × Bool))
        → band_verdicts enforced decide key (a ∷ rows) m ≡ band_verdicts enforced decide key rows m1
        → Extends m m1
        → (enforced a ≡ true → (v : Bool) × (verdict_of enforced decide key m1 (key a) ≡ some v))
        → Outcome rows m1
        → Outcome (a ∷ rows) m
    before a rows m m1 e ext first (ends m' e' right ext' cover) =
        ends m' (e ∙ e') right (λ k v h. ext' k v (ext k v h))
          λ x mem on. elim ((Memᴰ-cons x a rows).0 mem) [
            | inl here ↦
                let (v, found) = first (subst (λ y. enforced y ≡ true) here on) in
                (
                  v,
                  ext' (key x) v (
                      subst (λ y. verdict_of enforced decide key m1 (key y) ≡ some v) (sym here)
                        found),
                )
            | inr there ↦ cover x there on
          ]
    before a rows m m1 e ext first (stops x e' mem on p) = stops x (e ∙ e') (Memᴰ.tail mem) on p

    band_verdicts-new :
        (a : A) (rows : List A) (m : List (String × Bool)) (v : Bool)
        → enforced a ≡ true
        → verdict_of enforced decide key m (key a) ≡ none
        → decide a ≡ ok v
        → band_verdicts enforced decide key (a ∷ rows) m
          ≡ band_verdicts enforced decide key rows ((key a, v) ∷ m)
    unfolding band_verdicts
    band_verdicts-new a rows m v on absent d = rw (band_verdicts, on, absent, d) refl

    outcome :
        (rows : List A) (m : List (String × Bool))
        → ((x : A) → Memᴰ x rows → Memᴰ x all)
        → Right m
        → Outcome rows m
    unfolding band_verdicts
    outcome [] m within right = ends m refl right (λ k v e. e) (λ x mem. absurd (Memᴰ.not-nil mem))
    outcome (a ∷ rows) m within right =
        let further : (x : A) → Memᴰ x rows → Memᴰ x all = λ x mem. within x (Memᴰ.tail mem) in
        elim (Bool-cases (enforced a)) [
          | inr off ↦
              before a rows m m (rw (band_verdicts, off) refl) (λ k v h. h) (λ on. absurd cc)
                (outcome rows m further right)
          | inl on ↦ elim (Option-cases (verdict_of enforced decide key m (key a))) [
            | inr (v, found) ↦
                before a rows m m (rw (band_verdicts, on, found) refl) (λ k v h. h)
                  (λ h. (v, found)) (outcome rows m further right)
            | inl absent ↦ elim (banded.settled a) [
              | inl (v, d) ↦
                  before a rows m ((key a, v) ∷ m) (band_verdicts-new a rows m v on absent d)
                    (Extends-cons a v m absent) (λ h. (v, verdict_of-here (key a) v m))
                    (outcome rows ((key a, v) ∷ m) further
                      (Right-cons a v m (within a (Memᴰ.head refl)) on d right))
              | inr p ↦ stops a (rw (band_verdicts, on, absent, p) refl) (Memᴰ.head refl) on p
            ]
          ]
        ]

    -- Once every verdict is recorded, the rows pass as by their own decisions.
    filter_rows-ok :
        (rows : List A) (m : List (String × Bool))
        → ((x : A) → Memᴰ x rows → Memᴰ x all)
        → Right m
        → Covers m rows
        → filter_rows enforced decide rows ≡ ok (filter (is_kept enforced decide key m) rows)
    unfolding filter_rows is_kept
    filter_rows-ok [] m within right cover = refl
    filter_rows-ok (a ∷ rows) m within right cover =
        let rest =
          filter_rows-ok rows m (λ x mem. within x (Memᴰ.tail mem)) right
            (λ x mem. cover x (Memᴰ.tail mem)) in
        elim (Bool-cases (enforced a)) [
          | inr off ↦ rw (off, rest) refl
          | inl on ↦
              let (v, found) = cover a (Memᴰ.head refl) on in
              let d = right (key a) v found a (within a (Memᴰ.head refl)) on refl in
              rw (on, d, rest, found) refl
        ]

    later-panic :
        (a : A) (rows : List A)
        → filter_rows enforced decide rows ≡ panic
        → filter_rows enforced decide (a ∷ rows) ≡ panic
    unfolding filter_rows
    later-panic a rows h = elim (Bool-cases (enforced a)) [
      | inr off ↦ rw (off, h) refl
      | inl on ↦ elim (banded.settled a) [
        | inl (v, d) ↦ rw (on, d, h) refl
        | inr p ↦ rw (on, p) refl
      ]
    ]

    filter_rows-panic :
        (rows : List A) (x : A)
        → Memᴰ x rows
        → enforced x ≡ true
        → decide x ≡ panic
        → filter_rows enforced decide rows ≡ panic
    unfolding filter_rows
    filter_rows-panic [] x mem on p = absurd (Memᴰ.not-nil mem)
    filter_rows-panic (a ∷ rows) x mem on p = elim ((Memᴰ-cons x a rows).0 mem) [
      | inl here ↦
          let on' = subst (λ y. enforced y ≡ true) here on in
          let p' = subst (λ y. decide y ≡ panic) here p in rw (on', p') refl
      | inr there ↦ later-panic a rows (filter_rows-panic rows x there on p)
    ]

    by_outcome :
        Outcome all [] → filter_bands enforced decide key all ≡ filter_rows enforced decide all
    unfolding filter_bands
    by_outcome (ends m e right ext cover) =
        ap (λ r. r >>= (λ v. ok (filter (is_kept enforced decide key v) all))) e
        ∙ sym (filter_rows-ok all m (λ x mem. mem) right cover)
    by_outcome (stops x e mem on p) =
        ap (λ r. r >>= (λ v. ok (filter (is_kept enforced decide key v) all))) e
        ∙ sym (filter_rows-panic all x mem on p)

    nothing_yet : Right []
    unfolding verdict_of
    nothing_yet k v e = absurd cc

    -- Both filters answer the same assets, or both panic.
    pub filter_bands-eq : filter_bands enforced decide key all ≡ filter_rows enforced decide all
    filter_bands-eq = by_outcome (outcome all [] (λ x mem. mem) nothing_yet)
