-- ===== src/Assets/Pages/Covered.antt =====
-- The pages of a listing cover what it selects.
use pdt.Base.{
  ℕ, zero, suc, ◌<◌, String, ◌≡◌, refl, sym, ap, subst, ◌∙◌, ◌↔◌, Bool, true, Option, none, some,
  List, [], ◌∷◌, ◌++◌, Memᴰ, Memᴰ-filter, ◌&&◌, filter, length, take, drop, arith,
}
use mathlib.Core.Path.{fun_ext}
use pdt.Base.Order.{text_order}
use pdt.Base.Sort
use pdt.Base.Sort.{IsStrictOrder, reverse_order, sort, IsSorted, IsKeyed, Fresh}
use pdt.Base.Paging.{
  cut, behind, IsAt, IsAt-start, Turn, ends, goes_on, turn, length-drop-lt, take-append-drop,
}
use pdt.Model.Error.{Result, ok}
use pdt.Model.Asset.{Asset}
use pdt.Model.World.{World, query}
use pdt.Model.World.Outcome.{query_calm}
use pdt.Assets.Rows.{is_live}
use pdt.Assets.Pages.{
  SortField, Direction, asc, desc, Cursor, dated, Place, stamp, place, precedes, comes_before,
  is_behind, select_rows, page_of, list, sort_field, direction, is_of_type, count_list,
}

precedes_order : IsStrictOrder precedes
unfolding precedes
precedes_order = record {
  irrefl = λ (t, i). ground (arith, text_order.irrefl i);
  trans = λ (t, i) (u, j) (v, k) h e. ground (arith, text_order.trans i j k);
  total = λ (t, i) (u, j) h e. ground (arith, text_order.total i j);
}

pub comes_before_order : (d : Direction) → IsStrictOrder (comes_before d)
unfolding comes_before
comes_before_order asc = precedes_order
comes_before_order desc = reverse_order precedes_order

Fresh-place :
    (f : SortField) (t : ℕ) (id : String) (rows : List Asset)
    → Fresh (λ a. a.id) id rows
    → Fresh (place f) (t, id) rows
unfolding place
Fresh-place f t id [] h = tt
Fresh-place f t id (a ∷ rows) (ne, h) =
    (λ e. ne (ap (λ (p : Place). p.1) e), Fresh-place f t id rows h)

-- Ids that are distinct make places that are.
IsKeyed-place :
    (f : SortField) (rows : List Asset) → IsKeyed (λ a. a.id) rows → IsKeyed (place f) rows
unfolding place
IsKeyed-place f [] h = tt
IsKeyed-place f (a ∷ rows) (new, h) =
    (Fresh-place f (stamp f a) a.id rows new, IsKeyed-place f rows h)

Fresh-filter :
    (q : Asset → Bool) (id : String) (rows : List Asset)
    → Fresh (λ a. a.id) id rows
    → Fresh (λ a. a.id) id (filter q rows)
Fresh-filter q id [] h = tt
Fresh-filter q id (a ∷ rows) (ne, h) = ground (arith, Fresh-filter q id rows h)

IsKeyed-filter :
    (q : Asset → Bool) (rows : List Asset)
    → IsKeyed (λ a. a.id) rows
    → IsKeyed (λ a. a.id) (filter q rows)
IsKeyed-filter q [] h = tt
IsKeyed-filter q (a ∷ rows) (new, h) =
    ground (arith, Fresh-filter q a.id rows new, IsKeyed-filter q rows h)

-- What a listing selects, in its order.
abbrev pub selected : SortField → Direction → (Asset → Bool) → List Asset → List Asset
selected f d p rows = sort (comes_before d) (place f) (filter (λ a. is_live a && p a) rows)

pub selected-IsSorted :
    (f : SortField) (d : Direction) (p : Asset → Bool) (rows : List Asset)
    → IsKeyed (λ a. a.id) rows
    → IsSorted (comes_before d) (place f) (selected f d p rows)
selected-IsSorted f d p rows keyed =
    Sort.IsSorted-sort (comes_before_order d) (place f) _
      (IsKeyed-place f _ (IsKeyed-filter _ rows keyed))

pub Memᴰ-selected :
    (f : SortField) (d : Direction) (p : Asset → Bool) (rows : List Asset) (a : Asset)
    → Memᴰ a (selected f d p rows) ↔ (Memᴰ a rows × ((is_live a && p a) ≡ true))
Memᴰ-selected f d p rows a = (
  λ m. (Memᴰ-filter _ rows a).0 ((Sort.Memᴰ-sort (comes_before d) (place f) a _).0 m),
  λ h. (Sort.Memᴰ-sort (comes_before d) (place f) a _).1 ((Memᴰ-filter _ rows a).1 h),
)

-- A client that follows the cursors: the pages, one after the other.
pub data Walk (answer : Option Cursor → Result (List Asset × Option Place))
    : Option Cursor → List Asset → Type 0 where
  last : {c : Option Cursor} {page : List Asset} → answer c ≡ ok (page, none) → Walk answer c page
  more :
      {c : Option Cursor} {page rest : List Asset} {k : Place}
      → answer c ≡ ok (page, some k)
      → Walk answer (some (dated k)) rest
      → Walk answer c (page ++ rest)

-- A cursor that the listing answered.
abbrev pub sent : Option Place → Option Cursor
sent none = none
sent (some k) = some (dated k)

module _ (f : SortField) (d : Direction) (p : Asset → Bool) (limit : ℕ) (pos : 0 < limit)
    (rows : List Asset) (keyed : IsKeyed (λ a. a.id) rows) where
  abbrev laws : IsStrictOrder (comes_before d)
  laws = comes_before_order d

  abbrev all : List Asset
  all = selected f d p rows

  abbrev pub fetch : Option Cursor → List Asset × Option Place
  fetch c = page_of f d p limit c rows

  filter_all : (xs : List Asset) → filter (is_behind f d none) xs ≡ xs
  unfolding is_behind
  filter_all [] = refl
  filter_all (x ∷ xs) = ap (λ ys. x ∷ ys) (filter_all xs)

  -- The query of the page reads the rows behind the cursor.
  pub page_of-behind :
      (c : Option Place)
      → fetch (sent c)
        ≡ cut (place f) limit (
            take
              (suc limit)
              (behind laws (place f) limit pos all (selected-IsSorted f d p rows keyed) c))
  unfolding page_of select_rows is_behind
  page_of-behind none = ap (λ xs. cut (place f) limit (take (suc limit) xs)) (filter_all all)
  page_of-behind (some k) = refl

  abbrev sorted : IsSorted (comes_before d) (place f) all
  sorted = selected-IsSorted f d p rows keyed

  abbrev pub At : List Asset → List Asset → Option Place → Type 0
  At = IsAt laws (place f) limit pos all sorted

  abbrev pub Turned : List Asset → List Asset → List Asset × Option Place → Type 0
  Turned = Turn laws (place f) limit pos all sorted

  pub At-start : At [] all none
  At-start = IsAt-start laws (place f) limit pos all sorted

  pub fetch-Turned :
      (done rest : List Asset) (c : Option Place)
      → At done rest c
      → Turned done rest (fetch (sent c))
  fetch-Turned done rest c at =
      subst (Turned done rest) (sym (page_of-behind c))
        (turn laws (place f) limit pos all sorted done rest c at)

  Walk-turn :
      (fuel : ℕ) (done rest : List Asset) (c : Option Cursor) (r : List Asset × Option Place)
      → length rest < suc fuel
      → fetch c ≡ r
      → ((done' rest' : List Asset) (k : Place)
          → At done' rest' (some k)
          → length rest' < fuel
          → Walk (λ c. ok (fetch c)) (some (dated k)) rest')
      → Turned done rest r
      → Walk (λ c. ok (fetch c)) c rest
  Walk-turn fuel done rest c _ h e next (ends page whole) =
      subst (Walk (λ c. ok (fetch c)) c) whole (last (ap ok e))
  Walk-turn fuel done rest c _ h e next (goes_on page k taken at full) =
      subst (Walk (λ c. ok (fetch c)) c)
        (ap (λ xs. xs ++ drop limit rest) taken ∙ sym (take-append-drop limit rest))
        (more (ap ok e) (next _ _ k at (length-drop-lt limit rest fuel pos full h)))

  Walk-from :
      (fuel : ℕ) (done rest : List Asset) (c : Option Place)
      → At done rest c
      → length rest < fuel
      → Walk (λ c. ok (fetch c)) (sent c) rest
  Walk-from zero done rest c at h = absurd (omega arith)
  Walk-from (suc fuel) done rest c at h =
      Walk-turn fuel done rest (sent c) (fetch (sent c)) h refl
        (λ done' rest' k at' h'. Walk-from fuel done' rest' (some k) at' h')
        (fetch-Turned done rest c at)

  pub page_of-covers : Walk (λ c. ok (fetch c)) none all
  page_of-covers = Walk-from (suc (length all)) [] all none At-start (omega arith)

-- Whether the assets are exactly those that the filter selects, each once, in the order asked for.
pub record Lists (f : SortField) (d : Direction) (p : Asset → Bool) (rows listed : List Asset)
    : Type 0 where
  pub in_order : IsSorted (comes_before d) (place f) listed
  pub exact : (a : Asset) → Memᴰ a listed ↔ (Memᴰ a rows × ((is_live a && p a) ≡ true))

pub selected-Lists :
    (f : SortField) (d : Direction) (p : Asset → Bool) (rows : List Asset)
    → IsKeyed (λ a. a.id) rows
    → Lists f d p rows (selected f d p rows)
selected-Lists f d p rows keyed = record {
  in_order = selected-IsSorted f d p rows keyed;
  exact = Memᴰ-selected f d p rows;
}

-- The answers of a listing, and its count, on a store that does not change and without a failure.
pub page_of_covers :
    (w : World) (f : SortField) (d : Direction) (p : Asset → Bool) (limit : ℕ)
    → w.faults ≡ []
    → 0 < limit
    → IsKeyed (λ a. a.id) w.state.assets
    → (listed : List Asset) × Walk
        (λ c. (query (λ s. page_of f d p limit c s.assets) w).0)
        none
        listed
      × Lists f d p w.state.assets listed
      × ((query (λ s. length (filter (λ a. is_live a && p a) s.assets)) w).0 ≡ ok (length listed))
page_of_covers w f d p limit calm pos keyed =
    let rows = w.state.assets in
    (
      selected f d p rows,
      subst (λ answer. Walk answer none (selected f d p rows))
          (fun_ext
            λ c. sym (ap (λ r. r.0) (query_calm (λ s. page_of f d p limit c s.assets) w calm)))
          (page_of-covers f d p limit pos rows keyed),
      selected-Lists f d p rows keyed,
      ap (λ r. r.0) (query_calm (λ s. length (filter (λ a. is_live a && p a) s.assets)) w calm)
          ∙ ap ok (sym (Sort.length-sort (comes_before d) (place f) _)),
    )

-- A client that follows the cursors of `list`, on a store that does not change and without a
-- failure, is answered the live assets of the type, each once, in the order asked for, and they
-- are as many as `count_list` says. The limit is positive, and the ids are distinct.
pub list_covers :
    (w : World) (limit : ℕ) (asset_type : Option String) (sort_by order : String)
    → w.faults ≡ []
    → 0 < limit
    → IsKeyed (λ a. a.id) w.state.assets
    → (listed : List Asset) × Walk (λ c. (list limit c asset_type sort_by order w).0) none listed
      × Lists (sort_field sort_by) (direction order) (is_of_type asset_type) w.state.assets listed
      × ((count_list asset_type w).0 ≡ ok (length listed))
unfolding list count_list
list_covers w limit asset_type sort_by order calm pos keyed =
    page_of_covers w (sort_field sort_by) (direction order) (is_of_type asset_type) limit calm pos
      keyed
