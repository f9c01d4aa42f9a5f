-- ===== src/Roles/Service/Resolved.antt =====
-- What the resolution of roles answers, as a function of the store.
use pdt.Base.{
  ℕ, String, ◌≡◌, refl, sym, subst, ◌==◌, Bool-cases, inl, inr, if◌then◌else◌, Bool, true, false,
  Option, none, some, List, [], ◌∷◌,
}
use pdt.Model.Error.{ApiError, Result, ok}
use pdt.Model.Asset.{Asset}
use pdt.Model.World.{Store, State, World, Exec, pure, raise, ensure, ◌>>=◌, ◌>>◌, continue}
use pdt.Model.World.Read.{
  Read, Reads, Returns, Answered, may_fail, answers, fails, query_cases, query-Answers,
  query-Returns, pure-Returns, bind-Returns,
}
use pdt.Assets.Rows.{find_live, or_not_found}
use pdt.Assets.Rows
use pdt.Assets.Pages.{page_of, updated_at, desc}
use pdt.Assets.Search.{search, is_hit}
use pdt.Relations.Repository as Links
use pdt.Relations.Graph.{asset_relations}
use pdt.Cedar.Resolved.{recover, recover_from}
use pdt.Cedar.Resolved.Bypass.{Recovered, recovered, recover-Recovered}
use pdt.Roles.Membership.{membership_rows, caller_role}
use pdt.Roles.Service.{
  RoleAnswer, absent, or_absent, found_or_by_id, global_role, answer_for, find_principal, resolve,
  seat_on,
}

abbrev first_or : List Asset → Option Asset → Option Asset
first_or [] d = d
first_or (a ∷ page) d = some a

abbrev pub answer_in : Store → String → Option Asset → RoleAnswer
answer_in s sub none = record { sub = sub; global_role = "user"; membership = [] }
answer_in s sub (some a) = record {
  sub = sub;
  global_role = global_role a.tags;
  membership = membership_rows a.id (asset_relations s.relations a.id);
}

found :
    (σ : State) (o : Option Asset) (w : World)
    → w.state ≡ σ
    → Read σ o (absent (or_not_found o w).0, (or_not_found o w).1)
unfolding or_not_found absent pure raise
found σ none w e = answers w e
found σ (some a) w e = answers w e

or_absent-Reads :
    (σ : State) (id : String) → Reads σ (find_live σ.assets id) (or_absent (Rows.get_by_id id))
unfolding or_absent Rows.get_by_id absent
or_absent-Reads σ id w e =
    subst (λ (t : State). Read t (find_live t.assets id) (or_absent (Rows.get_by_id id) w)) e
      (query_cases (λ s. find_live s.assets id)
        (λ r.
          Read w.state (find_live w.state.assets id)
            (absent (continue r.0 or_not_found r.1).0, (continue r.0 or_not_found r.1).1))
        w (λ w' same. found w.state _ w' same) (λ w' same. fails _ w' same))

found-Answered :
    (σ : State) (o : Option Asset) (w : World)
    → w.state ≡ σ
    → may_fail w.faults ≡ false
    → Answered σ o (absent (or_not_found o w).0, (or_not_found o w).1)
unfolding or_not_found absent pure raise
found-Answered σ none w e calm = (w, refl, e, calm)
found-Answered σ (some a) w e calm = (w, refl, e, calm)

or_absent-Returns :
    (σ : State) (id : String) → Returns σ (find_live σ.assets id) (or_absent (Rows.get_by_id id))
unfolding or_absent Rows.get_by_id
or_absent-Returns σ id = record {
  reads = or_absent-Reads σ id;
  in_calm = λ w e calm.
      let (w', r, e', calm') = query-Answers σ (λ s. find_live s.assets id) w e calm in
      subst
        (λ (q : Result (Option Asset) × World).
          Answered σ (find_live σ.assets id)
            (absent (continue q.0 or_not_found q.1).0, (continue q.0 or_not_found q.1).1))
        (sym r) (found-Answered σ (find_live σ.assets id) w' e' calm');
}

found_or_by_id-Returns :
    (σ : State) (sub : String) (page : List Asset)
    → Returns σ (first_or page (find_live σ.assets sub)) (found_or_by_id sub page)
unfolding found_or_by_id
found_or_by_id-Returns σ sub [] = or_absent-Returns σ sub
found_or_by_id-Returns σ sub (a ∷ page) = pure-Returns σ (some a)

answer_for-Returns :
    (σ : State) (sub : String) (o : Option Asset)
    → Returns σ (answer_in σ.store sub o) (answer_for sub o)
unfolding answer_for Links.get_asset_relations
answer_for-Returns σ sub none = pure-Returns σ _
answer_for-Returns σ sub (some a) =
    bind-Returns σ (asset_relations σ.relations a.id) _ _ (pure-Returns σ _) (query-Returns σ _)

-- A guarded read is a read.
guarded-Reads :
    {A : Type 0} (σ : State) (v : A) (b : Bool) (e : ApiError) (m : Exec A)
    → Reads σ v m
    → Reads σ v (ensure b e >> m)
unfolding ensure pure raise
guarded-Reads σ v true e m h w same = h w same
guarded-Reads σ v false e m h w same = fails _ _ same

passed : (σ : State) → Returns σ tt (ensure true ApiError.bad_request)
unfolding ensure
passed σ = pure-Returns σ tt

module _ (is_alphanumeric : ℕ → Bool) (fts_match : String → Asset → Bool) where
  -- The asset of a sub: the first that carries it as a tag, or else the one with that id.
  abbrev pub principal_in : Store → String → Option Asset
  principal_in s sub =
      first_or
        (page_of updated_at desc (is_hit is_alphanumeric fts_match none (("sub", sub) ∷ [])) 1 none
          s.assets).0
        (find_live s.assets sub)

  find_principal-Returns :
      (σ : State) (sub : String)
      → Returns σ (principal_in σ.store sub) (find_principal is_alphanumeric fts_match sub)
  unfolding find_principal search
  find_principal-Returns σ sub =
      bind-Returns σ _ _ _ (found_or_by_id-Returns σ sub _) (query-Returns σ _)

  answered-Returns :
      (σ : State) (sub : String)
      → Returns σ
          (answer_in σ.store sub (principal_in σ.store sub))
          (find_principal is_alphanumeric fts_match sub >>= answer_for sub)
  answered-Returns σ sub =
      bind-Returns σ (principal_in σ.store sub) _ _ (answer_for-Returns σ sub _)
        (find_principal-Returns σ sub)

  pub resolve-Reads :
      (σ : State) (sub : String)
      → Reads σ
          (answer_in σ.store sub (principal_in σ.store sub))
          (resolve is_alphanumeric fts_match sub)
  unfolding resolve
  resolve-Reads σ sub =
      let answered = answered-Returns σ sub in guarded-Reads σ _ _ _ _ answered.reads

  resolve-Returns :
      (σ : State) (sub : String)
      → (sub == "") ≡ false
      → Returns σ
          (answer_in σ.store sub (principal_in σ.store sub))
          (resolve is_alphanumeric fts_match sub)
  unfolding resolve
  resolve-Returns σ sub named = rw named (
      bind-Returns σ tt _ (λ u. find_principal is_alphanumeric fts_match sub >>= answer_for sub)
        (answered-Returns σ sub) (passed σ))

  -- The seat of a sub on a workspace, by the rows of its asset; an empty sub has none.
  abbrev pub caller_seat : Store → String → String → String
  caller_seat s sub workspace =
      let answer : RoleAnswer = answer_in s sub (principal_in s sub) in
      if sub == "" then "none" else caller_role answer.membership workspace

  named_seat :
      (s : Store) (sub workspace : String)
      → (sub == "") ≡ false
      → (let answer : RoleAnswer = answer_in s sub (principal_in s sub) in
          caller_role answer.membership workspace)
        ≡ caller_seat s sub workspace
  named_seat s sub workspace named = rw named refl

  seat_on-Returns :
      (σ : State) (sub workspace : String)
      → (sub == "") ≡ false
      → Returns σ
          (caller_seat σ.store sub workspace)
          (seat_on is_alphanumeric fts_match sub workspace)
  unfolding seat_on
  seat_on-Returns σ sub workspace named =
      subst (λ v. Returns σ v (seat_on is_alphanumeric fts_match sub workspace))
        (named_seat σ.store sub workspace named)
        (bind-Returns σ (answer_in σ.store sub (principal_in σ.store sub)) _ _ (pure-Returns σ _)
          (resolve-Returns σ sub named))

  unnamed :
      (sub workspace : String) (w : World)
      → (sub == "") ≡ true
      → recover (seat_on is_alphanumeric fts_match sub workspace) "none" w ≡ (ok "none", w)
  unfolding recover recover_from seat_on resolve ensure raise
  unnamed sub workspace w empty = rw empty refl

  pub seat_on-Recovered :
      (faulty : Type 0) (sub workspace : String) (w : World)
      → (may_fail w.faults ≡ true → faulty)
      → Recovered faulty w.state
          (caller_seat w.state.store sub workspace)
          "none"
          (recover (seat_on is_alphanumeric fts_match sub workspace) "none" w)
  seat_on-Recovered faulty sub workspace w f = elim (Bool-cases (sub == "")) [
    | inl empty ↦
        subst (Recovered faulty w.state (caller_seat w.state.store sub workspace) "none")
          (sym (unnamed sub workspace w empty)) (recovered "none" w (inl (rw empty refl)) refl f)
    | inr named ↦
        recover-Recovered faulty w.state _ "none" (seat_on-Returns w.state sub workspace named) w
          refl f
  ]
