-- ===== src/Model/World/Read.antt =====
-- Operations that only read: they answer one value or fail, and leave the state as it is.
use pdt.Base.{◌≡◌, refl, sym, ap, subst, any, Bool, true, false, List, [], ◌∷◌}
use pdt.Model.Error.{ApiError, Result, ok, err}
use pdt.Model.World.{Store, State, World, Exec, pure, query, attempt, attempt_from, ◌>>=◌, continue}

-- A read of the state `σ` answers `v` or fails.
pub data Read {A : Type 0} (σ : State) (v : A) : Result A × World → Type 0 where
  answers : (w : World) → w.state ≡ σ → Read σ v (ok v, w)
  fails : (e : ApiError) (w : World) → w.state ≡ σ → Read σ v (err e, w)

abbrev pub Reads : {A : Type 0} → State → A → Exec A → Type 0
Reads σ v m = (w : World) → w.state ≡ σ → Read σ v (m w)

module _ {A : Type 0} (σ : State) (f : Store → A) where
  answered :
      (faults : List Bool) (s : State)
      → s ≡ σ
      → Read σ (f σ.store) (ok (f s.store), record { state = s; faults = faults })
  answered faults s e =
      subst (λ v. Read σ v (ok (f s.store), record { state = s; faults = faults }))
        (ap (λ (t : State). f t.store) e) (answers _ e)

  attempt-Read :
      (faults : List Bool) (s : State)
      → s ≡ σ
      → Read σ (f σ.store) (attempt_from faults ApiError.database (λ t. (ok (f t.store), t)) s)
  unfolding attempt_from
  attempt-Read [] s e = answered [] s e
  attempt-Read (true ∷ rest) s e = fails _ _ e
  attempt-Read (false ∷ rest) s e = answered rest s e

  pub query-Reads : Reads σ (f σ.store) (query f)
  unfolding query attempt
  query-Reads w e = attempt-Read w.faults w.state e

pub pure-Reads : {A : Type 0} (σ : State) (a : A) → Reads σ a (pure a)
unfolding pure
pure-Reads σ a w e = answers w e

module _ {A B : Type 0} (σ : State) (u : A) (v : B) (f : A → Exec B) (hf : Reads σ v (f u)) where
  continue-Read : (r : Result A × World) → Read σ u r → Read σ v (continue r.0 f r.1)
  continue-Read r (answers w e) = hf w e
  continue-Read r (fails x w e) = fails x w e

  pub bind-Reads : {m : Exec A} → Reads σ u m → Reads σ v (m >>= f)
  bind-Reads {m} hm w e = continue-Read (m w) (hm w e)

-- A query answers, or fails as the database does.
module _ {A : Type 0} (f : Store → A) (Q : Result A × World → Type 0) where
  attempt_cases :
      (faults : List Bool) (s : State)
      → ((w : World) → w.state ≡ s → Q (ok (f s.store), w))
      → ((w : World) → w.state ≡ s → Q (err ApiError.database, w))
      → Q (attempt_from faults ApiError.database (λ t. (ok (f t.store), t)) s)
  unfolding attempt_from
  attempt_cases [] s answer fail = answer _ refl
  attempt_cases (true ∷ rest) s answer fail = fail _ refl
  attempt_cases (false ∷ rest) s answer fail = answer _ refl

  pub query_cases :
      (w : World)
      → ((w' : World) → w'.state ≡ w.state → Q (ok (f w.state.store), w'))
      → ((w' : World) → w'.state ≡ w.state → Q (err ApiError.database, w'))
      → Q (query f w)
  unfolding query attempt
  query_cases w answer fail = attempt_cases w.faults w.state answer fail

-- Whether a failure is ahead.
abbrev pub may_fail : List Bool → Bool
may_fail faults = any (λ b. b) faults

abbrev pub Answered : {A : Type 0} → State → A → Result A × World → Type 0
Answered σ v r = (w : World) × (r ≡ (ok v, w)) × (w.state ≡ σ) × (may_fail w.faults ≡ false)

-- Without a failure ahead a read answers.
abbrev pub Answers : {A : Type 0} → State → A → Exec A → Type 0
Answers σ v m = (w : World) → w.state ≡ σ → may_fail w.faults ≡ false → Answered σ v (m w)

pub pure-Answers : {A : Type 0} (σ : State) (a : A) → Answers σ a (pure a)
unfolding pure
pure-Answers σ a w e calm = (w, refl, e, calm)

module _ {A : Type 0} (σ : State) (f : Store → A) where
  attempt-Answered :
      (faults : List Bool) (s : State)
      → s ≡ σ
      → may_fail faults ≡ false
      → Answered σ (f σ.store) (attempt_from faults ApiError.database (λ t. (ok (f t.store), t)) s)
  unfolding attempt_from
  attempt-Answered [] s e calm =
      let w : World = record { state = s; faults = [] } in
      (w, ap (λ (t : State). (ok (f t.store), w)) e, e, refl)
  attempt-Answered (true ∷ rest) s e calm = absurd (cc calm)
  attempt-Answered (false ∷ rest) s e calm =
      let w : World = record { state = s; faults = rest } in
      (w, ap (λ (t : State). (ok (f t.store), w)) e, e, calm)

  pub query-Answers : Answers σ (f σ.store) (query f)
  unfolding query attempt
  query-Answers w e calm = attempt-Answered w.faults w.state e calm

module _ {A B : Type 0} (σ : State) (u : A) (v : B) (f : A → Exec B) (hf : Answers σ v (f u)) where
  pub bind-Answers : {m : Exec A} → Answers σ u m → Answers σ v (m >>= f)
  bind-Answers {m} hm w e calm =
      let (w', r, e', calm') = hm w e calm in
      subst (λ (r : Result A × World). Answered σ v (continue r.0 f r.1)) (sym r) (hf w' e' calm')

-- A read that fails only where a failure is ahead.
pub record Returns {A : Type 0} (σ : State) (v : A) (m : Exec A) : Type 0 where
  pub reads : Reads σ v m
  pub in_calm : Answers σ v m

pub pure-Returns : {A : Type 0} (σ : State) (a : A) → Returns σ a (pure a)
pure-Returns σ a = record { reads = pure-Reads σ a; in_calm = pure-Answers σ a }

pub query-Returns : {A : Type 0} (σ : State) (f : Store → A) → Returns σ (f σ.store) (query f)
query-Returns σ f = record { reads = query-Reads σ f; in_calm = query-Answers σ f }

pub bind-Returns :
    {A B : Type 0} (σ : State) (u : A) (v : B) (f : A → Exec B) {m : Exec A}
    → Returns σ v (f u)
    → Returns σ u m
    → Returns σ v (m >>= f)
bind-Returns σ u v f hf hm = record {
  reads = bind-Reads σ u v f hf.reads hm.reads;
  in_calm = bind-Answers σ u v f hf.in_calm hm.in_calm;
}
