-- ===== src/Model/World/Hoare.antt =====
-- Triples for the operations of a store: what holds of the state before, after a value, and after
-- an error. A step that fails by the schedule leaves the state as it is. A calm triple is about a
-- schedule without failures.
use pdt.Base.{
  ℕ, suc, ◌≤◌, String, ◌≡◌, refl, subst, sym, Bool, true, false, Option, none, some, List, [], ◌∷◌,
  ◌+◌, arith, Bool-cases, inl, inr,
}
use pdt.Model.Error.{ApiError, Result, ok, err, panic}
use pdt.Model.World.{
  Store, State, World, Exec, pure, raise, crash, attempt, attempt_from, commit, advance, query,
  execute, file_op, ensure, mint, now, ◌>>=◌, continue,
}

abbrev Calm : Bool → List Bool → Type 0
Calm calm faults = calm ≡ true → faults ≡ []

-- `Q` after a value, `E` after an error or a panic.
abbrev pub Post :
    {A : Type 0} → Bool → (A → State → Type 0) → (State → Type 0) → Result A × World → Type 0
Post calm Q E (ok a, w) = Calm calm w.faults × Q a w.state
Post calm Q E (err e, w) = E w.state
Post calm Q E (panic, w) = E w.state

pub record Runs {A : Type 0} (calm : Bool) (P : State → Type 0) (m : Exec A)
    (Q : A → State → Type 0) (E : State → Type 0) : Type 0 where
  pub at : (w : World) → Calm calm w.faults → P w.state → Post calm Q E (m w)

module _ {A : Type 0} (calm : Bool) (P : State → Type 0) (Q : A → State → Type 0)
    (E : State → Type 0) where
  -- What a step does where it does not fail.
  abbrev Stepped : Result A × State → Type 0
  Stepped (ok a, s) = Q a s
  Stepped (err e, s) = E s
  Stepped (panic, s) = E s

  Stepped-Post :
      (r : Result A) (s : State) (faults : List Bool)
      → Calm calm faults
      → Stepped (r, s)
      → Post calm Q E (r, record { state = s; faults = faults })
  Stepped-Post (ok a) s faults c h = (c, h)
  Stepped-Post (err e) s faults c h = h
  Stepped-Post panic s faults c h = h

  still_calm : (b : Bool) (rest : List Bool) → Calm calm (b ∷ rest) → Calm calm rest
  still_calm b rest c h = absurd (cc (c h))

  attempt-Runs :
      (e : ApiError) (f : State → Result A × State)
      → (calm ≡ false → (s : State) → P s → E s)
      → ((s : State) → P s → Stepped (f s))
      → (faults : List Bool) → Calm calm faults
      → (s : State) → P s
      → Post calm Q E (attempt_from faults e f s)
  unfolding attempt_from
  attempt-Runs e f he hf [] c s p = let (r, t) = f s in Stepped-Post r t [] c (hf s p)
  attempt-Runs e f he hf (true ∷ rest) c s p = elim (Bool-cases calm) [
    | inl held ↦ absurd (cc (c held))
    | inr loose ↦ he loose s p
  ]
  attempt-Runs e f he hf (false ∷ rest) c s p =
      let (r, t) = f s in Stepped-Post r t rest (still_calm false rest c) (hf s p)

  commit-Stepped :
      (s : State) (o : Option (A × Store))
      → (o ≡ none → E s)
      → ((a : A) (t : Store) → o ≡ some (a, t) → Q a (record s { store = t }))
      → Stepped (commit s o)
  unfolding commit
  commit-Stepped s none hn hq = hn refl
  commit-Stepped s (some (a, t)) hn hq = hq a t refl

module _ {A B : Type 0} (calm : Bool) (R : B → State → Type 0) (E : State → Type 0) where
  continue-Post :
      (Q : A → State → Type 0) (r : Result A) (f : A → Exec B) (w : World)
      → ((a : A) → Runs calm (Q a) (f a) R E)
      → Post calm Q E (r, w)
      → Post calm R E (continue r f w)
  continue-Post Q (ok a) f w h (c, p) = (h a).at w c p
  continue-Post Q (err e) f w h p = p
  continue-Post Q panic f w h p = p

module _ {A : Type 0} {calm : Bool} {P : State → Type 0} {Q : A → State → Type 0}
    {E : State → Type 0} where
  pub Runs-pure : (a : A) → ((s : State) → P s → Q a s) → Runs calm P (pure a) Q E
  unfolding pure
  Runs-pure a h = record { at = λ w c p. (c, h w.state p) }

  pub Runs-raise : (e : ApiError) → ((s : State) → P s → E s) → Runs calm P (raise e) Q E
  unfolding raise
  Runs-raise e h = record { at = λ w c p. h w.state p }

  pub Runs-crash : ((s : State) → P s → E s) → Runs calm P crash Q E
  unfolding crash
  Runs-crash h = record { at = λ w c p. h w.state p }

  pub Runs-absurd : {m : Exec A} → ((s : State) → P s → ⊥) → Runs calm P m Q E
  Runs-absurd h = record { at = λ w c p. absurd (h w.state p) }

  -- What does not depend on the state is a hypothesis.
  pub Runs-given :
      {X : Type 0} {m : Exec A} → (X → Runs calm P m Q E) → Runs calm (λ s. P s × X) m Q E
  Runs-given h = record { at = λ w c (p, x). (h x).at w c p }

  pub Runs-weaken :
      {P' : State → Type 0} {m : Exec A}
      → ((s : State) → P' s → P s)
      → Runs calm P m Q E
      → Runs calm P' m Q E
  Runs-weaken h r = record { at = λ w c p. r.at w c (h w.state p) }

  pub Runs-query :
      (f : Store → A)
      → (calm ≡ false → (s : State) → P s → E s)
      → ((s : State) → P s → Q (f s.store) s)
      → Runs calm P (query f) Q E
  unfolding query attempt
  Runs-query f he hq = record {
    at = λ w c p.
        attempt-Runs calm P Q E ApiError.database (λ s. (ok (f s.store), s)) he hq w.faults c
          w.state p;
  }

  -- A statement may also violate a constraint.
  pub Runs-execute :
      (f : Store → Option (A × Store))
      → (calm ≡ false → (s : State) → P s → E s)
      → ((s : State) → P s → f s.store ≡ none → E s)
      → ((s : State)
          → P s
          → (a : A) (t : Store) → f s.store ≡ some (a, t)
          → Q a (record s { store = t }))
      → Runs calm P (execute f) Q E
  unfolding execute attempt
  Runs-execute f he hn hq = record {
    at = λ w c p.
        attempt-Runs calm P Q E ApiError.database (λ s. commit s (f s.store)) he
          (λ s p'. commit-Stepped calm P Q E s (f s.store) (hn s p') (hq s p')) w.faults c w.state
          p;
  }

  pub Runs-file_op :
      (f : Store → A × Store)
      → (calm ≡ false → (s : State) → P s → E s)
      → ((s : State) → P s → Q (f s.store).0 (record s { store = (f s.store).1 }))
      → Runs calm P (file_op f) Q E
  unfolding file_op attempt
  Runs-file_op f he hq = record {
    at = λ w c p.
        attempt-Runs calm P Q E ApiError.internal
          (λ s. let (a, t) = f s.store in (ok a, record s { store = t })) he hq w.faults c w.state
          p;
  }

module _ {A B : Type 0} {calm : Bool} {P : State → Type 0} {R : B → State → Type 0}
    {E : State → Type 0} where
  pub Runs-bind :
      (Q : A → State → Type 0) {m : Exec A} {f : A → Exec B}
      → Runs calm P m Q E
      → ((a : A) → Runs calm (Q a) (f a) R E)
      → Runs calm P (m >>= f) R E
  Runs-bind Q {m} {f} hm hf = record {
    at = λ w c p. let (r, w') = m w in continue-Post calm R E Q r f w' hf (hm.at w c p);
  }

module _ {A : Type 0} (calm : Bool) (Q Q' : A → State → Type 0) (E E' : State → Type 0) where
  Post-mono :
      (r : Result A × World)
      → ((a : A) (s : State) → Q a s → Q' a s)
      → ((s : State) → E s → E' s)
      → Post calm Q E r
      → Post calm Q' E' r
  Post-mono (ok a, w) h k (c, q) = (c, h a w.state q)
  Post-mono (err e, w) h k q = k w.state q
  Post-mono (panic, w) h k q = k w.state q

pub Runs-conseq :
    {A : Type 0} {calm : Bool} {P : State → Type 0} {Q' : A → State → Type 0} {E : State → Type 0}
    {m : Exec A} (Q : A → State → Type 0)
    → ((a : A) (s : State) → Q a s → Q' a s)
    → Runs calm P m Q E
    → Runs calm P m Q' E
Runs-conseq {calm} {Q'} {E} {m} Q h r = record {
  at = λ w c p. Post-mono calm Q Q' E E (m w) h (λ s e. e) (r.at w c p);
}

pub Runs-fails :
    {A : Type 0} {calm : Bool} {P : State → Type 0} {Q : A → State → Type 0} {E' : State → Type 0}
    {m : Exec A} (E : State → Type 0)
    → ((s : State) → E s → E' s)
    → Runs calm P m Q E
    → Runs calm P m Q E'
Runs-fails {calm} {Q} {E'} {m} E h r = record {
  at = λ w c p. Post-mono calm Q Q E E' (m w) (λ a s q. q) h (r.at w c p);
}

-- The rest may use that the test passed.
pub Runs-ensure :
    {calm : Bool} {P : State → Type 0} {E : State → Type 0} (b : Bool) (e : ApiError)
    → ((s : State) → P s → b ≡ false → E s)
    → Runs calm P (ensure b e) (λ _ s. P s × (b ≡ true)) E
unfolding ensure
Runs-ensure true e h = record { at = λ w c p. (c, (p, refl)) }
Runs-ensure false e h = record { at = λ w c p. h w.state p refl }

pub Runs-mint :
    {calm : Bool} {P : State → Type 0} {Q : String → State → Type 0} {E : State → Type 0}
    → ((s : State) → P s → Q (s.uuid s.minted) (record s { minted = suc s.minted }))
    → Runs calm P mint Q E
unfolding mint
Runs-mint h = record { at = λ w c p. (c, h w.state p) }

-- The clock does not go back.
abbrev Advanced : (P : State → Type 0) (Q : ℕ → State → Type 0) → Type 0
Advanced P Q =
    (s : State)
    → P s
    → (at : ℕ) → s.clock ≤ at
    → (ticks : List ℕ) → Q at (record s { clock = at; ticks = ticks })

advance-Advanced :
    (P : State → Type 0) (Q : ℕ → State → Type 0)
    → Advanced P Q
    → (ticks : List ℕ) (s : State) → P s
    → Q (advance ticks s).clock (advance ticks s)
unfolding advance
advance-Advanced P Q h [] s p = h s p s.clock (omega arith) s.ticks
advance-Advanced P Q h (d ∷ rest) s p = h s p (s.clock + d) (omega arith) rest

pub Runs-now :
    {calm : Bool} {P : State → Type 0} {Q : ℕ → State → Type 0} {E : State → Type 0}
    → ((s : State)
        → P s
        → (at : ℕ) → s.clock ≤ at
        → (ticks : List ℕ) → Q at (record s { clock = at; ticks = ticks }))
    → Runs calm P now Q E
unfolding now
Runs-now {P} {Q} h = record { at = λ w c p. (c, advance-Advanced P Q h w.state.ticks w.state p) }

-- A value that is known may be put in.
pub Runs-eq :
    {A B : Type 0} {calm : Bool} {P : State → Type 0} {Q : B → State → Type 0} {E : State → Type 0}
    (f : A → Exec B) (x y : A)
    → Runs calm P (f y) Q E
    → Runs calm (λ s. P s × (x ≡ y)) (f x) Q E
Runs-eq {calm} {Q} {E} f x y h = record {
  at = λ w c (p, e). subst (λ z. Post calm Q E (f z w)) (sym e) (h.at w c p);
}

abbrev first_tick : List ℕ → ℕ
first_tick [] = 0
first_tick (d ∷ rest) = d

-- What the next reading of the clock answers.
abbrev pub reading : State → ℕ
reading s = s.clock + first_tick s.ticks

reading_lem :
    (P : State → Type 0) (Q : ℕ → State → Type 0)
    → ((s : State)
        → P s
        → (ticks : List ℕ) → Q (reading s) (record s { clock = reading s; ticks = ticks }))
    → (ticks : List ℕ) (s : State) → s.ticks ≡ ticks
    → P s
    → Q (advance ticks s).clock (advance ticks s)
unfolding advance
reading_lem P Q h [] s e p =
    let none_left : s.clock + first_tick s.ticks ≡ s.clock = rw e (omega arith) in
    subst (λ n. Q n (record s { clock = n })) none_left (h s p s.ticks)
reading_lem P Q h (d ∷ rest) s e p =
    let moved : s.clock + first_tick s.ticks ≡ s.clock + d = rw e refl in
    subst (λ n. Q n (record s { clock = n; ticks = rest })) moved (h s p rest)

-- The clock that is read is the one that its next reading answers.
pub Runs-reading :
    {calm : Bool} {P : State → Type 0} {Q : ℕ → State → Type 0} {E : State → Type 0}
    → ((s : State)
        → P s
        → (ticks : List ℕ) → Q (reading s) (record s { clock = reading s; ticks = ticks }))
    → Runs calm P now Q E
unfolding now
Runs-reading {P} {Q} h = record {
  at = λ w c p. (c, reading_lem P Q h w.state.ticks w.state refl p);
}
