-- ===== src/Model/World/Keeps.antt =====
-- Operations that keep a property of the store, whatever they answer and whichever of their
-- statements fail.
use pdt.Base.{◌≡◌, sym, subst, Bool, true, false, Option, some}
use pdt.Model.Error.{ApiError, Result, ok, err, panic}
use pdt.Model.World.{
  Store, World, Exec, pure, raise, query, execute, ensure, mint, now, try, swallow, ◌>>=◌, ◌>>◌,
}
use pdt.Model.World.Hoare.{
  Post, Runs, Runs-bind, Runs-pure, Runs-raise, Runs-query, Runs-execute, Runs-ensure, Runs-mint,
  Runs-now, Runs-conseq,
}

module _ (P : Store → Type 0) where
  abbrev pub Keeps : {A : Type 0} → Exec A → Type 0
  Keeps m = Runs false (λ s. P s.store) m (λ _ s. P s.store) (λ s. P s.store)

  pub Keeps-bind :
      {A B : Type 0} {m : Exec A} {f : A → Exec B}
      → Keeps m
      → ((a : A) → Keeps (f a))
      → Keeps (m >>= f)
  Keeps-bind h k = Runs-bind (λ _ s. P s.store) h k

  pub Keeps-then : {A B : Type 0} {m : Exec A} {n : Exec B} → Keeps m → Keeps n → Keeps (m >> n)
  Keeps-then h k = Runs-bind (λ _ s. P s.store) h (λ a. k)

  -- The rest may use that the test passed.
  pub Keeps-ensure :
      {B : Type 0} (b : Bool) (e : ApiError) {n : Exec B}
      → (b ≡ true → Keeps n)
      → Keeps (ensure b e >> n)
  Keeps-ensure b e h =
      Runs-bind (λ _ s. P s.store × (b ≡ true)) (Runs-ensure b e (λ s p h'. p))
        (λ a. record { at = λ w c (p, passed). (h passed).at w c p })

  pub Keeps-test : (b : Bool) (e : ApiError) → Keeps (ensure b e)
  Keeps-test b e = Runs-conseq _ (λ a s p. p.0) (Runs-ensure b e (λ s p h'. p))

  pub Keeps-pure : {A : Type 0} (a : A) → Keeps (pure a)
  Keeps-pure a = Runs-pure a (λ s p. p)

  pub Keeps-raise : {A : Type 0} (e : ApiError) → Keeps (raise {A = A} e)
  Keeps-raise e = Runs-raise e (λ s p. p)

  pub Keeps-query : {A : Type 0} (f : Store → A) → Keeps (query f)
  Keeps-query f = Runs-query f (λ loose s p. p) (λ s p. p)

  pub Keeps-mint : Keeps mint
  Keeps-mint = Runs-mint (λ s p. p)

  pub Keeps-now : Keeps now
  Keeps-now = Runs-now (λ s p at h ticks. p)

  pub Keeps-execute :
      {A : Type 0} (f : Store → Option (A × Store))
      → ((s : Store) → P s → (a : A) (t : Store) → f s ≡ some (a, t) → P t)
      → Keeps (execute f)
  Keeps-execute f h = Runs-execute f (λ loose s p. p) (λ s p e. p) (λ s p a t e. h s.store p a t e)

-- A call that leaves the store as it is keeps every property of it.
pub Keeps-frame :
    (P : Store → Type 0) {A : Type 0} {m : Exec A}
    → ((w : World) → (m w).1.state.store ≡ w.state.store)
    → Keeps P m
Keeps-frame P {A} {m} h = record { at = λ w c p. kept (m w) (subst P (sym (h w)) p) }
  where
    kept :
        (r : Result A × World)
        → P r.1.state.store
        → Post false (λ _ s. P s.store) (λ s. P s.store) r
    kept (ok a, w) p = ((λ e. absurd (cc e)), p)
    kept (err e, w) p = p
    kept (panic, w) p = p

-- A call whose failure is passed over keeps what the call keeps.
pub Keeps-try : (P : Store → Type 0) {A : Type 0} {m : Exec A} → Keeps P m → Keeps P (try m)
unfolding try
Keeps-try P {A} {m} h = record { at = λ w c p. kept (m w) (h.at w c p) }
  where
    kept :
        (r : Result A × World)
        → Post false (λ _ s. P s.store) (λ s. P s.store) r
        → Post false (λ _ s. P s.store) (λ s. P s.store) (swallow r.0, r.1)
    kept (ok a, w) q = q
    kept (err e, w) q = ((λ e. absurd (cc e)), q)
    kept (panic, w) q = q
