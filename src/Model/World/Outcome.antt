-- ===== src/Model/World/Outcome.antt =====
-- What a triple says of one world.
use pdt.Base.{true, false, ◌≡◌, refl, sym, subst, []}
use pdt.Model.Error.{ApiError, Result, ok, err, panic}
use pdt.Model.World.{Store, State, World, Exec, query, attempt, attempt_from}
use pdt.Model.World.Hoare.{Runs, Post}

any_result :
    {A : Type 0} (Q : State → Type 0) (r : Result A × World) → Post false (λ _. Q) Q r → Q r.1.state
any_result Q (ok a, w) h = h.1
any_result Q (err e, w) h = h
any_result Q (panic, w) h = h

pub Runs-any :
    {A : Type 0} {P : State → Type 0} {m : Exec A} (Q : State → Type 0)
    → Runs false P m (λ _. Q) Q
    → (w : World) → P w.state
    → Q (m w).1.state
Runs-any {m} Q r w p = any_result Q (m w) (r.at w (λ h. absurd (cc h)) p)

returned :
    {A : Type 0} (Q : A → State → Type 0) (r : Result A × World)
    → Post true Q (λ s. ⊥) r
    → (a : A) × (r.0 ≡ ok a) × Q a r.1.state
returned Q (ok a, w) h = (a, refl, h.1)
returned Q (err e, w) h = absurd h
returned Q (panic, w) h = absurd h

pub Runs-returns :
    {A : Type 0} {P : State → Type 0} {m : Exec A} (Q : A → State → Type 0)
    → Runs true P m Q (λ s. ⊥)
    → (w : World) → w.faults ≡ []
    → P w.state
    → (a : A) × ((m w).0 ≡ ok a) × Q a (m w).1.state
Runs-returns {m} Q r w calm p = returned Q (m w) (r.at w (λ _. calm) p)

ok_injective : {A : Type 0} {a b : A} → ok a ≡ ok b → a ≡ b
ok_injective e = cc e

ok_result :
    {A : Type 0} (Q : A → State → Type 0) (E : State → Type 0) (r : Result A × World) (a : A)
    → Post false Q E r
    → r.0 ≡ ok a
    → Q a r.1.state
ok_result Q E (ok b, w) a h e = subst (λ x. Q x w.state) (ok_injective e) h.1
ok_result Q E (err x, w) a h e = cc
ok_result Q E (panic, w) a h e = cc

pub Runs-ok :
    {A : Type 0} {P : State → Type 0} {m : Exec A} (Q : A → State → Type 0) (E : State → Type 0)
    → Runs false P m Q E
    → (w : World) → P w.state
    → (a : A) → (m w).0 ≡ ok a
    → Q a (m w).1.state
Runs-ok {m} Q E r w p a e = ok_result Q E (m w) a (r.at w (λ h. absurd (cc h)) p) e

-- A query that meets no failure answers, and leaves the world as it is.
pub query_calm :
    {A : Type 0} (f : Store → A) (w : World) → w.faults ≡ [] → query f w ≡ (ok (f w.state.store), w)
unfolding query attempt attempt_from
query_calm f w calm =
    subst
      (λ faults.
        attempt_from faults ApiError.database (λ s. (ok (f s.store), s)) w.state
        ≡ (ok (f w.state.store), record { state = w.state; faults = faults }))
      (sym calm) refl
