-- ===== src/Model/World/Transaction.antt =====
-- A transaction: its body's result after it succeeds, and the old store after it fails.
use pdt.Base.{false}
use pdt.Model.Error.{Result, ok, err, panic}
use pdt.Model.World.{Store, World, Exec, settle, transaction}
use pdt.Model.World.Hoare.{Runs, Runs-bind, Runs-query, Post}

module _ {A : Type 0} (P Q : Store → Type 0) where
  settle-Post :
      (old : Store) (r : Result A × World)
      → P old
      → Post false (λ _ s. Q s.store) (λ s. Unit) r
      → Post false (λ _ s. Q s.store) (λ s. P s.store) (settle old r)
  settle-Post old (ok a, w) p q = q
  settle-Post old (err e, w) p q = p
  settle-Post old (panic, w) p q = p

  pub Runs-transaction :
      {body : Exec A}
      → Runs false (λ s. P s.store) body (λ _ s. Q s.store) (λ s. Unit)
      → Runs false (λ s. P s.store) (transaction body) (λ _ s. Q s.store) (λ s. P s.store)
  unfolding transaction
  Runs-transaction {body} h =
      Runs-bind (λ _ s. P s.store) (Runs-query _ (λ loose s p. p) (λ s p. p))
        λ _. record {
          at = λ w c p. settle-Post w.state.store _ p (
              (Runs-bind (λ _ s. Q s.store) h λ a. Runs-query _ (λ loose s q. tt) (λ s q. q)).at w c
                p);
        }
