-- ===== src/Model/Error.antt =====
-- src/error.rs: the errors of the API and the status that each answers with.
use pdt.Base.{ℕ}

-- The texts that the errors carry are not modelled. `database` stands for the variants that wrap
-- an error of a driver or of a serialiser: `Database`, `BsonSer`, `JsonSer`, `GenericDatabase` and
-- `Sqlx`, which all answer 500.
pub data ApiError : Type 0 where
  not_found bad_request unauthorized forbidden conflict internal database : ApiError
  bson_oid validation auth_degraded : ApiError

-- The HTTP status of an error.
pub status : ApiError → ℕ
status ApiError.not_found = 404
status ApiError.bad_request = 400
status ApiError.unauthorized = 401
status ApiError.forbidden = 403
status ApiError.conflict = 409
status ApiError.internal = 500
status ApiError.database = 500
status ApiError.bson_oid = 400
status ApiError.validation = 400
status ApiError.auth_degraded = 503

-- What a call answers: a value, an error of the API, or a panic of the task.
pub data Result {ℓ} (A : Type ℓ) : Type ℓ where
  ok : A → Result A
  err : ApiError → Result A
  panic : Result A

infixl 10 ◌>>=◌
abbrev pub ◌>>=◌ {ℓ κ} : {A : Type ℓ} {B : Type κ} → Result A → (A → Result B) → Result B
ok a >>= f = f a
err e >>= f = err e
panic >>= f = panic
