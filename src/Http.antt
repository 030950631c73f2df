-- ===== src/Http.antt =====
-- HTTP responses, as the program builds them: a status and what the body is made from.
use fastrapi.Prelude.{ℕ}
use fastrapi.Text.{Str}
use fastrapi.Python.{PyValue}

pub data Body : Type 0 where
  empty : Body
  text : Str → Body
  -- the JSON object with this text under "detail"
  detail : Str → Body
  -- the JSON of a Python value
  json : PyValue → Body

pub record Response : Type 0 where
  pub status : ℕ
  pub body : Body

-- A status alone, or with a text, as a response.
abbrev pub of_status : ℕ → Response
of_status status = record { status = status; body = empty }

abbrev pub of_text : ℕ → Str → Response
of_text status message = record { status = status; body = text message }

-- `Result<_, Response>`.
pub data Outcome {ℓ} (A : Type ℓ) : Type ℓ where
  ok : A → Outcome A
  fail : Response → Outcome A

infixl 5 ◌>>=◌
abbrev pub ◌>>=◌ {ℓ κ} : {A : Type ℓ} {B : Type κ} → Outcome A → (A → Outcome B) → Outcome B
ok a >>= f = f a
fail r >>= f = fail r
