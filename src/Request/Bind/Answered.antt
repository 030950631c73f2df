-- ===== src/Request/Bind/Answered.antt =====
-- Outcomes of src/ffi/pydantic.rs that neither panic nor raise, and refuse with status 422.
use fastrapi.Prelude.{
  ◌≡◌, refl, Bool, true, false, Option, none, some, if◌then◌else◌, Option-cases, inl, inr,
}
use fastrapi.Text.{Str}
use fastrapi.Python.{PyRef, PyErr, PyResult, ok, err}
use fastrapi.Http.{Response, Outcome, fail}
use fastrapi.Routing.Json.{Json}
use fastrapi.Routing.Types.{PydanticValidator}
use fastrapi.Routing.Dependencies.Execute.{Executed, done, python, response, panic, ◌>>=◌}
use fastrapi.Request.Scalar.{validation_error_response}
use fastrapi.Request.Resolve.{Libraries}
use fastrapi.Server.Payload.{Bytes}
use fastrapi.Request.Bind.{
  Pydantic, lift, in_bounds, refuse, validated, parsed, validate_python_with_pydantic,
  validate_json_with_pydantic, pydantic_error_to_response,
}

module _ {A : Type 0} where
  -- What is done is of the kind `P`; what is refused is refused with status 422; there is no panic, and
  -- no exception of Python.
  abbrev pub Answers : (A → Type 0) → Executed A → Type 0
  Answers P (done a) = P a
  Answers P (response r) = r.status ≡ 422
  Answers P (python e) = ⊥
  Answers P panic = ⊥

  abbrev pub Anything : A → Type 0
  Anything a = Unit

  -- A value that is there and of a kind.
  abbrev pub Here : (A → Type 0) → Option A → Type 0
  Here P none = ⊥
  Here P (some a) = P a

  pub in_bounds-Answers : (P : A → Type 0) (o : Option A) → Here P o → Answers P (in_bounds o)
  in_bounds-Answers P none h = h
  in_bounds-Answers P (some a) h = h

  pub refuse-Answers : (P : A → Type 0) (message : Str) → Answers P (refuse message)
  unfolding validation_error_response
  refuse-Answers P message = refl

  pub if-Answers :
      (P : A → Type 0) (b : Bool) (m k : Executed A)
      → Answers P m
      → Answers P k
      → Answers P (if b then m else k)
  if-Answers P true m k h j = h
  if-Answers P false m k h j = j

  pub lift-Answers :
      (m : Outcome A) → ((r : Response) → m ≡ fail r → r.status ≡ 422) → Answers Anything (lift m)
  lift-Answers (Outcome.ok a) h = tt
  lift-Answers (fail r) h = h r refl

pub weaken-Answers :
    {A : Type 0} (P Q : A → Type 0) (m : Executed A)
    → Answers P m
    → ((a : A) → P a → Q a)
    → Answers Q m
weaken-Answers P Q (done a) h k = k a h
weaken-Answers P Q (response r) h k = h
weaken-Answers P Q (python e) h k = h
weaken-Answers P Q panic h k = h

pub bind-Answers :
    {A B : Type 0} (P : A → Type 0) (Q : B → Type 0) (m : Executed A) (f : A → Executed B)
    → Answers P m
    → ((a : A) → P a → Answers Q (f a))
    → Answers Q (m >>= f)
bind-Answers P Q (done a) f h k = k a h
bind-Answers P Q (response r) f h k = h
bind-Answers P Q (python e) f h k = h
bind-Answers P Q panic f h k = h

module _ (libraries : Libraries) (pydantic : Pydantic) where
  pydantic_error_to_response_lem :
      (e : PyErr) → (pydantic_error_to_response libraries pydantic e).status ≡ 422
  unfolding pydantic_error_to_response
  pydantic_error_to_response_lem e = elim (Option-cases (pydantic.errors_detail e)) [
    | inl x ↦ rw (x, pydantic_error_to_response) refl
    | inr (d, x) ↦ rw (x, pydantic_error_to_response) refl
  ]

  validated-Answers : (r : PyResult PyRef) → Answers Anything (validated libraries pydantic r)
  validated-Answers (ok object) = tt
  validated-Answers (err e) = pydantic_error_to_response_lem e

  pub parsed-Answers : (raw : Bytes) → Answers Anything (parsed libraries pydantic raw)
  parsed-Answers raw = elim (Option-cases (pydantic.from_slice raw)) [
    | inl x ↦ rw (x, parsed) refl
    | inr (j, x) ↦ rw (x, parsed) tt
  ]

  pub validate_python-Answers :
      (validate : PyRef) (value : Json)
      → Answers Anything (validate_python_with_pydantic libraries pydantic validate value)
  unfolding validate_python_with_pydantic
  validate_python-Answers validate value =
      validated-Answers (pydantic.call_with_json validate value)

  pub validate_json-Answers :
      (v : PydanticValidator) (raw : Bytes)
      → Answers Anything (validate_json_with_pydantic libraries pydantic v raw)
  unfolding validate_json_with_pydantic
  validate_json-Answers v raw = elim (Option-cases v.validate_json_method) [
    | inr (method, x) ↦ elim (Option-cases (pydantic.from_utf8 raw)) [
      | inl y ↦ rw (x, y, validate_json_with_pydantic) refl
      | inr (t, y) ↦
          rw (x, y, validate_json_with_pydantic)
            (validated-Answers (pydantic.call_with_text method t))
    ]
    | inl x ↦ elim (Option-cases v.validate_json) [
      | inr (validate, y) ↦
          rw (x, y, validate_json_with_pydantic)
            (validated-Answers (pydantic.call_with_bytes validate raw))
      | inl y ↦
          rw (x, y, validate_json_with_pydantic)
            (bind-Answers Anything Anything (parsed libraries pydantic raw)
              (validate_python_with_pydantic libraries pydantic v.validate_python)
              (parsed-Answers raw) λ value t. validate_python-Answers v.validate_python value)
    ]
  ]
