-- ===== src/Request/Bind/Steps.antt =====
-- What the steps of `apply_body_and_validation` (src/ffi/pydantic.rs) bind.
use fastrapi.Prelude.{
  ℕ, ◌≡◌, refl, sym, subst, Bool, true, false, not, ◌||◌, Option, none, some, List, if◌then◌else◌,
  is_some, get_elem?, lookup, lookup-insert, Bool-cases, Option-cases, inl, inr,
}
use fastrapi.Text.{Str, str_eq}
use fastrapi.Text.Laws.{str_key, str_eq_refl}
use fastrapi.Http.{Response, fail}
use fastrapi.Routing.Json.{Fields, get_field}
use fastrapi.Routing.Types.{ParsedParameter, PydanticValidator, RouteHandler}
use fastrapi.Routing.Dependencies.Execute.{Argument, Kwargs, Executed}
use fastrapi.Request.Scalar.{convert_scalar_value}
use fastrapi.Request.Constraints.{validate_scalar_constraints}
use fastrapi.Request.Resolve.{Libraries}
use fastrapi.Request.Resolve.Safety.{Refuses422-convert, Refuses422-validate}
use fastrapi.Server.Payload.{BodyField, text, file, Form}
use fastrapi.Request.Bind.{
  Pydantic, lift, set_arg, by_either, registered, registered_validator, default_step, absent_step,
  set_field, form_step, object_step, validate_python_with_pydantic,
}
use fastrapi.Request.Bind.Answered.{
  Answers, Anything, Here, in_bounds-Answers, refuse-Answers, lift-Answers, bind-Answers,
  validate_python-Answers,
}

abbrev pub Has : Str → Kwargs → Type 0
Has name kwargs = is_some (lookup name kwargs) ≡ true

-- Every argument stays.
abbrev pub Grows : Kwargs → Kwargs → Type 0
Grows k m = (name : Str) → Has name k → Has name m

-- A parameter has an argument, or is not required.
abbrev pub IsBound : ParsedParameter → Kwargs → Type 0
IsBound param kwargs = (not param.required || is_some (lookup param.name kwargs)) ≡ true

abbrev pub Progress : Kwargs → ParsedParameter → Kwargs → Type 0
Progress kwargs param bound = Grows kwargs bound × IsBound param bound

pub or_required : (b c d : Bool) → (c ≡ true → d ≡ true) → (not b || c) ≡ true → (not b || d) ≡ true
or_required true c d f h = f h
or_required false c d f h = refl

pub or_true : (b c : Bool) → c ≡ true → (b || c) ≡ true
or_true true c h = refl
or_true false c h = h

pub IsBound-Grows :
    (param : ParsedParameter) (k m : Kwargs) → Grows k m → IsBound param k → IsBound param m
IsBound-Grows param k m g h = or_required param.required _ _ (g param.name) h

pub IsBound-optional :
    (param : ParsedParameter) (k : Kwargs) → param.required ≡ false → IsBound param k
IsBound-optional param k e =
    subst (λ (b : Bool). (not b || is_some (lookup param.name k)) ≡ true) (sym e) refl

pub set_arg-Progress :
    (param : ParsedParameter) (a : Argument) (k : Kwargs) → Progress k param (set_arg param a k)
set_arg-Progress param a k = (
  λ name h. elim (Bool-cases (str_eq param.name name)) [
    | inl e ↦ rw (lookup-insert param.name name a k, e) refl
    | inr e ↦ rw (lookup-insert param.name name a k, e) h
  ],
  or_true (not param.required) _
      (rw (lookup-insert param.name param.name a k, str_eq_refl param.name) refl),
)

-- An index of a validator, where there is one, is in range.
abbrev pub RegisteredAt : List PydanticValidator → Option ℕ → Type 0
RegisteredAt validators none = Unit
RegisteredAt validators (some index) = Here Anything (get_elem? validators index)

abbrev pub IsRegistered : RouteHandler → ParsedParameter → Type 0
IsRegistered handler param = RegisteredAt handler.param_validators param.validator_index

pub registered-Answers :
    (validators : List PydanticValidator) (o : Option ℕ)
    → RegisteredAt validators o
    → Answers Anything (registered validators o)
registered-Answers validators none h = refuse-Answers {A = PydanticValidator} Anything _
registered-Answers validators (some index) h = in_bounds-Answers Anything _ h

pub if_cases {ℓ} :
    {A : Type 0} (P : A → Type ℓ) (b : Bool) (x y : A)
    → (b ≡ true → P x)
    → (b ≡ false → P y)
    → P (if b then x else y)
if_cases P true x y f g = f refl
if_cases P false x y f g = g refl

module _ (libraries : Libraries) (pydantic : Pydantic) (handler : RouteHandler) where
  -- A step binds its parameter, or refuses.
  abbrev pub Binds :
      (ParsedParameter → Type 0) → (ParsedParameter → Kwargs → Executed Kwargs) → Type 0
  Binds R step =
      (param : ParsedParameter) (kwargs : Kwargs)
      → R param
      → Answers (Progress kwargs param) (step param kwargs)

  pub convert_status :
      (raw : Str) (param : ParsedParameter) (r : Response)
      → convert_scalar_value libraries.conversions raw param ≡ fail r
      → r.status ≡ 422
  unfolding convert_scalar_value
  convert_status raw param =
      (Refuses422-convert libraries.conversions param.scalar_kind param.annotation raw).at

  pub default_step-Binds : Binds (λ p. p.required ≡ false) (default_step libraries pydantic)
  default_step-Binds param kwargs e =
      if_cases (Progress kwargs param) param.has_default _ kwargs
        (λ d. set_arg-Progress param _ kwargs) (λ d. (λ name h. h, IsBound-optional param kwargs e))

  pub absent_step-Binds : Binds (λ p. Unit) (absent_step libraries pydantic)
  absent_step-Binds param kwargs t =
      if_cases (Answers (Progress kwargs param)) param.has_default _ _
        (λ d. set_arg-Progress param _ kwargs)
        (λ d.
          if_cases (Answers (Progress kwargs param)) param.required _ _
            (λ e. refuse-Answers (Progress kwargs param) _)
            (λ e. (λ name h. h, IsBound-optional param kwargs e)))

  pub set_field-Binds : (field : BodyField) → Binds (λ p. Unit) (set_field libraries pydantic field)
  set_field-Binds (file f) param kwargs t = set_arg-Progress param (Argument.upload f) kwargs
  set_field-Binds (text raw) param kwargs t =
      bind-Answers Anything (Progress kwargs param)
        (lift (convert_scalar_value libraries.conversions raw param)) _
        (lift-Answers _ (convert_status raw param))
        λ value u.
          bind-Answers Anything (Progress kwargs param)
            (lift (validate_scalar_constraints libraries.extraction param value)) _
            (lift-Answers _ (Refuses422-validate libraries.extraction param value).at)
            λ _ w. set_arg-Progress param (Argument.value value) kwargs

  pub form_step-Binds : (form : Form) → Binds (λ p. Unit) (form_step libraries pydantic form)
  unfolding form_step
  form_step-Binds form param kwargs t =
      elim (Option-cases (by_either (λ key. lookup key form) param)) [
        | inl e ↦ rw (e, form_step) (absent_step-Binds param kwargs t)
        | inr (field, e) ↦ rw (e, form_step) (set_field-Binds field param kwargs t)
      ]

  pub registered_validator-Answers :
      (param : ParsedParameter)
      → IsRegistered handler param
      → Answers Anything (registered_validator libraries pydantic handler param)
  registered_validator-Answers param h =
      registered-Answers handler.param_validators param.validator_index h

  pub object_step-Binds :
      (fields : Fields)
      → Binds (IsRegistered handler) (object_step libraries pydantic handler fields)
  unfolding object_step
  object_step-Binds fields param kwargs h =
      elim (Option-cases (by_either (λ key. get_field key fields) param)) [
        | inl e ↦ rw (e, object_step) (absent_step-Binds param kwargs tt)
        | inr (value, e) ↦
            rw (e, object_step)
              (if_cases (Answers (Progress kwargs param)) param.is_pydantic_model _ _
                (λ p.
                  bind-Answers Anything (Progress kwargs param)
                    (registered_validator libraries pydantic handler param) _
                    (registered_validator-Answers param h)
                    λ v t.
                      bind-Answers Anything (Progress kwargs param)
                        (validate_python_with_pydantic libraries pydantic v.validate_python value) _
                        (validate_python-Answers libraries pydantic v.validate_python value)
                        λ object u. set_arg-Progress param (Argument.object object) kwargs)
                (λ p. set_arg-Progress param (Argument.json value) kwargs))
      ]
