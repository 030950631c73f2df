-- ===== src/Request/Bind/Required.antt =====
-- What `apply_body_and_validation` of src/ffi/pydantic.rs binds.
use fastrapi.Prelude.{
  ℕ, ◌≡◌, refl, subst, Bool, true, false, Option, none, some, List, [], ◌∷◌, if◌then◌else◌,
  is_empty, get_elem?, All, Option-cases, inl, inr,
}
use fastrapi.Text.{codes}
use fastrapi.Text.Laws.{str_key}
use fastrapi.Routing.Json.{Json, obj}
use fastrapi.Routing.Types.{ParsedParameter, RouteHandler}
use fastrapi.Routing.Dependencies.Execute.{Argument, Kwargs, Executed, done, ◌>>=◌}
use fastrapi.Request.Resolve.{Libraries}
use fastrapi.Server.Payload.{Bytes, BodyPayload}
use fastrapi.Request.Bind.{
  Pydantic, in_bounds, refuse, param_at, any_required, for_params, registered_validator,
  default_step, form_step, object_step, bind_json, json_value, bind_single, bind_payload,
  apply_body_and_validation, validate_json_with_pydantic,
}
use fastrapi.Request.Bind.Answered.{
  Answers, Anything, Here, refuse-Answers, weaken-Answers, bind-Answers, parsed-Answers,
  validate_json-Answers,
}
use fastrapi.Request.Bind.Steps.{
  Grows, IsBound, Progress, IsBound-Grows, set_arg-Progress, IsRegistered, Binds, if_cases,
  default_step-Binds, form_step-Binds, object_step-Binds, registered_validator-Answers,
}

here : {A : Type 0} (P : A → Type 0) (o : Option A) → Here P o → Here (λ (a : A). Unit {0}) o
here P none h = h
here P (some a) h = tt

-- A fact that is known where a test fails.
abbrev Unless : Bool → Type 0 → Type 0
Unless true T = Unit
Unless false T = T

Unless-map : {S T : Type 0} (b : Bool) → (S → T) → Unless b S → Unless b T
Unless-map true f s = tt
Unless-map false f s = f s

module _ (libraries : Libraries) (pydantic : Pydantic) (handler : RouteHandler) where
  abbrev pub At : (ParsedParameter → Type 0) → ℕ → Type 0
  At P index = Here P (get_elem? handler.parsed_params index)

  -- One round of a loop, on the parameter at an index, and what comes after it.
  round-Answers :
      (R : ParsedParameter → Type 0) (step : ParsedParameter → Kwargs → Executed Kwargs)
      → Binds libraries pydantic handler R step
      → (o : Option ParsedParameter) (kwargs : Kwargs) (after : Kwargs → Executed Kwargs)
        (Q : Kwargs → Type 0)
      → Here R o
      → ((m : Kwargs) → Answers (λ bound. Grows m bound × Q bound) (after m))
      → Answers
          (λ bound. Grows kwargs bound × (Here (λ p. IsBound p bound) o × Q bound))
          (in_bounds o >>= λ param. step param kwargs >>= after)
  round-Answers R step binds none kwargs after Q h k = h
  round-Answers R step binds (some param) kwargs after Q h k =
      bind-Answers (Progress kwargs param)
        (λ bound. Grows kwargs bound × (IsBound param bound × Q bound)) (step param kwargs) after
        (binds param kwargs h)
        λ m progress.
          weaken-Answers (λ bound. Grows m bound × Q bound)
            (λ bound. Grows kwargs bound × (IsBound param bound × Q bound)) (after m) (k m)
            λ bound q. (
              λ name x. q.0 name (progress.0 name x),
              (IsBound-Grows param m bound q.0 progress.1, q.1),
            )

  -- A loop whose step binds, over indices that are in range.
  for_params-Answers :
      (R : ParsedParameter → Type 0) (step : ParsedParameter → Kwargs → Executed Kwargs)
      → Binds libraries pydantic handler R step
      → (indices : List ℕ) (kwargs : Kwargs) → All (At R) indices
      → Answers
          (λ bound. Grows kwargs bound × All (At λ p. IsBound p bound) indices)
          (for_params step handler indices kwargs)
  unfolding for_params
  for_params-Answers R step binds [] kwargs h = (λ name x. x, tt)
  for_params-Answers R step binds (index ∷ indices) kwargs (h, hs) =
      round-Answers R step binds (get_elem? handler.parsed_params index) kwargs
        (for_params step handler indices) (λ bound. All (At λ p. IsBound p bound) indices) h
        λ m. for_params-Answers R step binds indices m hs

  anywhere :
      (P : ParsedParameter → Type 0) (indices : List ℕ)
      → All (At P) indices
      → All (At λ p. Unit) indices
  anywhere P [] h = tt
  anywhere P (index ∷ indices) (h, hs) =
      (here P (get_elem? handler.parsed_params index) h, anywhere P indices hs)

  abbrev Optional : List ℕ → Type 0
  Optional indices = All (At λ p. p.required ≡ false) indices

  any_required-Answers :
      (indices : List ℕ)
      → All (At (IsRegistered handler)) indices
      → Answers (λ b. Unless b (Optional indices)) (any_required handler indices)
  unfolding any_required
  any_required-Answers [] h = tt
  any_required-Answers (index ∷ indices) (h, hs) =
      elim (Option-cases (get_elem? handler.parsed_params index)) [
        | inl e ↦ absurd (rw e at h)
        | inr (param, e) ↦ rw e (
            let P = λ (b : Bool). Unless b ((param.required ≡ false) × Optional indices) in
            if_cases (Answers P) param.required (done true) (any_required handler indices) (λ r. tt)
              (λ r.
                weaken-Answers (λ b. Unless b (Optional indices)) P (any_required handler indices)
                  (any_required-Answers indices hs) λ b t. Unless-map b (λ rest. (r, rest)) t))
      ]

  -- The parameters of the body are bound.
  abbrev pub BodyIsBound : Kwargs → List ℕ → Kwargs → Type 0
  BodyIsBound kwargs indices bound = Grows kwargs bound × All (At λ p. IsBound p bound) indices

  single_option-Answers :
      (R : ParsedParameter → Type 0) (kwargs : Kwargs) (k : ParsedParameter → Executed Kwargs)
      (o : Option ParsedParameter)
      → Here R o
      → ((param : ParsedParameter)
          → o ≡ some param
          → R param
          → Answers (Progress kwargs param) (k param))
      → Answers
          (λ bound. Grows kwargs bound × (Here (λ p. IsBound p bound) o × Unit {0}))
          (in_bounds o >>= k)
  single_option-Answers R kwargs k none h f = h
  single_option-Answers R kwargs k (some param) h f =
      weaken-Answers (Progress kwargs param)
        (λ bound. Grows kwargs bound × (IsBound param bound × Unit {0})) (k param) (f param refl h)
        λ bound q. (q.0, (q.1, tt))

  -- A single parameter.
  single-Answers :
      (index : ℕ) (kwargs : Kwargs) (k : ParsedParameter → Executed Kwargs)
      → At (IsRegistered handler) index
      → ((param : ParsedParameter)
          → get_elem? handler.parsed_params index ≡ some param
          → IsRegistered handler param
          → Answers (Progress kwargs param) (k param))
      → Answers (BodyIsBound kwargs (index ∷ [])) (param_at handler index >>= k)
  single-Answers index kwargs k h f =
      single_option-Answers (IsRegistered handler) kwargs k (get_elem? handler.parsed_params index)
        h f

  bind_json-Answers :
      (indices : List ℕ) (value : Json) (kwargs : Kwargs)
      → All (At (IsRegistered handler)) indices
      → Answers
          (BodyIsBound kwargs indices)
          (bind_json libraries pydantic handler indices value kwargs)
  bind_json-Answers (index ∷ []) value kwargs h =
      single-Answers index kwargs _ h.0
        λ param e r. set_arg-Progress param (Argument.json value) kwargs
  bind_json-Answers indices (obj fields) kwargs h =
      for_params-Answers (IsRegistered handler) (object_step libraries pydantic handler fields)
        (object_step-Binds libraries pydantic handler fields) indices kwargs h
  bind_json-Answers indices _ kwargs h = refuse-Answers (BodyIsBound kwargs indices) _

  json_value-Answers :
      (raw : Bytes) (value : Option Json)
      → Answers Anything (json_value libraries pydantic raw value)
  json_value-Answers raw none = parsed-Answers libraries pydantic raw
  json_value-Answers raw (some value) = tt

  from_value-Answers :
      (indices : List ℕ) (raw : Bytes) (value : Option Json) (kwargs : Kwargs)
      → All (At (IsRegistered handler)) indices
      → Answers (BodyIsBound kwargs indices) (
          json_value libraries pydantic raw value >>= λ j.
          bind_json libraries pydantic handler indices j kwargs)
  from_value-Answers indices raw value kwargs h =
      bind-Answers Anything (BodyIsBound kwargs indices) (json_value libraries pydantic raw value) _
        (json_value-Answers raw value) λ j t. bind_json-Answers indices j kwargs h

  without-Answers :
      (indices : List ℕ) (kwargs : Kwargs)
      → All (At (IsRegistered handler)) indices
      → Answers (BodyIsBound kwargs indices) (
          any_required handler indices >>= λ required.
          if required
          then refuse (codes "Request body is required")
          else for_params (default_step libraries pydantic) handler indices kwargs)
  without-Answers indices kwargs h =
      bind-Answers (λ b. Unless b (Optional indices)) (BodyIsBound kwargs indices)
        (any_required handler indices) _ (any_required-Answers indices h) after
    where
      after :
          (b : Bool)
          → Unless b (Optional indices)
          → Answers (BodyIsBound kwargs indices) (
              if b
              then refuse (codes "Request body is required")
              else for_params (default_step libraries pydantic) handler indices kwargs)
      after true u = refuse-Answers (BodyIsBound kwargs indices) _
      after false u =
          for_params-Answers (λ p. p.required ≡ false) (default_step libraries pydantic)
            (default_step-Binds libraries pydantic handler) indices kwargs u

  bind_payload-Answers :
      (indices : List ℕ) (payload : BodyPayload) (kwargs : Kwargs)
      → All (At (IsRegistered handler)) indices
      → Answers
          (BodyIsBound kwargs indices)
          (bind_payload libraries pydantic handler indices payload kwargs)
  bind_payload-Answers indices (BodyPayload.form form) kwargs h =
      for_params-Answers (λ p. Unit) (form_step libraries pydantic form)
        (form_step-Binds libraries pydantic handler form) indices kwargs
        (anywhere (IsRegistered handler) indices h)
  bind_payload-Answers (index ∷ []) (BodyPayload.json raw value) kwargs h =
      single-Answers index kwargs
        (λ param. bind_single libraries pydantic handler param (index ∷ []) raw value kwargs) h.0
        λ param e r.
          let P = Progress kwargs param in
          if_cases (Answers P) param.is_pydantic_model _ _
            (λ m.
              bind-Answers Anything P (registered_validator libraries pydantic handler param) _
                (registered_validator-Answers libraries pydantic handler param r)
                λ v t.
                  bind-Answers Anything P (validate_json_with_pydantic libraries pydantic v raw) _
                    (validate_json-Answers libraries pydantic v raw)
                    λ object u. set_arg-Progress param (Argument.object object) kwargs)
            (λ m.
              weaken-Answers (BodyIsBound kwargs (index ∷ [])) P _
                (from_value-Answers (index ∷ []) raw value kwargs h)
                λ b q. (q.0, subst (Here λ p. IsBound p b) e q.1.0))
  bind_payload-Answers indices (BodyPayload.json raw value) kwargs h =
      from_value-Answers indices raw value kwargs h

  -- With indices in range, and validators in range, the body is bound or refused.
  pub apply_body-Answers :
      (payload : Option BodyPayload) (kwargs : Kwargs)
      → All (At (IsRegistered handler)) handler.body_param_indices
      → Answers
          (BodyIsBound kwargs handler.body_param_indices)
          (apply_body_and_validation libraries pydantic handler payload kwargs)
  unfolding apply_body_and_validation
  apply_body-Answers payload kwargs h = bind_body handler.body_param_indices payload h
    where
      bind_body :
          (indices : List ℕ) (payload : Option BodyPayload)
          → All (At (IsRegistered handler)) indices
          → Answers (BodyIsBound kwargs indices) (
              if is_empty indices then done kwargs else elim payload [
                | none ↦ any_required handler indices >>= λ required.
                    if required
                    then refuse (codes "Request body is required")
                    else for_params (default_step libraries pydantic) handler indices kwargs
                | some payload ↦ bind_payload libraries pydantic handler indices payload kwargs
              ])
      bind_body [] payload h = (λ name x. x, tt)
      bind_body (index ∷ indices) (some payload) h =
          bind_payload-Answers (index ∷ indices) payload kwargs h
      bind_body (index ∷ indices) none h = without-Answers (index ∷ indices) kwargs h
