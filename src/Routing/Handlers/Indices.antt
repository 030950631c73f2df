-- ===== src/Routing/Handlers/Indices.antt =====
-- Which parameters src/ffi/decorators/init.rs and src/ffi/pydantic.rs leave to the body.
use fastrapi.Prelude.{ℕ, suc, Bool, ◌||◌, List, [], ◌∷◌, if◌then◌else◌}
use fastrapi.Text.{Str}
use fastrapi.Routing.Types.{ParsedParameter}
use fastrapi.Routing.Params.{is_in}
use fastrapi.Server.Payload.{is_body}

-- Whether a parameter is left to the body, with the names of the body's parameters.
abbrev pub is_of_body : List Str → ParsedParameter → Bool
is_of_body names param = is_body param.source || is_in param.name names

-- The indices of the parameters that pass a test, counted from the first.
abbrev pub indices_from : (ParsedParameter → Bool) → ℕ → List ParsedParameter → List ℕ
indices_from test i [] = []
indices_from test i (param ∷ params) =
    let rest = indices_from test (suc i) params in if test param then i ∷ rest else rest
