-- ===== src/Server/Dispatch/Steps.antt =====
-- About `dispatch` and `dispatch_path` of src/engine/server/dispatch.rs.
use fastrapi.Prelude.{
  ◌≡◌, ◌≢◌, append_assoc, ◌↔◌, ◌⊎◌, inl, inr, refl, sym, ap, ℕ, true, false, Bool-cases, some,
  Option-cases, [], ◌∷◌, ◌++◌, is_empty, arith,
}
use fastrapi.Text.{Str, str_eq, codes, len, strip_prefix, starts_with_char, trim_end_matches}
use fastrapi.Text.Laws.{str_eq_iff}
use fastrapi.Http.{of_status}
use fastrapi.Routing.Types.{RouteHandler}
use fastrapi.Routing.Frozen.{PathMatch, Matchit, RouteMatch, FrozenRouter, params}
use fastrapi.Server.RateLimit.{Limits}
use fastrapi.Server.Dispatch.{
  method_from, dispatch_path, DispatchRequest, respond, param_ranges, start_handler, find_route,
  dispatch, request_matches_router, path_params_of,
}
use fastrapi.Server.Dispatch.Slices.{path_params_of-param_ranges}

strip_prefix-append : (t q : Str) → strip_prefix (t ++ q) t ≡ some q
unfolding strip_prefix
strip_prefix-append [] q = ground arith
strip_prefix-append (c ∷ t) q = ground (arith, strip_prefix-append t q)

strip_prefix-some : (p t q : Str) → strip_prefix p t ≡ some q → p ≡ t ++ q
unfolding strip_prefix
strip_prefix-some p [] q e = ground arith
strip_prefix-some [] (d ∷ t) q e = ground arith
strip_prefix-some (c ∷ p) (d ∷ t) q e = ground (arith, strip_prefix-some p t q)

longer_neq : (t q : Str) (x : ℕ) → starts_with_char q x ≡ true → str_eq (t ++ q) t ≡ false
unfolding str_eq starts_with_char
longer_neq [] [] x h = ground arith
longer_neq [] (c ∷ q) x h = refl
longer_neq (c ∷ t) q x h = ground (arith, longer_neq t q x h)

starts-nil : (x : ℕ) → starts_with_char [] x ≡ false
unfolding starts_with_char
starts-nil x = refl

-- Under a root path that is more than slashes, `dispatch_path` gives q exactly where the path is the
-- root, without its trailing slashes, and q is "/", or where the path is the root followed by q, and q
-- begins with a slash.
pub dispatch_path_iff :
    (root_path p q : Str)
    → is_empty (trim_end_matches root_path b'/') ≡ false
    → (dispatch_path root_path p ≡ some q) ↔ (
        (p ≡ trim_end_matches root_path b'/') × (q ≡ codes "/")
        ⊎ (p ≡ trim_end_matches root_path b'/' ++ q) × (starts_with_char q b'/' ≡ true))
unfolding dispatch_path
dispatch_path_iff root_path p q h = (there, back)
  where
    there :
        dispatch_path root_path p ≡ some q
        → (p ≡ trim_end_matches root_path b'/') × (q ≡ codes "/")
          ⊎ (p ≡ trim_end_matches root_path b'/' ++ q) × (starts_with_char q b'/' ≡ true)
    there e = elim (Bool-cases (str_eq p (trim_end_matches root_path b'/'))) [
      | inl same ↦ inl ((str_eq_iff p (trim_end_matches root_path b'/')).0 same, ground arith)
      | inr other ↦ elim (Option-cases (strip_prefix p (trim_end_matches root_path b'/'))) [
        | inl differs ↦ ground arith
        | inr (s, stripped) ↦
            ground (arith, strip_prefix-some p (trim_end_matches root_path b'/') s stripped)
      ]
    ]

    back :
        (p ≡ trim_end_matches root_path b'/') × (q ≡ codes "/")
          ⊎ (p ≡ trim_end_matches root_path b'/' ++ q) × (starts_with_char q b'/' ≡ true)
        → dispatch_path root_path p ≡ some q
    back (inl (a, b)) = ground (arith, str_eq_iff p (trim_end_matches root_path b'/'))
    back (inr (a, b)) = ground (
      arith,
      longer_neq (trim_end_matches root_path b'/') q b'/' b,
      strip_prefix-append (trim_end_matches root_path b'/') q,
    )

-- Under a root path without a slash at its end, that begins with a slash and a text w, a request for
-- the route "/{key}" below it, whose value v is as long as w, is stripped of the root path; but its
-- handler receives the w of the root path in place of v.
pub path_params_of-under_root :
    (key w y v : Str) (handler : RouteHandler)
    → let root_path = b'/' ∷ w ++ y in
      let full_path = root_path ++ b'/' ∷ v in
      let found : PathMatch = record { key = key; start = 1; width = len v } in
      trim_end_matches root_path b'/' ≡ root_path
      → len w ≡ len v
      → (dispatch_path root_path full_path ≡ some (b'/' ∷ v))
        × (path_params_of full_path (param_ranges (params handler (found ∷ [])))
            ≡ some ((key, w) ∷ []))
unfolding starts_with_char len
path_params_of-under_root key w y v handler t e = (
  (dispatch_path_iff (b'/' ∷ w ++ y) (b'/' ∷ w ++ y ++ b'/' ∷ v) (b'/' ∷ v) (rw t refl)).1
      (inr (rw t refl, refl)),
  path_params_of-param_ranges (b'/' ∷ w ++ y ++ b'/' ∷ v) handler _ ((key, w) ∷ []) (
    record {
      before = b'/' ∷ [];
      after = y ++ b'/' ∷ v;
      path_eq = ap (λ s. b'/' ∷ s) (append_assoc w y (b'/' ∷ v));
      start_eq = refl;
      width_eq = sym e;
    },
    refl,
    tt,
  ),
)

module _ (M : Matchit RouteHandler) (router : FrozenRouter M.Router) (root_path : Str) where
  start_handler-not_404 : (found : RouteMatch) → start_handler found ≢ respond (of_status 404)
  unfolding start_handler
  start_handler-not_404 found e = ground arith

  -- `request_matches_router` refuses a request exactly where `dispatch` itself, before any handler
  -- runs, answers it with 404.
  pub request_matches_router-dispatch :
      (limits : Limits) (now : ℕ) (req : DispatchRequest)
      → (request_matches_router M router root_path req ≡ false)
        ↔ ((dispatch M router root_path limits now req).0 ≡ respond (of_status 404))
  unfolding request_matches_router dispatch
  request_matches_router-dispatch limits now req = elim (Option-cases (method_from req.method)) [
    | inl e ↦ rw (e, request_matches_router, dispatch) (λ h. ground arith, λ h. ground arith)
    | inr (m, e) ↦
        rw (e, request_matches_router, dispatch)
          (elim (Option-cases (find_route M router root_path m req.path)) [
            | inl f ↦ rw f (λ h. refl, λ h. refl)
            | inr (found, f) ↦
                rw f (λ h. ground arith, λ h. ground (arith, start_handler-not_404 found))
          ])
  ]
