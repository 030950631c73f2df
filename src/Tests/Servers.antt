-- ===== src/Tests/Servers.antt =====
-- Requests at a server: the rate limit, the root path, and the files of a frontend.
use fastrapi.Prelude.{
  ◌≡◌, ◌↔◌, ◌⊎◌, refl, ℕ, ◌≤◌, true, false, none, some, List, [], ◌∷◌, All, lookup, insert, arith,
}
use fastrapi.Text.{Str, codes, len, starts_with_char, trim_end_matches}
use fastrapi.Http.{of_status}
use fastrapi.Routing.Frozen.{params, new_builder, add_routes, build}
use fastrapi.Server.RateLimit.{
  RateLimitKey, RateLimitWindow, rate_limit_key, Limits, is_rate_limited,
}
use fastrapi.Server.RateLimit.Window.{admitted, admitted-twice, admitted-fresh}
use fastrapi.Server.RateLimit.Recovery.{RateCall, after, is_rate_limited-after}
use fastrapi.Server.Dispatch.{
  dispatch_path, respond, param_ranges, dispatch, request_matches_router, path_params_of,
}
use fastrapi.Server.Dispatch.Slices.{path_params_of-param_ranges}
use fastrapi.Server.Dispatch.Steps.{
  dispatch_path_iff, path_params_of-under_root, request_matches_router-dispatch,
}
use fastrapi.Server.Files.{FrontendMount, PathBuf, frontend_safe_path, frontend_match}
use fastrapi.Server.Files.Inside.{IsInside, frontend_safe_path-IsInside}
use fastrapi.Server.Files.Longest.{IsOneOf, NoLonger, frontend_match-longest}
use fastrapi.Tests.Data.{handler_at, item_route, small_matchit}

abbrev key_at : ℕ → RateLimitKey
key_at handler = record { handler = handler; ip = some 7 }

nothing_kept : lookup {V = RateLimitWindow} (key_at 1) [] ≡ none
unfolding lookup
nothing_kept = refl

admitted-fresh_example : admitted [] (key_at 1) 2 (5 ∷ 6 ∷ 7 ∷ 8 ∷ []) ≡ 2
admitted-fresh_example =
    admitted-fresh [] (key_at 1) 2 5 (6 ∷ 7 ∷ 8 ∷ []) (omega arith) nothing_kept
      ((omega arith, omega arith), ((omega arith, omega arith), ((omega arith, omega arith), tt)))

abbrev one_window : Limits
one_window = (key_at 1, record { start = 0; count = 1 }) ∷ []

window_kept : lookup (key_at 1) one_window ≡ some (record { start = 0; count = 1 })
unfolding lookup
window_kept = refl

admitted-twice_example : admitted one_window (key_at 1) 2 (999999999 ∷ 1000000001 ∷ []) ≤ 4
admitted-twice_example =
    admitted-twice 999999999 2 one_window (key_at 1) (record { start = 0; count = 1 })
      (999999999 ∷ 1000000001 ∷ []) (omega arith) window_kept (omega arith)
      ((omega arith, omega arith), ((omega arith, omega arith), tt))

-- A client that uses its one request up, and asks again at once.
abbrev busy_calls : List RateCall
busy_calls =
    record { key = key_at 1; now = 5; limit = 1 }
    ∷ record { key = key_at 1; now = 6; limit = 1 }
    ∷ []

still_refused : (is_rate_limited (after [] busy_calls) (key_at 1) 7 1).0 ≡ true
unfolding is_rate_limited after lookup insert
still_refused = refl

is_rate_limited-after_example :
    (is_rate_limited (after [] busy_calls) (key_at 1) 1000000006 1).0 ≡ false
is_rate_limited-after_example =
    is_rate_limited-after 6 1000000006 1 busy_calls (key_at 1) (omega arith)
      (omega arith, (omega arith, tt)) (omega arith)

dispatch_path_iff_example : (dispatch_path (codes "/api/") (codes "/api/x") ≡ some (codes "/x")) ↔ (
    (codes "/api/x" ≡ codes "/api") × (codes "/x" ≡ codes "/")
    ⊎ (codes "/api/x" ≡ codes "/api/x") × (starts_with_char (codes "/x") b'/' ≡ true))
unfolding trim_end_matches
dispatch_path_iff_example = dispatch_path_iff (codes "/api/") (codes "/api/x") (codes "/x") refl

path_params_of-param_ranges_example :
    path_params_of (codes "/items/42") (
      param_ranges (params (handler_at 2) (record { key = codes "id"; start = 7; width = 2 } ∷ [])))
    ≡ some ((codes "id", codes "42") ∷ [])
unfolding len
path_params_of-param_ranges_example =
    path_params_of-param_ranges (codes "/items/42") (handler_at 2)
      (record { key = codes "id"; start = 7; width = 2 } ∷ []) ((codes "id", codes "42") ∷ [])
      (
        record {
          before = codes "/items/";
          after = [];
          path_eq = refl;
          start_eq = refl;
          width_eq = refl;
        },
        refl,
        tt,
      )

path_params_of-under_root_example :
    (dispatch_path (codes "/api") (codes "/api/42") ≡ some (codes "/42"))
    × (path_params_of (codes "/api/42") (
          param_ranges
            (params (handler_at 2) (record { key = codes "id"; start = 1; width = 2 } ∷ [])))
        ≡ some ((codes "id", codes "ap") ∷ []))
unfolding len trim_end_matches
path_params_of-under_root_example =
    path_params_of-under_root (codes "id") (codes "ap") (codes "i") (codes "42") (handler_at 2) refl
      refl

request_matches_router-dispatch_example :
    (request_matches_router small_matchit
        (build small_matchit (add_routes (item_route ∷ []) new_builder))
        []
        (record { method = codes "GET"; path = codes "/none"; ip = none })
      ≡ false)
    ↔ ((dispatch small_matchit
          (build small_matchit (add_routes (item_route ∷ []) new_builder))
          []
          []
          0
          (record { method = codes "GET"; path = codes "/none"; ip = none })).0
        ≡ respond (of_status 404))
request_matches_router-dispatch_example =
    request_matches_router-dispatch small_matchit
      (build small_matchit (add_routes (item_route ∷ []) new_builder)) [] [] 0
      (record { method = codes "GET"; path = codes "/none"; ip = none })

abbrev index_file : PathBuf
index_file = record { directory = codes "dist"; names = codes "a" ∷ codes "index.html" ∷ [] }

frontend_safe_path-IsInside_example : IsInside (codes "dist") index_file
unfolding frontend_safe_path
frontend_safe_path-IsInside_example =
    frontend_safe_path-IsInside (λ s. some s) (codes "dist") (codes "a/") index_file refl

abbrev mount_at : Str → FrontendMount
mount_at path = record { path = path; directory = path; fallback = none; check_dir = true }

abbrev two_mounts : List FrontendMount
two_mounts = mount_at (codes "/") ∷ mount_at (codes "/app") ∷ []

frontend_match-longest_example :
    IsOneOf (codes "/app/x") (mount_at (codes "/app"), codes "x") two_mounts
    × All (NoLonger (codes "/app/x") (mount_at (codes "/app"))) two_mounts
unfolding frontend_match
frontend_match-longest_example =
    frontend_match-longest two_mounts (codes "/app/x") (mount_at (codes "/app"), codes "x") refl
