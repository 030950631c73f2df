-- ===== src/Tests/Routes.antt =====
-- A router that is built from two routes, and requests to it.
use fastrapi.Prelude.{◌≡◌, refl, some, [], ◌∷◌}
use fastrapi.Text.{str_eq, codes}
use fastrapi.Text.Laws.{str_key}
use fastrapi.Routing.Types.{HttpMethod}
use fastrapi.Routing.Paths.{normalize_lookup, normalize_register}
use fastrapi.Routing.Frozen.{static, params, new_builder, add_routes, build, resolve, insert_all}
use fastrapi.Routing.Frozen.Resolve.{last_static, param_entries_of, resolve-add_routes}
use fastrapi.Routing.Frozen.Register.{resolve_own_path}
use fastrapi.Tests.Data.{handler_at, list_route, item_route, small_matchit, match_first}

resolve-add_routes_example :
    resolve small_matchit
      (build small_matchit (add_routes (list_route ∷ item_route ∷ []) new_builder))
      HttpMethod.get
      (codes "/items/42")
    ≡ some (params (handler_at 2) (record { key = codes "id"; start = 7; width = 2 } ∷ []))
unfolding last_static param_entries_of normalize_lookup normalize_register str_eq insert_all
    match_first
resolve-add_routes_example =
    resolve-add_routes small_matchit (list_route ∷ item_route ∷ []) HttpMethod.get
      (codes "/items/42")

resolve_own_path_example :
    resolve small_matchit
      (build small_matchit (add_routes (item_route ∷ list_route ∷ []) new_builder))
      HttpMethod.get
      (codes "/items/")
    ≡ some (static (handler_at 1))
unfolding normalize_lookup normalize_register
resolve_own_path_example = resolve_own_path small_matchit (item_route ∷ []) list_route refl refl
