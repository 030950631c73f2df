-- ===== src/Tests/Routers.antt =====
-- Routers that are flattened, frozen and mounted in a circle.
use fastrapi.Prelude.{
  ◌≡◌, ◌≢◌, ◌+◌, refl, ℕ, ◌==◌, if◌then◌else◌, inl, inr, none, some, [], ◌∷◌, arith, Bool-cases,
}
use fastrapi.Text.{str_eq, codes}
use fastrapi.Routing.Paths.{join_path}
use fastrapi.Routing.Api.{flatten_router, flatten, flat_entry, merge_tags}
use fastrapi.Routing.Api.Tree.{
  RouterTree, node, leaf, branch, size, ids, routes_of, ws_of, IsTreeOf, unfolds, none_left, mount,
  content, freeze_all,
}
use fastrapi.Routing.Api.Flatten.{flatten_router-tree}
use fastrapi.Routing.Api.Freeze.{push_routes, frozen_heap, freeze-tree, flatten-freeze}
use fastrapi.Routing.Api.Cycle.{flatten_router_cycle}
use fastrapi.Routing.Api.Acyclic.{IsAcyclic, flatten_router-IsAcyclic}
use fastrapi.Tests.Data.{two_routers, self_mounted, mount_of, list_route, item_route}

abbrev two_tree : RouterTree
two_tree =
    node 0 (content (two_routers 0))
      (branch (mount_of 1 (codes "/v1")) (node 1 (content (two_routers 1)) leaf) leaf)

two_tree-IsTreeOf : IsTreeOf two_routers two_tree
two_tree-IsTreeOf = unfolds refl (mount refl (unfolds refl none_left) none_left)

flatten_router-tree_example :
    flatten_router 5 0 two_routers
    ≡ some (
      freeze_all (0 ∷ 1 ∷ []) two_routers,
      record list_route { path = codes "/api/v1/items/"; tags = codes "api" ∷ [] } ∷ [],
      [],
    )
unfolding size ids routes_of ws_of flat_entry join_path merge_tags str_eq
flatten_router-tree_example = flatten_router-tree 3 two_routers two_tree two_tree-IsTreeOf

flatten_router_cycle_example : flatten_router 1000 0 self_mounted ≡ none
flatten_router_cycle_example =
    flatten_router_cycle (λ id. id ≡ 0) 1000 0 self_mounted (λ id e. inl refl) refl

abbrev two_rank : ℕ → ℕ
two_rank id = if id == 0 then 1 else 0

two_routers-IsAcyclic : IsAcyclic two_routers two_rank
two_routers-IsAcyclic id = elim (Bool-cases (id == 0)) [
  | inl e ↦ rw e (omega arith, tt)
  | inr e ↦ elim (Bool-cases (id == 1)) [ inl f ↦ rw (e, f) tt | inr f ↦ rw (e, f) tt ]
]

flatten_router-IsAcyclic_example :
    (rounds : ℕ) × ((fuel : ℕ) → flatten_router (fuel + rounds) 0 two_routers ≢ none)
flatten_router-IsAcyclic_example =
    flatten_router-IsAcyclic two_routers two_rank two_routers-IsAcyclic 0

flatten-freeze_example :
    flatten 0 0 (push_routes ((0, item_route) ∷ []) (frozen_heap two_routers two_tree))
    ≡ some (
      push_routes ((0, item_route) ∷ []) (frozen_heap two_routers two_tree),
      record list_route { path = codes "/api/v1/items/"; tags = codes "api" ∷ [] } ∷ [],
      [],
    )
unfolding size routes_of ws_of flat_entry join_path merge_tags str_eq
flatten-freeze_example =
    flatten-freeze two_routers two_tree 3 two_tree-IsTreeOf refl (frozen_heap two_routers two_tree)
      (freeze-tree two_routers two_tree 3 two_tree-IsTreeOf refl) ((0, item_route) ∷ []) 0
