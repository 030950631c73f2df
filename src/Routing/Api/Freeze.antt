-- ===== src/Routing/Api/Freeze.antt =====
-- About `freeze` and `flatten` of src/ffi/decorators/routing.rs.
use mathlib.Core.Option.{some-injective}
use fastrapi.Prelude.{
  ℕ, ◌+◌, ◌≡◌, refl, sym, ◌∙◌, true, false, some, List, [], ◌∷◌, arith, ==_iff, ◌⊎◌, inl, inr,
  subst,
}
use fastrapi.Text.{Str}
use fastrapi.Python.{err, runtime_error}
use fastrapi.Routing.Types.{RouteEntry}
use fastrapi.Routing.Api.{
  Heap, IncludeOptions, frozen_error, include_router, push_route, mark_frozen, write, freeze,
  flatten,
}
use fastrapi.Routing.Api.Tree.{RouterTree, root, size, ids, routes_of, ws_of, IsTreeOf, freeze_all}
use fastrapi.Routing.Api.Flatten.{flatten_router-tree}

abbrev pub IsIn : ℕ → List ℕ → Type 0
IsIn id [] = ⊥
IsIn id (j ∷ js) = (j ≡ id) ⊎ IsIn id js

mark_frozen_self : (id : ℕ) (heap : Heap) → (mark_frozen id heap id).frozen ≡ true
unfolding mark_frozen
mark_frozen_self id heap = ground (arith, ==_iff id id)

mark_frozen_keeps :
    (id j : ℕ) (heap : Heap) → (heap j).frozen ≡ true → (mark_frozen id heap j).frozen ≡ true
unfolding mark_frozen
mark_frozen_keeps id j heap h = ground (arith, ==_iff id j)

freeze_all_keeps :
    (marked : List ℕ) (j : ℕ) (heap : Heap)
    → (heap j).frozen ≡ true
    → (freeze_all marked heap j).frozen ≡ true
unfolding freeze_all
freeze_all_keeps [] j heap h = h
freeze_all_keeps (id ∷ marked) j heap h =
    freeze_all_keeps marked j (mark_frozen id heap) (mark_frozen_keeps id j heap h)

freeze_all-frozen :
    (marked : List ℕ) (j : ℕ) (heap : Heap)
    → IsIn j marked
    → (freeze_all marked heap j).frozen ≡ true
unfolding freeze_all
freeze_all-frozen [] j heap h = absurd h
freeze_all-frozen (id ∷ marked) j heap (inl e) =
    freeze_all_keeps marked j (mark_frozen id heap)
      (subst (λ k. (mark_frozen id heap k).frozen ≡ true) e (mark_frozen_self id heap))
freeze_all-frozen (id ∷ marked) j heap (inr h) = freeze_all-frozen marked j (mark_frozen id heap) h

-- What freezing leaves, for a router that was not frozen and unfolds to a tree.
abbrev pub frozen_heap : Heap → RouterTree → Heap
frozen_heap heap tree =
    let marked = freeze_all (ids tree) heap in
    mark_frozen (root tree) (
      write (root tree)
        (record (marked (root tree)) { cached_flat = some (routes_of tree [] [], ws_of tree []) })
        marked)

frozen_heap-frozen :
    (heap : Heap) (tree : RouterTree) (id : ℕ)
    → IsIn id (ids tree)
    → (frozen_heap heap tree id).frozen ≡ true
frozen_heap-frozen heap tree id h =
    mark_frozen_keeps (root tree) id _
      (ground (arith, freeze_all-frozen (ids tree) id heap h, ==_iff (root tree) id))

frozen_heap-flat :
    (heap : Heap) (tree : RouterTree)
    → ((frozen_heap heap tree (root tree)).frozen ≡ true)
      × ((frozen_heap heap tree (root tree)).cached_flat
          ≡ some (routes_of tree [] [], ws_of tree []))
unfolding mark_frozen
frozen_heap-flat heap tree = ground (arith, ==_iff (root tree) (root tree))

-- Decorators that are applied after a router was frozen.
unfoldable pub push_routes : List (ℕ × RouteEntry) → Heap → Heap
push_routes [] heap = heap
push_routes ((id, entry) ∷ late) heap = push_routes late (push_route id entry heap)

abbrev SameFlat : Heap → Heap → ℕ → Type 0
SameFlat heap heap' id =
    ((heap' id).frozen ≡ (heap id).frozen) × ((heap' id).cached_flat ≡ (heap id).cached_flat)

push_route-SameFlat :
    (j id : ℕ) (entry : RouteEntry) (heap : Heap) → SameFlat heap (push_route j entry heap) id
unfolding push_route
push_route-SameFlat j id entry heap = ground (arith, ==_iff j id)

push_routes-SameFlat :
    (late : List (ℕ × RouteEntry)) (id : ℕ) (heap : Heap) → SameFlat heap (push_routes late heap) id
unfolding push_routes
push_routes-SameFlat [] id heap = (refl, refl)
push_routes-SameFlat ((j, entry) ∷ late) id heap =
    let (f, c) = push_routes-SameFlat late id (push_route j entry heap) in
    let (g, d) = push_route-SameFlat j id entry heap in (f ∙ g, c ∙ d)

module _ (heap : Heap) (tree : RouterTree) (fuel : ℕ) (h : IsTreeOf heap tree)
    (open_ : (heap (root tree)).frozen ≡ false) where
  pub freeze-tree : freeze (fuel + size tree) (root tree) heap ≡ some (frozen_heap heap tree)
  unfolding freeze
  freeze-tree = rw (open_, flatten_router-tree fuel heap tree h)

  freeze-eq :
      (heap' : Heap)
      → freeze (fuel + size tree) (root tree) heap ≡ some heap'
      → frozen_heap heap tree ≡ heap'
  freeze-eq heap' e = some-injective _ _ (sym freeze-tree ∙ e)

  -- Let a router that is not frozen unfold to a tree, and freeze it. Whatever routes are pushed then, on
  -- whatever routers, `flatten` of this router, with any fuel, answers the routes and the websockets of
  -- that tree, none of the pushed ones, and changes nothing.
  pub flatten-freeze :
      (heap' : Heap)
      → freeze (fuel + size tree) (root tree) heap ≡ some heap'
      → (late : List (ℕ × RouteEntry)) (k : ℕ)
      → flatten k (root tree) (push_routes late heap')
        ≡ some (push_routes late heap', routes_of tree [] [], ws_of tree [])
  unfolding flatten
  flatten-freeze heap' e late k =
      let (f, c) = push_routes-SameFlat late (root tree) heap' in
      let (g, d) =
        subst
          (λ x.
            ((x (root tree)).frozen ≡ true)
            × ((x (root tree)).cached_flat ≡ some (routes_of tree [] [], ws_of tree [])))
          (freeze-eq heap' e) (frozen_heap-flat heap tree) in
      rw (f, g, c, d)

  -- Let a router that is not frozen unfold to a tree, and freeze it. Then `include_router` on any router
  -- of the tree raises the error and mounts nothing.
  pub include_router-freeze :
      (heap' : Heap)
      → freeze (fuel + size tree) (root tree) heap ≡ some heap'
      → (id : ℕ) → IsIn id (ids tree)
      → (router : ℕ) (prefix : Str) (options : IncludeOptions)
      → include_router id router prefix options heap' ≡ err (runtime_error frozen_error)
  unfolding include_router
  include_router-freeze heap' e id i router prefix options =
      rw (subst (λ x. (x id).frozen ≡ true) (freeze-eq heap' e) (frozen_heap-frozen heap tree id i))
