-- ===== src/Routing/Api/Flatten.antt =====
-- About `flatten_router` of src/ffi/decorators/routing.rs on a tree of routers.
use fastrapi.Prelude.{
  ℕ, suc, ◌+◌, ◌≡◌, refl, ◌∙◌, some, List, [], ◌∷◌, ◌++◌, map, arith, append_assoc, append-nil,
  ==_iff,
}
use fastrapi.Text.{Str}
use fastrapi.Routing.Types.{RouteEntry, WebSocketEntry}
use fastrapi.Routing.Paths.{join_path}
use fastrapi.Routing.Api.{
  SubRouterMount, Heap, Frame, merge_tags, flat_entry, flat_ws, mark_frozen, push_all, flatten_loop,
  flatten_router,
}
use fastrapi.Routing.Api.Tree.{
  Content, content, RouterTree, Forest, node, leaf, branch, root, size, size_forest, ids,
  ids_forest, routes_of, routes_of_forest, ws_of, ws_of_forest, IsTreeOf, AreMounts, unfolds,
  none_left, mount, freeze_all,
}

pub content-mark_frozen :
    (id j : ℕ) (heap : Heap) → content (mark_frozen id heap j) ≡ content (heap j)
unfolding mark_frozen
content-mark_frozen id j heap = ground (arith, ==_iff id j)

-- Freezing changes no tree.
mutual
  IsTreeOf-mark_frozen :
      {heap : Heap} {tree : RouterTree} (id : ℕ)
      → IsTreeOf heap tree
      → IsTreeOf (mark_frozen id heap) tree
  IsTreeOf-mark_frozen {heap} id (unfolds {id = j} same mounts) =
      unfolds (content-mark_frozen id j heap ∙ same) (AreMounts-mark_frozen id mounts)

  AreMounts-mark_frozen :
      {heap : Heap} {subs : List SubRouterMount} {rest : Forest} (id : ℕ)
      → AreMounts heap subs rest
      → AreMounts (mark_frozen id heap) subs rest
  AreMounts-mark_frozen id none_left = none_left
  AreMounts-mark_frozen id (mount at tree rest) =
      mount at (IsTreeOf-mark_frozen id tree) (AreMounts-mark_frozen id rest)

pub IsTreeOf-freeze_all :
    {tree : RouterTree} (marked : List ℕ) (heap : Heap)
    → IsTreeOf heap tree
    → IsTreeOf (freeze_all marked heap) tree
unfolding freeze_all
IsTreeOf-freeze_all [] heap h = h
IsTreeOf-freeze_all (id ∷ marked) heap h =
    IsTreeOf-freeze_all marked (mark_frozen id heap) (IsTreeOf-mark_frozen id h)

pub freeze_all-append :
    (xs ys : List ℕ) (heap : Heap) → freeze_all (xs ++ ys) heap ≡ freeze_all ys (freeze_all xs heap)
unfolding freeze_all
freeze_all-append [] ys heap = refl
freeze_all-append (id ∷ xs) ys heap = freeze_all-append xs ys (mark_frozen id heap)

-- The loop visits a tree on top of its stack, and goes on with what lies under it.
abbrev Visits : Heap → RouterTree → Type 0
Visits heap tree =
    (fuel : ℕ) (prefix : Str) (tags : List Str) (stack : List Frame) (routes : List RouteEntry)
    (ws : List WebSocketEntry)
    → flatten_loop (fuel + size tree) heap ((root tree, prefix, tags) ∷ stack) routes ws
      ≡ flatten_loop fuel (freeze_all (ids tree) heap) stack (routes ++ routes_of tree prefix tags)
          (ws ++ ws_of tree prefix)

abbrev VisitsAll : Heap → List SubRouterMount → Forest → Type 0
VisitsAll heap subs forest =
    (fuel : ℕ) (prefix : Str) (tags : List Str) (stack : List Frame) (routes : List RouteEntry)
    (ws : List WebSocketEntry)
    → flatten_loop (fuel + size_forest forest) heap (push_all prefix tags subs stack) routes ws
      ≡ flatten_loop fuel (freeze_all (ids_forest forest) heap) stack
          (routes ++ routes_of_forest forest prefix tags) (ws ++ ws_of_forest forest prefix)

loop_step :
    (heap : Heap) (id : ℕ) {router : Content} (fuel : ℕ) (prefix : Str) (tags : List Str)
    (stack : List Frame) (routes : List RouteEntry) (ws : List WebSocketEntry)
    → content (heap id) ≡ router
    → flatten_loop (suc fuel) heap ((id, prefix, tags) ∷ stack) routes ws
      ≡ flatten_loop fuel
          (mark_frozen id heap)
          (push_all
            (join_path prefix router.prefix)
            (merge_tags tags router.tags)
            router.sub_routers
            stack)
          (routes
            ++ map
                (flat_entry (join_path prefix router.prefix) (merge_tags tags router.tags))
                router.route_entries)
          (ws ++ map (flat_ws (join_path prefix router.prefix)) router.websocket_entries)
unfolding flatten_loop
loop_step heap id fuel prefix tags stack routes ws same = rw (← same)

add_suc : (a b : ℕ) → a + suc b ≡ suc (a + b)
add_suc a b = omega arith

add_zero : (a : ℕ) → a + 0 ≡ a
add_zero a = omega arith

regroup : (a b c : ℕ) → a + (b + c) ≡ a + c + b
regroup a b c = omega arith

mutual
  unfolding push_all size ids routes_of ws_of freeze_all

  visit : {heap : Heap} (tree : RouterTree) → IsTreeOf heap tree → Visits heap tree
  visit {heap} (node id router subs) (unfolds same mounts) fuel prefix tags stack routes ws =
      rw (add_suc fuel (size_forest subs)) (
        loop_step heap id (fuel + size_forest subs) prefix tags stack routes ws same
        ∙ visit_all subs (AreMounts-mark_frozen id mounts) fuel _ _ stack _ _
        ∙ simp append_assoc)

  visit_all :
      {heap : Heap} {subs : List SubRouterMount} (forest : Forest)
      → AreMounts heap subs forest
      → VisitsAll heap subs forest
  visit_all leaf none_left fuel prefix tags stack routes ws = simp (append-nil, add_zero)
  visit_all {heap} (branch sub tree rest) (mount at t m) fuel prefix tags stack routes ws =
      rw (regroup fuel (size_forest rest) (size tree), ← at)
        (visit_all rest m (fuel + size tree) prefix tags _ routes ws
          ∙ visit tree (IsTreeOf-freeze_all (ids_forest rest) heap t) fuel _ _ stack _ _
          ∙ simp (append_assoc, freeze_all-append))

-- If the heap unfolds at a router to a finite tree, `flatten_router` ends: with fuel for one round
-- for each router of the tree, and with any larger fuel, it gives the routes and the websockets of
-- the tree, and has marked every router of the tree as frozen and changed nothing else.
pub flatten_router-tree :
    (fuel : ℕ) (heap : Heap) (tree : RouterTree)
    → IsTreeOf heap tree
    → flatten_router (fuel + size tree) (root tree) heap
      ≡ some (freeze_all (ids tree) heap, routes_of tree [] [], ws_of tree [])
unfolding flatten_router
flatten_router-tree fuel heap tree h = visit tree h fuel [] [] [] [] []
