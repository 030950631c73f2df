-- ===== src/Routing/Api/Tree.antt =====
-- The tree that a router unfolds to, and what flattening it should give: the routes of a router in
-- their order, then those of its mounts, the last mount first.
use fastrapi.Prelude.{ℕ, suc, ◌+◌, ◌≡◌, List, [], ◌∷◌, ◌++◌, map}
use fastrapi.Text.{Str}
use fastrapi.Routing.Types.{RouteEntry, WebSocketEntry}
use fastrapi.Routing.Paths.{join_path}
use fastrapi.Routing.Api.{
  SubRouterMount, PyApiRouter, Heap, merge_tags, flat_entry, flat_ws, mark_frozen,
}

-- What flattening reads of a router.
pub record Content : Type 0 where
  pub prefix : Str
  pub tags : List Str
  pub route_entries : List RouteEntry
  pub websocket_entries : List WebSocketEntry
  pub sub_routers : List SubRouterMount

abbrev pub content : PyApiRouter → Content
content router = record {
  prefix = router.prefix;
  tags = router.tags;
  route_entries = router.route_entries;
  websocket_entries = router.websocket_entries;
  sub_routers = router.sub_routers;
}

mutual
  pub data RouterTree : Type 0 where
    node : ℕ → Content → Forest → RouterTree

  pub data Forest : Type 0 where
    leaf : Forest
    branch : SubRouterMount → RouterTree → Forest → Forest

abbrev pub root : RouterTree → ℕ
root (node id router subs) = id

unfoldable mutual
  pub size : RouterTree → ℕ
  size (node id router subs) = suc (size_forest subs)

  pub size_forest : Forest → ℕ
  size_forest leaf = 0
  size_forest (branch sub tree rest) = size_forest rest + size tree

-- The routers of the tree, in the order of the visits.
unfoldable mutual
  pub ids : RouterTree → List ℕ
  ids (node id router subs) = id ∷ ids_forest subs

  pub ids_forest : Forest → List ℕ
  ids_forest leaf = []
  ids_forest (branch sub tree rest) = ids_forest rest ++ ids tree

unfoldable mutual
  pub routes_of : RouterTree → Str → List Str → List RouteEntry
  routes_of (node id router subs) prefix tags =
      map (flat_entry (join_path prefix router.prefix) (merge_tags tags router.tags))
        router.route_entries
      ++ routes_of_forest subs (join_path prefix router.prefix) (merge_tags tags router.tags)

  pub routes_of_forest : Forest → Str → List Str → List RouteEntry
  routes_of_forest leaf full_prefix tags = []
  routes_of_forest (branch sub tree rest) full_prefix tags =
      routes_of_forest rest full_prefix tags
      ++ routes_of tree (join_path full_prefix sub.prefix) (merge_tags tags sub.tags)

unfoldable mutual
  pub ws_of : RouterTree → Str → List WebSocketEntry
  ws_of (node id router subs) prefix =
      map (flat_ws (join_path prefix router.prefix)) router.websocket_entries
      ++ ws_of_forest subs (join_path prefix router.prefix)

  pub ws_of_forest : Forest → Str → List WebSocketEntry
  ws_of_forest leaf full_prefix = []
  ws_of_forest (branch sub tree rest) full_prefix =
      ws_of_forest rest full_prefix ++ ws_of tree (join_path full_prefix sub.prefix)

-- The tree is what the heap unfolds to at its root.
mutual
  pub data IsTreeOf (heap : Heap) : RouterTree → Type 0 where
    unfolds :
        {id : ℕ} {router : Content} {subs : Forest}
        → content (heap id) ≡ router
        → AreMounts heap router.sub_routers subs
        → IsTreeOf heap (node id router subs)

  pub data AreMounts (heap : Heap) : List SubRouterMount → Forest → Type 0 where
    none_left : AreMounts heap [] leaf
    mount :
        {sub : SubRouterMount} {subs : List SubRouterMount} {tree : RouterTree} {rest : Forest}
        → root tree ≡ sub.router
        → IsTreeOf heap tree
        → AreMounts heap subs rest
        → AreMounts heap (sub ∷ subs) (branch sub tree rest)

-- Mark routers as frozen, in the order of the list.
unfoldable pub freeze_all : List ℕ → Heap → Heap
unfolding mark_frozen
freeze_all [] heap = heap
freeze_all (id ∷ rest) heap = freeze_all rest (mark_frozen id heap)
