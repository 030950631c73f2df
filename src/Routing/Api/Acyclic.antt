-- ===== src/Routing/Api/Acyclic.antt =====
-- About `flatten_router` on routers whose mounts are of smaller rank.
use fastrapi.Prelude.{
  ℕ, zero, suc, ◌+◌, ◌<◌, ◌≡◌, ◌≢◌, refl, sym, ◌∙◌, subst, some, none, List, [], ◌∷◌, arith,
}
use fastrapi.Routing.Api.{SubRouterMount, Heap, Flat, flatten_router}
use fastrapi.Routing.Api.Flatten.{flatten_router-tree}
use fastrapi.Routing.Api.Tree.{
  content, RouterTree, Forest, node, leaf, branch, root, size, IsTreeOf, AreMounts, unfolds,
  none_left, mount,
}

-- Each mount has a smaller rank than the router that it is mounted on.
abbrev pub RankBelow : (ℕ → ℕ) → ℕ → List SubRouterMount → Type 0
RankBelow rank n [] = Unit
RankBelow rank n (sub ∷ subs) = (rank sub.router < n) × RankBelow rank n subs

abbrev pub IsAcyclic : Heap → (ℕ → ℕ) → Type 0
IsAcyclic heap rank = (id : ℕ) → RankBelow rank (rank id) (heap id).sub_routers

abbrev TreeAt : Heap → ℕ → Type 0
TreeAt heap id = (tree : RouterTree) × (root tree ≡ id) × IsTreeOf heap tree

mounts_of :
    {heap : Heap} (rank : ℕ → ℕ) (n : ℕ) (subs : List SubRouterMount)
    → RankBelow rank n subs
    → ((id : ℕ) → rank id < n → TreeAt heap id)
    → (rest : Forest) × AreMounts heap subs rest
mounts_of rank n [] h trees = (leaf, none_left)
mounts_of rank n (sub ∷ subs) h trees =
    let (tree, at, t) = trees sub.router h.0 in
    let (rest, m) = mounts_of rank n subs h.1 trees in (branch sub tree rest, mount at t m)

tree_below :
    {heap : Heap} (rank : ℕ → ℕ) (bound : ℕ)
    → IsAcyclic heap rank
    → (id : ℕ) → rank id < bound
    → TreeAt heap id
tree_below rank zero h id lt = elim lt [ ]
tree_below {heap} rank (suc bound) h id lt =
    let (subs, m) =
      mounts_of {heap = heap} rank (rank id) (heap id).sub_routers (h id)
        (λ j below. tree_below rank bound h j (omega arith)) in
    (node id (content (heap id)) subs, refl, unfolds refl m)

flat_ne_none : (flat : Flat) → some flat ≡ none → ⊥
flat_ne_none flat e = ground arith

-- If mounts can be ranked, every router unfolds to a finite tree.
pub tree_of_IsAcyclic :
    {heap : Heap} (rank : ℕ → ℕ) → IsAcyclic heap rank → (id : ℕ) → TreeAt heap id
tree_of_IsAcyclic rank h id = tree_below rank (suc (rank id)) h id (omega arith)

-- If the mounts of a heap of routers can be ranked, so that each mounted router ranks below the one
-- that mounts it, `flatten_router` ends from every router: some number of rounds is enough, and so is
-- every larger one.
pub flatten_router-IsAcyclic :
    (heap : Heap) (rank : ℕ → ℕ)
    → IsAcyclic heap rank
    → (id : ℕ) → (rounds : ℕ) × ((fuel : ℕ) → flatten_router (fuel + rounds) id heap ≢ none)
flatten_router-IsAcyclic heap rank h id =
    let (tree, at, t) = tree_of_IsAcyclic rank h id in
    (
      size tree,
      λ fuel.
          subst (λ i. flatten_router (fuel + size tree) i heap ≢ none) at
            (λ e. flat_ne_none _ (sym (flatten_router-tree fuel heap tree t) ∙ e)),
    )
