-- ===== src/Routing/Api/Entries.antt =====
-- About the paths and the tags of flattened routes (src/ffi/decorators/routing.rs).
use fastrapi.Prelude.{
  ◌≡◌, refl, true, false, List, [], ◌∷◌, ◌++◌, map, arith, All, All-append, if◌then◌else◌, ◌⊎◌, inl,
  inr, Bool-cases,
}
use fastrapi.Text.{Str, str_eq, starts_with_char}
use fastrapi.Text.Laws.{str_eq_iff}
use fastrapi.Routing.Types.{RouteEntry}
use fastrapi.Routing.Paths.{join_path}
use fastrapi.Routing.Paths.Join.{join_path_one_slash, without_first_slash, starts-append_slash}
use fastrapi.Routing.Api.{contains_tag, merge_tags, flat_entry}
use fastrapi.Routing.Api.Tree.{RouterTree, Forest, node, leaf, branch, routes_of, routes_of_forest}

-- No tag is there twice.
abbrev pub HasDistinctTags : List Str → Type 0
HasDistinctTags [] = Unit
HasDistinctTags (tag ∷ tags) = (contains_tag tags tag ≡ false) × HasDistinctTags tags

contains_tag-append_one :
    (tags : List Str) (t u : Str)
    → contains_tag (tags ++ t ∷ []) u ≡ (if contains_tag tags u then true else str_eq t u)
unfolding contains_tag
contains_tag-append_one [] t u = ground arith
contains_tag-append_one (tag ∷ tags) t u = ground (arith, contains_tag-append_one tags t u)

str_eq_sym : (s t : Str) → str_eq s t ≡ str_eq t s
str_eq_sym s t = ground (arith, str_eq_iff s t, str_eq_iff t s)

HasDistinctTags-append_one :
    (tags : List Str) (t : Str)
    → HasDistinctTags tags
    → contains_tag tags t ≡ false
    → HasDistinctTags (tags ++ t ∷ [])
unfolding contains_tag
HasDistinctTags-append_one [] t h k = (refl, tt)
HasDistinctTags-append_one (tag ∷ tags) t h k = (
  ground (arith, contains_tag-append_one tags t tag, str_eq_sym tag t, h.0),
  HasDistinctTags-append_one tags t h.1 (ground arith),
)

pub HasDistinctTags-merge_tags :
    (current tags : List Str) → HasDistinctTags current → HasDistinctTags (merge_tags current tags)
unfolding merge_tags
HasDistinctTags-merge_tags current [] h = h
HasDistinctTags-merge_tags current (tag ∷ tags) h = elim (Bool-cases (contains_tag current tag)) [
  | inl e ↦ rw e (HasDistinctTags-merge_tags current tags h)
  | inr e ↦ rw e (HasDistinctTags-merge_tags _ tags (HasDistinctTags-append_one current tag h e))
]

-- Empty, or with a slash in front.
abbrev IsPrefixPath : Str → Type 0
IsPrefixPath s = (s ≡ []) ⊎ (starts_with_char s b'/' ≡ true)

starts-join_path : (a b : Str) → IsPrefixPath a → starts_with_char (join_path a b) b'/' ≡ true
starts-join_path a b h =
    rw (join_path_one_slash a b) (starts-append_slash a (without_first_slash b) h)

abbrev pub IsSound : RouteEntry → Type 0
IsSound entry = (starts_with_char entry.path b'/' ≡ true) × HasDistinctTags entry.tags

All-flat_entry :
    (full : Str) (tags : List Str) (entries : List RouteEntry)
    → starts_with_char full b'/' ≡ true
    → HasDistinctTags tags
    → All IsSound (map (flat_entry full tags) entries)
unfolding flat_entry
All-flat_entry full tags [] s h = tt
All-flat_entry full tags (entry ∷ entries) s h = (
  (starts-join_path full entry.path (inr s), HasDistinctTags-merge_tags tags entry.tags h),
  All-flat_entry full tags entries s h,
)

mutual
  unfolding routes_of

  IsSound-routes_of :
      (tree : RouterTree) (prefix : Str) (tags : List Str)
      → IsPrefixPath prefix
      → HasDistinctTags tags
      → All IsSound (routes_of tree prefix tags)
  IsSound-routes_of (node id router subs) prefix tags s h =
      let full = starts-join_path prefix router.prefix s in
      let merged = HasDistinctTags-merge_tags tags router.tags h in
      All-append IsSound _ _ (All-flat_entry _ _ router.route_entries full merged)
        (IsSound-routes_of_forest subs _ _ full merged)

  IsSound-routes_of_forest :
      (forest : Forest) (full : Str) (tags : List Str)
      → starts_with_char full b'/' ≡ true
      → HasDistinctTags tags
      → All IsSound (routes_of_forest forest full tags)
  IsSound-routes_of_forest leaf full tags s h = tt
  IsSound-routes_of_forest (branch sub tree rest) full tags s h =
      All-append IsSound _ _ (IsSound-routes_of_forest rest full tags s h) (
        IsSound-routes_of tree _ _ (inr (starts-join_path full sub.prefix (inr s)))
          (HasDistinctTags-merge_tags tags sub.tags h))

-- Every route that a tree of routers flattens to has a path that begins with a slash, whatever the
-- prefixes, and carries no tag twice, whatever tags its routers, mounts and decorators repeat.
pub routes_of-IsSound : (tree : RouterTree) → All IsSound (routes_of tree [] [])
routes_of-IsSound tree = IsSound-routes_of tree [] [] (inl refl) tt
