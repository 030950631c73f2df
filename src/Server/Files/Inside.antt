-- ===== src/Server/Files/Inside.antt =====
-- About `frontend_safe_path` of src/engine/server/files.rs.
use fastrapi.Prelude.{
  ◌≡◌, subst, refl, ℕ, Bool, true, false, Bool-cases, Option, none, some, Option-cases, inl, inr,
  List, [], ◌∷◌, All, All-append, is_empty, ◌==◌, ◌||◌, arith,
}
use fastrapi.Text.{
  Str, onto_first, str_eq, codes, contains_char, split, trim_start_matches, ends_with_char,
}
use fastrapi.Server.Files.{
  PathBuf, push, Component, normal, cur_dir, parent_dir, component_of, cons_component,
  components_of, push_components, add_index, frontend_safe_path,
}

-- A name that a directory can hold: it is no "..", no "." and not empty, and it has no slash.
pub record IsName (name : Str) : Type 0 where
  pub no_slash : contains_char name b'/' ≡ false
  pub not_empty : is_empty name ≡ false
  pub not_dot : str_eq name (codes ".") ≡ false
  pub not_parent : str_eq name (codes "..") ≡ false

-- The path is the directory, followed by names.
pub record IsInside (directory : Str) (path : PathBuf) : Type 0 where
  pub same_directory : path.directory ≡ directory
  pub all_names : All IsName path.names

abbrev NoSlash : Str → Type 0
NoSlash s = contains_char s b'/' ≡ false

empty-NoSlash : NoSlash []
unfolding contains_char
empty-NoSlash = refl

onto_first-NoSlash :
    (c : ℕ) (pieces : List Str)
    → (c == b'/') ≡ false
    → All NoSlash pieces
    → All NoSlash (onto_first c pieces)
unfolding contains_char
onto_first-NoSlash c [] e h = (ground arith, tt)
onto_first-NoSlash c (p ∷ pieces) e (q, h) = (ground arith, h)

split-NoSlash : (s : Str) → All NoSlash (split s b'/')
unfolding split
split-NoSlash [] = (empty-NoSlash, tt)
split-NoSlash (c ∷ s) = elim (Bool-cases (c == b'/')) [
  | inl e ↦ rw (e, split) (empty-NoSlash, split-NoSlash s)
  | inr e ↦ rw (e, split) (onto_first-NoSlash c (split s b'/') e (split-NoSlash s))
]

abbrev IsGood : Component → Type 0
IsGood (normal part) = IsName part
IsGood cur_dir = Unit
IsGood parent_dir = Unit

cons_component-IsGood :
    (o : Option Component) (rest : List Component)
    → ((c : Component) → o ≡ some c → IsGood c)
    → All IsGood rest
    → All IsGood (cons_component o rest)
cons_component-IsGood none rest h k = k
cons_component-IsGood (some c) rest h k = (h c refl, k)

component_of-IsGood :
    (piece : Str) (c : Component) → NoSlash piece → component_of piece ≡ some c → IsGood c
unfolding component_of
component_of-IsGood piece cur_dir h e = tt
component_of-IsGood piece parent_dir h e = tt
component_of-IsGood piece (normal part) h e = record {
  no_slash = ground arith;
  not_empty = ground arith;
  not_dot = ground arith;
  not_parent = ground arith;
}

components_of-IsGood : (pieces : List Str) → All NoSlash pieces → All IsGood (components_of pieces)
unfolding components_of
components_of-IsGood [] h = tt
components_of-IsGood (piece ∷ pieces) (p, h) =
    cons_component-IsGood (component_of piece) (components_of pieces)
      (λ c. component_of-IsGood piece c p) (components_of-IsGood pieces h)

pushed :
    (directory name : Str) (path : PathBuf)
    → IsInside directory path
    → IsName name
    → IsInside directory (push name path)
pushed directory name path h n = record {
  same_directory = h.same_directory;
  all_names = All-append IsName path.names _ h.all_names (n, tt);
}

push_components-IsInside :
    (directory : Str) (components : List Component) (path result : PathBuf)
    → All IsGood components
    → IsInside directory path
    → push_components components path ≡ some result
    → IsInside directory result
unfolding push_components
push_components-IsInside directory [] path result g h e =
    subst (IsInside directory) (ground arith) h
push_components-IsInside directory (normal part ∷ rest) path result (n, g) h e =
    push_components-IsInside directory rest (push part path) result g
      (pushed directory part path h n) e
push_components-IsInside directory (cur_dir ∷ rest) path result (n, g) h e =
    push_components-IsInside directory rest path result g h e
push_components-IsInside directory (parent_dir ∷ rest) path result g h e = ground arith

index-IsName : IsName (codes "index.html")
unfolding contains_char str_eq
index-IsName = record { no_slash = refl; not_empty = refl; not_dot = refl; not_parent = refl }

add_index-IsInside :
    (directory : Str) (b : Bool) (path : PathBuf)
    → IsInside directory path
    → IsInside directory (add_index b path)
add_index-IsInside directory true path h = pushed directory _ path h index-IsName
add_index-IsInside directory false path h = h

abbrev walk : Str → Str → Option PathBuf
walk directory decoded =
    push_components (components_of (split (trim_start_matches decoded b'/') b'/'))
      (record { directory = directory; names = [] })

walk-IsInside :
    (directory decoded : Str) (path : PathBuf)
    → walk directory decoded ≡ some path
    → IsInside directory path
walk-IsInside directory decoded path w =
    push_components-IsInside directory
      (components_of (split (trim_start_matches decoded b'/') b'/'))
      (record { directory = directory; names = [] }) path
      (components_of-IsGood _ (split-NoSlash (trim_start_matches decoded b'/')))
      (record { same_directory = refl; all_names = tt }) w

-- Whatever a request's path decodes to, the file that `frontend_safe_path` gives lies in the
-- directory of the mount: it is the directory followed by names, each not empty, without a slash,
-- and neither "." nor "..".
pub frontend_safe_path-IsInside :
    (decode : Str → Option Str) (directory request_path : Str) (result : PathBuf)
    → frontend_safe_path decode directory request_path ≡ some result
    → IsInside directory result
unfolding frontend_safe_path
frontend_safe_path-IsInside decode directory request_path result e =
    elim (Option-cases (decode request_path)) [
      | inl fails ↦ ground arith
      | inr (decoded, d) ↦ elim (Option-cases (walk directory decoded)) [
        | inl refused ↦ ground arith
        | inr (path, w) ↦ subst {A = PathBuf} (IsInside directory) (ground arith) (
            add_index-IsInside directory (is_empty request_path || ends_with_char request_path b'/')
              path (walk-IsInside directory decoded path w))
      ]
    ]
