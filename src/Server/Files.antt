-- ===== src/Server/Files.antt =====
-- src/engine/server/files.rs: the files of a frontend. The percent_encoding crate and the file system
-- are arguments; a path is a directory and the names behind it.
pub mod Inside
pub mod Longest
use fastrapi.Prelude.{
  ℕ, Bool, true, false, not, ◌&&◌, ◌||◌, Option, none, some, List, [], ◌∷◌, ◌++◌, ◌>>=?◌,
  if◌then◌else◌, is_empty, leb, last?, unwrap_or, ◌==◌,
}
use fastrapi.Text.{
  Str, str_eq, codes, len, contains, contains_char, ends_with_char, split, starts_with_char,
  strip_prefix, trim_start_matches,
}

pub record FrontendMount : Type 0 where
  pub path : Str
  pub directory : Str
  pub fallback : Option Str
  pub check_dir : Bool

pub record PathBuf : Type 0 where
  pub directory : Str
  pub names : List Str

abbrev pub push : Str → PathBuf → PathBuf
push name path = record path { names = path.names ++ name ∷ [] }

-- `Path::components` of a text that does not begin with a slash, on Unix.
pub data Component : Type 0 where
  normal : Str → Component
  cur_dir parent_dir : Component

unfoldable pub component_of : Str → Option Component
unfolding str_eq
component_of piece =
    if is_empty piece
    then none
    else if str_eq piece (codes ".")
    then some cur_dir
    else if str_eq piece (codes "..")
    then some parent_dir
    else some (normal piece)

abbrev pub cons_component : Option Component → List Component → List Component
cons_component none rest = rest
cons_component (some c) rest = c ∷ rest

unfoldable pub components_of : List Str → List Component
unfolding component_of
components_of [] = []
components_of (piece ∷ pieces) = cons_component (component_of piece) (components_of pieces)

-- The loop of `frontend_safe_path`.
unfoldable pub push_components : List Component → PathBuf → Option PathBuf
push_components [] path = some path
push_components (normal part ∷ rest) path = push_components rest (push part path)
push_components (cur_dir ∷ rest) path = push_components rest path
push_components (parent_dir ∷ rest) path = none

abbrev pub add_index : Bool → PathBuf → PathBuf
add_index true path = push (codes "index.html") path
add_index false path = path

-- `decode` stands for `percent_decode_str(…).decode_utf8()`.
unfoldable pub frontend_safe_path : (Str → Option Str) → Str → Str → Option PathBuf
unfolding components_of push_components split trim_start_matches ends_with_char
frontend_safe_path decode directory request_path = decode request_path >>=? λ decoded.
    push_components (components_of (split (trim_start_matches decoded b'/') b'/'))
      (record { directory = directory; names = [] })
    >>=? λ path. some (add_index (is_empty request_path || ends_with_char request_path b'/') path)

-- The mounts that a path lies under, each with the path relative to it.
abbrev pub under_mount : Str → FrontendMount → Option (FrontendMount × Str)
under_mount request_path mount =
    if str_eq mount.path (codes "/")
    then some (mount, trim_start_matches request_path b'/')
    else if str_eq request_path mount.path
    then some (mount, [])
    else strip_prefix request_path (mount.path ++ codes "/") >>=? λ relative. some (mount, relative)

-- The later of two where both are as long, as `max_by_key` has it.
abbrev pub longer_of : FrontendMount × Str → Option (FrontendMount × Str) → FrontendMount × Str
longer_of a none = a
longer_of a (some b) = if leb (len a.0.path) (len b.0.path) then b else a

abbrev pub max_under :
    Option (FrontendMount × Str) → Option (FrontendMount × Str) → Option (FrontendMount × Str)
max_under none best = best
max_under (some a) best = some (longer_of a best)

-- The maximum over the rest of the mounts, and the first one where it is longer.
unfoldable pub frontend_match : List FrontendMount → Str → Option (FrontendMount × Str)
unfolding str_eq strip_prefix len trim_start_matches
frontend_match [] request_path = none
frontend_match (mount ∷ mounts) request_path =
    max_under (under_mount request_path mount) (frontend_match mounts request_path)

-- What the file server reads of a request.
pub record FileRequest : Type 0 where
  pub is_get_or_head : Bool
  pub path : Str
  pub accept : Option Str

unfoldable pub frontend_navigation_request : Option Str → Str → Bool
unfolding split contains contains_char
frontend_navigation_request accept relative_path =
    not (contains_char (unwrap_or (last? (split relative_path b'/')) []) b'.')
    && unwrap_or
        (accept >>=? λ a. some (contains a (codes "text/html") || contains a (codes "*/*"))) false

module _ (is_file : PathBuf → Bool) where
  -- `join`: an absolute path takes the place of the directory.
  abbrev pub in_directory : FrontendMount → Str → PathBuf
  in_directory mount name =
      if starts_with_char name b'/'
      then record { directory = name; names = [] }
      else record { directory = mount.directory; names = name ∷ [] }

  -- A candidate with status 200 is for a navigation only.
  unfoldable pub first_candidate : Bool → List (PathBuf × ℕ) → Option (PathBuf × ℕ)
  first_candidate navigation [] = none
  first_candidate navigation ((path, status) ∷ candidates) =
      let rest = first_candidate navigation candidates in
      if ((status == 200) && not navigation) || not (is_file path)
      then rest
      else some (path, status)

  unfoldable pub frontend_fallback_path : FrontendMount → Str → Bool → Option (PathBuf × ℕ)
  unfolding str_eq first_candidate starts_with_char
  frontend_fallback_path mount fallback navigation =
      if str_eq fallback (codes "auto")
      then first_candidate navigation (
          (in_directory mount (codes "404.html"), 404)
          ∷ (in_directory mount (codes "index.html"), 200)
          ∷ [])
      else if str_eq fallback (codes "404.html")
      then first_candidate navigation ((in_directory mount fallback, 404) ∷ [])
      else if navigation
      then first_candidate navigation ((in_directory mount fallback, 200) ∷ [])
      else none

  unfoldable pub served : FrontendMount × Str → Option Str → PathBuf → Option (PathBuf × ℕ)
  unfolding frontend_fallback_path frontend_navigation_request
  served (mount, relative_path) accept file_path =
      if is_file file_path
      then some (file_path, 200)
      else mount.fallback >>=? λ fallback.
          frontend_fallback_path mount fallback (frontend_navigation_request accept relative_path)

  -- The file that is served, and the status: `none` where the request goes on to the routes.
  unfoldable pub serve_frontend_mounts :
      (Str → Option Str) → List FrontendMount → FileRequest → Option (PathBuf × ℕ)
  unfolding frontend_match frontend_safe_path served
  serve_frontend_mounts decode mounts req =
      if not req.is_get_or_head
      then none
      else frontend_match mounts req.path >>=? λ found.
          frontend_safe_path decode found.0.directory found.1 >>=? λ file_path.
          served found req.accept file_path
