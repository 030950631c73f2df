-- ===== src/Server/Reload.antt =====
-- src/engine/server/reload.rs: which changes count. The globset crate is an argument.
-- A path is the list of its components, the last one first, which is all that `Path::ancestors`,
-- `ends_with`, `file_name` and the equality of paths read.
pub mod Ignored
pub mod Supervisor
pub mod Children
use fastrapi.Prelude.{
  ℕ, Bool, true, false, not, ◌&&◌, ◌||◌, Option, none, some, ◌⊎◌, inl, inr, List, [], ◌∷◌, ◌++◌,
  map, if◌then◌else◌, is_empty, any, unwrap_or, ◌==◌,
}
use fastrapi.Text.{Str, str_eq, codes, contains_char}
use fastrapi.Server.Files.{Component, normal, cur_dir, parent_dir}

pub record FilePath : Type 0 where
  pub rooted : Bool
  pub components : List Component

pub record ReloadConfig : Type 0 where
  pub watch_dirs : List FilePath
  pub ignore_dirs : List FilePath
  pub ignore_patterns : List Str
  pub ignore_paths : List FilePath
  pub tick_ms : ℕ
  pub ignore_worker_failure : Bool

-- `Path::ancestors`: the path itself, then each parent.
unfoldable pub ancestors_of : Bool → List Component → List FilePath
ancestors_of rooted [] = record { rooted = rooted; components = [] } ∷ []
ancestors_of rooted (c ∷ components) =
    record { rooted = rooted; components = c ∷ components } ∷ ancestors_of rooted components

abbrev pub ancestors : FilePath → List FilePath
ancestors path = ancestors_of path.rooted path.components

-- `Path::file_name`.
abbrev pub name_of : List Component → Option Str
name_of [] = none
name_of (normal name ∷ components) = some name
name_of (cur_dir ∷ components) = none
name_of (parent_dir ∷ components) = none

abbrev pub file_name : FilePath → Option Str
file_name path = name_of path.components

-- The text behind the last dot.
unfoldable pub behind_dot : Str → Option Str
behind_dot [] = none
behind_dot (c ∷ s) = elim (behind_dot s) [
  | some rest ↦ some rest
  | none ↦ if c == b'.' then some s else none
]

-- `Path::extension`; a name that only begins with a dot has none.
abbrev pub extension_of : Option Str → Option Str
extension_of none = none
extension_of (some []) = none
extension_of (some (c ∷ s)) = behind_dot s

abbrev pub extension : FilePath → Option Str
extension path = extension_of (file_name path)

abbrev pub is_name : Option Str → Str → Bool
is_name none name = false
is_name (some s) name = str_eq s name

unfoldable pub component_eq : Component → Component → Bool
unfolding str_eq
component_eq (normal a) (normal b) = str_eq a b
component_eq cur_dir cur_dir = true
component_eq parent_dir parent_dir = true
component_eq _ _ = false

abbrev pub same : Bool → Bool → Bool
same true b = b
same false b = not b

unfoldable pub components_eq : List Component → List Component → Bool
unfolding component_eq
components_eq [] [] = true
components_eq [] (d ∷ ds) = false
components_eq (c ∷ cs) [] = false
components_eq (c ∷ cs) (d ∷ ds) = component_eq c d && components_eq cs ds

abbrev pub path_eq : FilePath → FilePath → Bool
path_eq a b = same a.rooted b.rooted && components_eq a.components b.components

-- `Path::ends_with`; the root counts as a component.
unfoldable pub ends_with_of : Bool → List Component → Bool → List Component → Bool
unfolding component_eq
ends_with_of rooted cs root [] = if root then rooted && is_empty cs else true
ends_with_of rooted [] root (d ∷ ds) = false
ends_with_of rooted (c ∷ cs) root (d ∷ ds) = component_eq c d && ends_with_of rooted cs root ds

abbrev pub ends_with : FilePath → FilePath → Bool
ends_with path child = ends_with_of path.rooted path.components child.rooted child.components

abbrev pub default_names : List Str
default_names = codes ".git" ∷ codes ".venv" ∷ codes "__pycache__" ∷ codes "target" ∷ []

unfoldable pub is_default_reload_ignored_dir : FilePath → Bool
unfolding str_eq
is_default_reload_ignored_dir path = elim (file_name path) [
  | none ↦ false
  | some name ↦ any (str_eq name) default_names
]

-- Whether an ancestor is the ignored directory, ends with it, or has its name.
unfoldable pub under_ignored : FilePath → FilePath → Bool
unfolding ends_with_of components_eq str_eq
under_ignored ancestor ignored =
    path_eq ancestor ignored
    || ends_with ancestor ignored
    || elim (file_name ignored) [ none ↦ false | some name ↦ is_name (file_name ancestor) name ]

-- The glob set, if any, is the test that it makes.
unfoldable pub is_reload_ignored : FilePath → ReloadConfig → Option (FilePath → Bool) → Bool
unfolding ancestors_of under_ignored is_default_reload_ignored_dir ends_with_of components_eq
is_reload_ignored path config ignore_globs =
    if any is_default_reload_ignored_dir (ancestors path)
    then true
    else if any (λ ancestor. any (under_ignored ancestor) config.ignore_dirs) (ancestors path)
    then true
    else if any (λ ignored. path_eq path ignored || ends_with path ignored) config.ignore_paths
    then true
    else elim ignore_globs [ none ↦ false | some is_match ↦ is_match path ]

abbrev pub Event : Type 0
Event = List FilePath

unfoldable pub reload_event_matches : Event → ReloadConfig → Option (FilePath → Bool) → Bool
unfolding is_reload_ignored behind_dot str_eq
reload_event_matches event config ignore_globs =
    any
      (λ path.
        is_name (extension path) (codes "py") && not (is_reload_ignored path config ignore_globs))
      event

-- The globset crate: a pattern that it parses, and the test of a set of them.
pub record Globset : Type 1 where
  pub Glob : Type 0
  pub parse : Str → Str ⊎ Glob
  pub build_set : List Glob → Str ⊎ (FilePath → Bool)

module _ (globset : Globset) where
  abbrev pub pattern_of : Str → Str
  pattern_of pattern =
      if contains_char pattern b'*'
        || contains_char pattern b'?'
        || contains_char pattern b'['
        || contains_char pattern b']'
      then pattern
      else codes "**/*" ++ pattern ++ codes "*"

  unfoldable pub build_globs : List Str → Str ⊎ List globset.Glob
  unfolding contains_char
  build_globs [] = inr []
  build_globs ([] ∷ patterns) = build_globs patterns
  build_globs ((c ∷ pattern) ∷ patterns) = elim (globset.parse (pattern_of (c ∷ pattern))) [
    | inl e ↦ inl e
    | inr glob ↦ elim (build_globs patterns) [ inl e ↦ inl e | inr globs ↦ inr (glob ∷ globs) ]
  ]

  unfoldable pub build_reload_ignore_globs : ReloadConfig → Str ⊎ Option (FilePath → Bool)
  unfolding build_globs
  build_reload_ignore_globs config =
      if is_empty config.ignore_patterns
      then inr none
      else elim (build_globs config.ignore_patterns) [
        | inl e ↦ inl e
        | inr globs ↦ elim (globset.build_set globs) [
          | inl e ↦ inl e
          | inr is_match ↦ inr (some is_match)
        ]
      ]

abbrev pub dir_of : FilePath → List FilePath
dir_of path = path ∷ []

-- The directories to watch; the current one is none where it cannot be read.
unfoldable pub resolve_reload_dirs :
    FilePath → Option (List FilePath) → Option FilePath → List FilePath
resolve_reload_dirs script (some dirs) current_dir = dirs
resolve_reload_dirs script none current_dir =
    let here =
      dir_of (unwrap_or current_dir (record { rooted = false; components = cur_dir ∷ [] })) in
    elim script.components [
      | [] ↦ here
      | c ∷ parent ↦
          if is_empty parent && not script.rooted
          then here
          else dir_of (record { rooted = script.rooted; components = parent })
    ]
