-- ===== src/Server/Reload/Ignored.antt =====
-- About `is_reload_ignored` of src/engine/server/reload.rs: the directories that it leaves out, by
-- the names in a path.
use fastrapi.Prelude.{
  ◌≡◌, refl, Bool, true, false, ◌||◌, Option, none, some, List, [], ◌∷◌, ◌++◌, map, if◌then◌else◌,
  any, arith,
}
use fastrapi.Text.{Str, str_eq}
use fastrapi.Server.Files.{Component, normal, cur_dir, parent_dir}
use fastrapi.Server.Reload.{
  FilePath, ReloadConfig, ancestors_of, component_eq, components_eq, ends_with, ends_with_of,
  path_eq, same, under_ignored, default_names, is_default_reload_ignored_dir, is_reload_ignored,
}

-- A directory with its own name, and the path to it.
abbrev pub NamedDir : Type 0
NamedDir = Str × FilePath

abbrev pub named : NamedDir → FilePath
named (name, parent) = record {
  rooted = parent.rooted;
  components = normal name ∷ parent.components;
}

abbrev pub name_is : (Str → Bool) → Component → Bool
name_is p (normal name) = p name
name_is p cur_dir = false
name_is p parent_dir = false

abbrev pub is_one_of : List Str → Str → Bool
is_one_of names name = any (str_eq name) names

component_eq-name :
    (c : Component) (name : Str) → component_eq c (normal name) ≡ name_is (λ s. str_eq s name) c
unfolding component_eq
component_eq-name (normal s) name = refl
component_eq-name cur_dir name = refl
component_eq-name parent_dir name = refl

-- What equals or ends with a named directory has its name.
under_ignored-named :
    (rooted : Bool) (c : Component) (cs : List Component) (dir : NamedDir)
    → under_ignored (record { rooted = rooted; components = c ∷ cs }) (named dir)
      ≡ name_is (λ s. str_eq s dir.0) c
unfolding under_ignored ends_with_of components_eq component_eq
under_ignored-named rooted (normal s) cs (name, parent) = ground arith
under_ignored-named rooted cur_dir cs (name, parent) = ground arith
under_ignored-named rooted parent_dir cs (name, parent) = ground arith

under_ignored-empty :
    (rooted : Bool) (dir : NamedDir)
    → under_ignored (record { rooted = rooted; components = [] }) (named dir) ≡ false
unfolding under_ignored ends_with_of components_eq
under_ignored-empty rooted (name, parent) = ground arith

any_ignored :
    (rooted : Bool) (c : Component) (cs : List Component) (dirs : List NamedDir)
    → any (under_ignored (record { rooted = rooted; components = c ∷ cs })) (map named dirs)
      ≡ name_is (is_one_of (map (λ d. d.0) dirs)) c
any_ignored rooted (normal s) cs [] = refl
any_ignored rooted cur_dir cs [] = refl
any_ignored rooted parent_dir cs [] = refl
any_ignored rooted (normal s) cs (dir ∷ dirs) =
    rw (under_ignored-named rooted (normal s) cs dir, any_ignored rooted (normal s) cs dirs) refl
any_ignored rooted cur_dir cs (dir ∷ dirs) =
    rw (under_ignored-named rooted cur_dir cs dir, any_ignored rooted cur_dir cs dirs) refl
any_ignored rooted parent_dir cs (dir ∷ dirs) =
    rw (under_ignored-named rooted parent_dir cs dir, any_ignored rooted parent_dir cs dirs) refl

any_ignored_empty :
    (rooted : Bool) (dirs : List NamedDir)
    → any (under_ignored (record { rooted = rooted; components = [] })) (map named dirs) ≡ false
any_ignored_empty rooted [] = refl
any_ignored_empty rooted (dir ∷ dirs) =
    rw (under_ignored-empty rooted dir) (any_ignored_empty rooted dirs)

any-ancestors_ignored :
    (rooted : Bool) (cs : List Component) (dirs : List NamedDir)
    → any (λ ancestor. any (under_ignored ancestor) (map named dirs)) (ancestors_of rooted cs)
      ≡ any (name_is (is_one_of (map (λ d. d.0) dirs))) cs
unfolding ancestors_of
any-ancestors_ignored rooted [] dirs = rw (any_ignored_empty rooted dirs) refl
any-ancestors_ignored rooted (c ∷ cs) dirs =
    rw (any_ignored rooted c cs dirs, any-ancestors_ignored rooted cs dirs) refl

any-ancestors_default :
    (rooted : Bool) (cs : List Component)
    → any is_default_reload_ignored_dir (ancestors_of rooted cs)
      ≡ any (name_is (is_one_of default_names)) cs
unfolding ancestors_of is_default_reload_ignored_dir
any-ancestors_default rooted [] = refl
any-ancestors_default rooted (normal s ∷ cs) = rw (any-ancestors_default rooted cs) refl
any-ancestors_default rooted (cur_dir ∷ cs) = any-ancestors_default rooted cs
any-ancestors_default rooted (parent_dir ∷ cs) = any-ancestors_default rooted cs

is_one_of-append :
    (xs ys : List Str) (s : Str) → is_one_of (xs ++ ys) s ≡ (is_one_of xs s || is_one_of ys s)
is_one_of-append [] ys s = refl
is_one_of-append (a ∷ xs) ys s = ground (arith, is_one_of-append xs ys s)

any-name_append :
    (xs ys : List Str) (cs : List Component)
    → any (name_is (is_one_of (xs ++ ys))) cs
      ≡ (any (name_is (is_one_of xs)) cs || any (name_is (is_one_of ys)) cs)
any-name_append xs ys [] = refl
any-name_append xs ys (normal s ∷ cs) =
    ground (arith, is_one_of-append xs ys s, any-name_append xs ys cs)
any-name_append xs ys (cur_dir ∷ cs) = any-name_append xs ys cs
any-name_append xs ys (parent_dir ∷ cs) = any-name_append xs ys cs

-- Equal paths end with each other.
ends_with-components_eq :
    (cs ds : List Component) (rooted root : Bool)
    → same rooted root ≡ true
    → components_eq cs ds ≡ true
    → ends_with_of rooted cs root ds ≡ true
unfolding components_eq ends_with_of
ends_with-components_eq [] [] rooted root r h = ground arith
ends_with-components_eq [] (d ∷ ds) rooted root r h = h
ends_with-components_eq (c ∷ cs) [] rooted root r h = ground arith
ends_with-components_eq (c ∷ cs) (d ∷ ds) rooted root r h =
    ground (arith, ends_with-components_eq cs ds rooted root r)

any-ends_with :
    (path : FilePath) (ignored : List FilePath)
    → any (λ i. path_eq path i || ends_with path i) ignored ≡ any (ends_with path) ignored
any-ends_with path [] = refl
any-ends_with path (i ∷ ignored) = ground (
  arith,
  ends_with-components_eq path.components i.components path.rooted i.rooted,
  any-ends_with path ignored,
)

-- Whether the glob set, if any, matches the path.
abbrev pub is_matched : Option (FilePath → Bool) → FilePath → Bool
is_matched none path = false
is_matched (some is_match) path = is_match path

any_of :
    (a b c : Bool) (path : FilePath) (ignore_globs : Option (FilePath → Bool))
    → (if a
        then true
        else if b
        then true
        else if c
        then true
        else elim ignore_globs [ none ↦ false | some is_match ↦ is_match path ])
      ≡ ((a || b) || c || is_matched ignore_globs path)
any_of a b c path none = ground arith
any_of a b c path (some is_match) = ground arith

-- Where the ignored directories have names, a path is left out just where one of its components, at
-- any depth, is named .git, .venv, __pycache__ or target or as one of these directories, wherever
-- that directory is; or where it ends with an ignored path; or where the glob set matches it.
pub is_reload_ignored-names :
    (path : FilePath) (config : ReloadConfig) (ignore_globs : Option (FilePath → Bool))
    (dirs : List NamedDir)
    → config.ignore_dirs ≡ map named dirs
    → is_reload_ignored path config ignore_globs ≡ (
        any (name_is (is_one_of (default_names ++ map (λ d. d.0) dirs))) path.components
        || any (ends_with path) config.ignore_paths
        || is_matched ignore_globs path)
unfolding is_reload_ignored
is_reload_ignored-names path config ignore_globs dirs e =
    rw
      (
        e,
        any-ancestors_default path.rooted path.components,
        any-ancestors_ignored path.rooted path.components dirs,
        any-ends_with path config.ignore_paths,
        any-name_append default_names (map (λ d. d.0) dirs) path.components,
      )
      (any_of (any (name_is (is_one_of default_names)) path.components)
        (any (name_is (is_one_of (map (λ d. d.0) dirs))) path.components)
        (any (ends_with path) config.ignore_paths) path ignore_globs)
