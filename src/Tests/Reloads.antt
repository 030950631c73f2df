-- ===== src/Tests/Reloads.antt =====
-- The reload supervisor at concrete inputs.
use fastrapi.Prelude.{◌≡◌, refl, true, false, none, some, inr, List, [], ◌∷◌, map}
use fastrapi.Text.{Str, str_eq, codes}
use fastrapi.Server.Files.{normal}
use fastrapi.Server.Reload.{FilePath, ReloadConfig, Globset, is_reload_ignored}
use fastrapi.Server.Reload.Ignored.{NamedDir, named, is_reload_ignored-names}
use fastrapi.Server.Reload.Supervisor.{Turn, spawned, exited, killed, run_reload_supervisor}
use fastrapi.Server.Reload.Children.{OneChild, run_reload_supervisor-OneChild}

abbrev app_dir : FilePath
app_dir = record { rooted = true; components = normal (codes "app") ∷ [] }

-- /app/main.py and /app/generated/main.py
abbrev main_file : FilePath
main_file = record { rooted = true; components = normal (codes "main.py") ∷ app_dir.components }

abbrev generated_file : FilePath
generated_file = record {
  rooted = true;
  components = normal (codes "main.py") ∷ normal (codes "generated") ∷ app_dir.components;
}

-- build/generated
abbrev build_generated : NamedDir
build_generated =
    (codes "generated", record { rooted = false; components = normal (codes "build") ∷ [] })

abbrev small_config : ReloadConfig
small_config = record {
  watch_dirs = app_dir ∷ [];
  ignore_dirs = map named (build_generated ∷ []);
  ignore_patterns = [];
  ignore_paths = [];
  tick_ms = 50;
  ignore_worker_failure = false;
}

-- A directory of the same name elsewhere is ignored too.
is_reload_ignored-names_example : is_reload_ignored generated_file small_config none ≡ true
unfolding str_eq
is_reload_ignored-names_example =
    is_reload_ignored-names generated_file small_config none (build_generated ∷ []) refl

main_counts : is_reload_ignored main_file small_config none ≡ false
unfolding is_reload_ignored str_eq
main_counts = refl

abbrev no_globs : Globset
no_globs = record {
  Glob = Str;
  parse = λ pattern. inr pattern;
  build_set = λ globs. inr (λ path. false);
}

-- A change, then a child that fails.
abbrev two_turns : List Turn
two_turns =
    record {
      status = inr none;
      arrived = inr (main_file ∷ []) ∷ inr (main_file ∷ []) ∷ [];
      disconnected = false;
      has_exited = false;
      spawn = none;
    }
    ∷ record {
      status = inr (some (codes "exit status: 1"));
      arrived = [];
      disconnected = false;
      has_exited = false;
      spawn = none;
    }
    ∷ []

actions :
    (run_reload_supervisor no_globs (inr (λ dir. none)) none small_config two_turns).1.log
    ≡ exited ∷ spawned ∷ killed ∷ spawned ∷ []
unfolding run_reload_supervisor
actions = refl

run_reload_supervisor-OneChild_example :
    OneChild (run_reload_supervisor no_globs (inr (λ dir. none)) none small_config two_turns)
run_reload_supervisor-OneChild_example =
    run_reload_supervisor-OneChild no_globs (inr (λ dir. none)) none small_config two_turns
