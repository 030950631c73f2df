-- ===== src/Server/Reload/Supervisor.antt =====
-- `run_reload_supervisor` and `stop_child` of src/engine/server/reload.rs, as steps of a state.
-- What the operating system and the watcher do in a turn of the loop is an argument.
use fastrapi.Prelude.{Bool, Option, none, some, ◌⊎◌, inl, inr, List, [], ◌∷◌, ◌++◌, if◌then◌else◌}
use fastrapi.Text.{Str, codes}
use fastrapi.Server.Reload.{
  FilePath, ReloadConfig, Event, Globset, reload_event_matches, build_reload_ignore_globs,
}

-- What happens to the children: one is spawned, is found to have exited, or is killed and waited for.
pub data Action : Type 0 where
  spawned exited killed : Action

-- The channel of the watcher, and what happened to the children, the latest first.
pub record Supervisor : Type 0 where
  pub queue : List (Str ⊎ Event)
  pub log : List Action

-- What one turn of the loop meets: the answer of `try_wait`, an exit status printed; what the watcher
-- sends before the receive ends, and whether it is gone; whether the child has exited by the time
-- that it is to be stopped; and the error of `spawn`, if any.
pub record Turn : Type 0 where
  pub status : Str ⊎ Option Str
  pub arrived : List (Str ⊎ Event)
  pub disconnected : Bool
  pub has_exited : Bool
  pub spawn : Option Str

abbrev pub state : List (Str ⊎ Event) → List Action → Supervisor
state queue log = record { queue = queue; log = log }

abbrev pub note : Action → Supervisor → Supervisor
note action s = record s { log = action ∷ s.log }

-- Each step gives the error that ends the supervisor, if any.
unfoldable pub spawn_reload_child : Option Str → Supervisor → Option Str × Supervisor
spawn_reload_child (some e) s = (some e, s)
spawn_reload_child none s = (none, note spawned s)

-- `kill` may fail; `wait`, which follows, is taken to return once the child has ended.
unfoldable pub stop_child : Bool → Supervisor → Supervisor
stop_child has_exited s = if has_exited then note exited s else note killed s

-- An error ends the supervisor.
abbrev pub go_on :
    (Supervisor → Option Str × Supervisor) → Option Str × Supervisor → Option Str × Supervisor
go_on rest (some e, s) = (some e, s)
go_on rest (none, s) = rest s

abbrev pub drained : Option Str × Supervisor → Option Str × Supervisor
drained (none, s) = (none, state [] s.log)
drained (some e, s) = (some e, s)

abbrev pub exit_message : Str → Str
exit_message status = codes "reload child exited with status " ++ status

module _ (config : ReloadConfig) (ignore_globs : Option (FilePath → Bool)) where
  -- The receive, and what follows on it.
  unfoldable pub receive : Turn → List (Str ⊎ Event) → List Action → Option Str × Supervisor
  unfolding spawn_reload_child stop_child reload_event_matches
  receive t [] log =
      (if t.disconnected then some (codes "reload watcher stopped") else none, state [] log)
  receive t (inl e ∷ queue) log = (some e, state queue log)
  receive t (inr event ∷ queue) log =
      if reload_event_matches event config ignore_globs
      then drained (spawn_reload_child t.spawn (stop_child t.has_exited (state queue log)))
      else (none, state queue log)

  unfoldable pub turn : Turn → Supervisor → Option Str × Supervisor
  unfolding spawn_reload_child receive
  turn t s = elim t.status [
    | inl e ↦ (some e, s)
    | inr (some status) ↦
        if config.ignore_worker_failure
        then spawn_reload_child t.spawn (note exited s)
        else (some (exit_message status), note exited s)
    | inr none ↦ receive t (s.queue ++ t.arrived) s.log
  ]

  -- The loop, over the turns so far: with no error, it goes on.
  unfoldable pub supervise : List Turn → Supervisor → Option Str × Supervisor
  unfolding turn
  supervise [] s = (none, s)
  supervise (t ∷ turns) s = go_on (λ s'. supervise turns s') (turn t s)

unfoldable pub watch_all : (FilePath → Option Str) → List FilePath → Option Str
watch_all watch [] = none
watch_all watch (dir ∷ dirs) = elim (watch dir) [ some e ↦ some e | none ↦ watch_all watch dirs ]

abbrev pub idle : Supervisor
idle = state [] []

-- The first child, and the loop.
unfoldable pub after_first :
    Option Str → ReloadConfig → Option (FilePath → Bool) → List Turn → Option Str × Supervisor
unfolding spawn_reload_child supervise
after_first first config ignore_globs turns =
    go_on (supervise config ignore_globs turns) (spawn_reload_child first idle)

-- A directory that cannot be watched is an error, before there is a child.
abbrev pub after_watch : Option Str → Option Str × Supervisor → Option Str × Supervisor
after_watch (some e) rest = (some e, idle)
after_watch none rest = rest

unfoldable pub after_globs :
    Str ⊎ (FilePath → Option Str)
    → Option Str
    → ReloadConfig
    → Option (FilePath → Bool)
    → List Turn
    → Option Str × Supervisor
unfolding watch_all after_first
after_globs (inl e) first config ignore_globs turns = (some e, idle)
after_globs (inr watch) first config ignore_globs turns =
    after_watch (watch_all watch config.watch_dirs) (after_first first config ignore_globs turns)

unfoldable pub with_globs :
    Str ⊎ Option (FilePath → Bool)
    → Str ⊎ (FilePath → Option Str)
    → Option Str
    → ReloadConfig
    → List Turn
    → Option Str × Supervisor
unfolding after_globs
with_globs (inl e) watcher first config turns = (some e, idle)
with_globs (inr ignore_globs) watcher first config turns =
    after_globs watcher first config ignore_globs turns

-- The arguments: the watcher, if it can be made, the error of the first `spawn`, if any, and the
-- turns of the loop.
unfoldable pub run_reload_supervisor :
    Globset
    → Str ⊎ (FilePath → Option Str)
    → Option Str
    → ReloadConfig
    → List Turn
    → Option Str × Supervisor
unfolding build_reload_ignore_globs with_globs
run_reload_supervisor globset watcher first config turns =
    with_globs (build_reload_ignore_globs globset config) watcher first config turns
