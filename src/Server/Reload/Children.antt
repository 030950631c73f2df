-- ===== src/Server/Reload/Children.antt =====
-- About `run_reload_supervisor` of src/engine/server/reload.rs: what becomes of the children.
use fastrapi.Prelude.{
  ◌≡◌, refl, Bool, true, false, Bool-cases, Option, none, some, ◌⊎◌, inl, inr, List, [], ◌∷◌, ◌++◌,
  is_some, arith,
}
use fastrapi.Text.{Str}
use fastrapi.Server.Reload.{
  FilePath, ReloadConfig, Event, Globset, reload_event_matches, build_reload_ignore_globs,
}
use fastrapi.Server.Reload.Supervisor.{
  Action, spawned, exited, killed, Supervisor, Turn, spawn_reload_child, stop_child, receive, turn,
  supervise, watch_all, idle, drained, go_on, note, after_first, after_watch, after_globs,
  with_globs, run_reload_supervisor,
}

abbrev pub started : Option Bool → Option Bool
started (some false) = some true
started _ = none

abbrev pub ended : Option Bool → Option Bool
ended (some true) = some false
ended _ = none

-- Whether a child is there after these actions, the latest first; none where one is spawned beside
-- another, or ends without having been there.
unfoldable pub child_of : List Action → Option Bool
child_of [] = some false
child_of (spawned ∷ log) = started (child_of log)
child_of (exited ∷ log) = ended (child_of log)
child_of (killed ∷ log) = ended (child_of log)

-- A child is there, or none is and the supervisor ends with an error.
abbrev pub OneChild : Option Str × Supervisor → Type 0
OneChild (error, s) =
    (child_of s.log ≡ some true) ⊎ ((child_of s.log ≡ some false) × (is_some error ≡ true))

spawn_reload_child-OneChild :
    (spawn : Option Str) (s : Supervisor)
    → child_of s.log ≡ some false
    → OneChild (spawn_reload_child spawn s)
unfolding spawn_reload_child child_of
spawn_reload_child-OneChild (some e) s h = inr (h, refl)
spawn_reload_child-OneChild none s h = inl (rw h refl)

stop_child-ended :
    (has_exited : Bool) (s : Supervisor)
    → child_of s.log ≡ some true
    → child_of (stop_child has_exited s).log ≡ some false
unfolding stop_child child_of
stop_child-ended true s h = rw h refl
stop_child-ended false s h = rw h refl

gone : (s : Supervisor) → child_of s.log ≡ some true → child_of (note exited s).log ≡ some false
unfolding child_of
gone s h = rw h refl

go_on-OneChild :
    (rest : Supervisor → Option Str × Supervisor)
    → ((s : Supervisor) → child_of s.log ≡ some true → OneChild (rest s))
    → (r : Option Str × Supervisor) → OneChild r
    → OneChild (go_on rest r)
go_on-OneChild rest later (some e, s) h = h
go_on-OneChild rest later (none, s) (inl h) = later s h
go_on-OneChild rest later (none, s) (inr (h, e)) = ground arith

drained-OneChild : (r : Option Str × Supervisor) → OneChild r → OneChild (drained r)
drained-OneChild (some e, s) h = h
drained-OneChild (none, s) h = h

module _ (config : ReloadConfig) (ignore_globs : Option (FilePath → Bool)) where
  receive-OneChild :
      (t : Turn) (queue : List (Str ⊎ Event)) (log : List Action)
      → child_of log ≡ some true
      → OneChild (receive config ignore_globs t queue log)
  unfolding receive
  receive-OneChild t [] log h = inl h
  receive-OneChild t (inl e ∷ queue) log h = inl h
  receive-OneChild t (inr event ∷ queue) log h =
      elim (Bool-cases (reload_event_matches event config ignore_globs)) [
        | inl matches ↦ rw matches (
            drained-OneChild _
              (spawn_reload_child-OneChild t.spawn _ (stop_child-ended t.has_exited _ h)))
        | inr other ↦ rw other (inl h)
      ]

  waited :
      (t : Turn) (s : Supervisor) (status : Str ⊎ Option Str)
      → child_of s.log ≡ some true
      → t.status ≡ status
      → OneChild (turn config ignore_globs t s)
  unfolding turn
  waited t s (inl e) h w = rw w (inl h)
  waited t s (inr none) h w = rw w (receive-OneChild t (s.queue ++ t.arrived) s.log h)
  waited t s (inr (some status)) h w = elim (Bool-cases config.ignore_worker_failure) [
    | inl ignore ↦ rw (w, ignore) (spawn_reload_child-OneChild t.spawn (note exited s) (gone s h))
    | inr strict ↦ rw (w, strict) (inr (gone s h, refl))
  ]

  supervise-OneChild :
      (turns : List Turn) (s : Supervisor)
      → child_of s.log ≡ some true
      → OneChild (supervise config ignore_globs turns s)
  unfolding supervise
  supervise-OneChild [] s h = inl h
  supervise-OneChild (t ∷ turns) s h =
      go_on-OneChild (supervise config ignore_globs turns) (supervise-OneChild turns)
        (turn config ignore_globs t s) (waited t s t.status h refl)

-- Before the first child, and with it.
first-OneChild :
    (first : Option Str) (config : ReloadConfig) (globs : Option (FilePath → Bool))
    (turns : List Turn)
    → OneChild (after_first first config globs turns)
unfolding after_first spawn_reload_child child_of
first-OneChild (some e) config globs turns = inr (refl, refl)
first-OneChild none config globs turns =
    supervise-OneChild config globs turns (note spawned idle) refl

watched-OneChild :
    (error : Option Str) (r : Option Str × Supervisor) → OneChild r → OneChild (after_watch error r)
unfolding child_of
watched-OneChild (some e) r h = inr (refl, refl)
watched-OneChild none r h = h

made-OneChild :
    (watcher : Str ⊎ (FilePath → Option Str)) (first : Option Str) (config : ReloadConfig)
    (globs : Option (FilePath → Bool)) (turns : List Turn)
    → OneChild (after_globs watcher first config globs turns)
unfolding after_globs child_of
made-OneChild (inl e) first config globs turns = inr (refl, refl)
made-OneChild (inr watch) first config globs turns =
    watched-OneChild (watch_all watch config.watch_dirs) _ (first-OneChild first config globs turns)

with_globs-OneChild :
    (globs : Str ⊎ Option (FilePath → Bool)) (watcher : Str ⊎ (FilePath → Option Str))
    (first : Option Str) (config : ReloadConfig) (turns : List Turn)
    → OneChild (with_globs globs watcher first config turns)
unfolding with_globs child_of
with_globs-OneChild (inl e) watcher first config turns = inr (refl, refl)
with_globs-OneChild (inr globs) watcher first config turns =
    made-OneChild watcher first config globs turns

-- Whatever the watcher, the system and the configuration do, in whatever turns, the supervisor has
-- at most one child at a time and ends none that is not there; as long as it goes on, there is
-- exactly one.
pub run_reload_supervisor-OneChild :
    (globset : Globset) (watcher : Str ⊎ (FilePath → Option Str)) (first : Option Str)
    (config : ReloadConfig) (turns : List Turn)
    → OneChild (run_reload_supervisor globset watcher first config turns)
unfolding run_reload_supervisor
run_reload_supervisor-OneChild globset watcher first config turns =
    with_globs-OneChild (build_reload_ignore_globs globset config) watcher first config turns
