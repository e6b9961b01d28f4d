-- ===== src/Agent/Policy/Steps.antt =====
-- What each step of internal/agent/policy.go does to the active node and to the published
-- directories, as triples.
use m_waf.Common.{
  Bool, Bytes, Dict, List, Option, String, [], base, erase, err, ext, false, if◌then◌else◌, insert,
  none, not, ok, refl, some, starts_with, true, ◌&&◌, ◌++◌, ◌==◌, ◌||◌, ◌∷◌, ◌≡◌,
}
use m_waf.Agent.Host.{
  ApplyError, Files, Node, World, absent, activate_failed, command_failed, directory, hooks_invalid,
  link, metadata_unsafe, restore_failed, rollback_reload_failed, rollback_switch_failed,
  rollback_write_failed, rolled_back, special, stage_failed, symlink_failed, target_not_absolute,
  unsupported_web_server, write_failed,
}
use m_waf.Agent.Host.Exec.{
  Exec, Post, Triple, Triple-bind, Triple-catch, later_faults, next_fault, pure, raise, syscall,
  ◌>>◌,
}
use m_waf.Agent.Policy.Server.{
  Applier, hook_commands, normalize_control, run, run_all, run_server, server_commands,
  test_and_reload, validate_control_hooks,
}
use m_waf.Agent.Policy.Links.{put_link, remove_dir, replace_symlink}
use m_waf.Agent.Policy.Revision.{note_previous, stage, stage_metadata}

-- Not one of the errors that wrap another one.
abbrev pub IsPlain : ApplyError → Type 0
IsPlain (activate_failed e) = ⊥
IsPlain (rolled_back e) = ⊥
IsPlain (restore_failed e f) = ⊥
IsPlain (rollback_write_failed e f) = ⊥
IsPlain (rollback_switch_failed e f) = ⊥
IsPlain (rollback_reload_failed e f) = ⊥
IsPlain _ = Unit

-- The active node, and something about the directories.
abbrev pub Now : Node → (Dict Files → Type 0) → World → Type 0
Now n D w = (w.active ≡ n) × D w.dirs

abbrev pub PlainNow : Node → (Dict Files → Type 0) → ApplyError → World → Type 0
PlainNow n D e w = IsPlain e × Now n D w

-- a step that changes neither, whether it fails or not
abbrev pub Keeps : {A : Type 0} → Node → (Dict Files → Type 0) → Exec A → Type 0
Keeps n D m = Triple (Now n D) m (λ a. Now n D) (PlainNow n D)

module _ (n : Node) (D : Dict Files → Type 0) where
  pub syscall-Keeps : (e : ApplyError) → IsPlain e → Keeps n D (syscall e)
  unfolding syscall
  syscall-Keeps e h = record { at = λ w k. split (next_fault w.faults) w k }
    where
      split :
          (b : Bool) (w : World)
          → Now n D w
          → Post
              (λ (a : Unit {0}). Now n D)
              (PlainNow n D)
              (if b
                then (err e, record w { faults = later_faults w.faults })
                else (ok tt, record w { faults = later_faults w.faults }))
      split true w k = (h, k)
      split false w k = k

  pub raise-Keeps : {A : Type 0} (e : ApplyError) → IsPlain e → Keeps {A = A} n D (raise e)
  raise-Keeps e h = record { at = λ w k. (h, k) }

  pub pure-Keeps : {A : Type 0} (a : A) → Keeps n D (pure a)
  pure-Keeps a = record { at = λ w k. k }

  run-Keeps : (argv : List String) → Keeps n D (run argv)
  unfolding run
  run-Keeps argv = record {
    at = λ w k.
        (syscall-Keeps (command_failed argv) tt).at
          (record w { commands = w.commands ++ record { argv = argv; active = w.active } ∷ [] }) k;
  }

  run_all-Keeps : (commands : List (List String)) → Keeps n D (run_all commands)
  unfolding run_all
  run_all-Keeps [] = pure-Keeps tt
  run_all-Keeps (argv ∷ rest) = Triple-bind (run-Keeps argv) (λ u. run_all-Keeps rest)

  run_server-Keeps : (commands : Option (List (List String))) → Keeps n D (run_server commands)
  unfolding run_server
  run_server-Keeps none = raise-Keeps unsupported_web_server tt
  run_server-Keeps (some commands) = run_all-Keeps commands

  if-Keeps :
      {A : Type 0} (b : Bool) (m k : Exec A)
      → Keeps n D m
      → Keeps n D k
      → Keeps n D (if b then m else k)
  if-Keeps true m k hm hk = hm
  if-Keeps false m k hm hk = hk

  pub test_and_reload-Keeps :
      (p : Applier) (web_server : String) → Keeps n D (test_and_reload p web_server)
  unfolding test_and_reload validate_control_hooks
  test_and_reload-Keeps p web_server =
      if-Keeps (normalize_control p.web_server_control == "hooks") _ _
        (Triple-bind
          (if-Keeps (not (web_server == "apache") && not (web_server == "nginx")) _ _
            (raise-Keeps hooks_invalid tt) (syscall-Keeps hooks_invalid tt))
          (λ u. run_all-Keeps (hook_commands web_server)))
        (run_server-Keeps (server_commands p web_server))

  pub stage-Keeps : (files : Dict Bytes) (staged : Files) → Keeps n D (stage files staged)
  unfolding stage
  stage-Keeps [] staged = pure-Keeps staged
  stage-Keeps ((name, content) ∷ rest) staged =
      Triple-bind (syscall-Keeps stage_failed tt)
        (λ u. stage-Keeps rest (insert name content staged))

  pub stage_metadata-Keeps :
      (files : Dict Bytes) (staged : Files) → Keeps n D (stage_metadata files staged)
  unfolding stage_metadata
  stage_metadata-Keeps [] staged = pure-Keeps staged
  stage_metadata-Keeps ((name, content) ∷ rest) staged =
      if-Keeps (not (base name == name) || not (ext name == ".json")) _ _
        (raise-Keeps metadata_unsafe tt)
        (Triple-bind (syscall-Keeps stage_failed tt)
          (λ u. stage_metadata-Keeps rest (insert name content staged)))

  pub note_previous-Triple :
      {R : ApplyError → World → Type 0} (previous : String)
      → Triple (Now n D) (note_previous previous) (λ u. Now n D) R
  unfolding note_previous
  note_previous-Triple previous =
      Triple-catch (syscall-Keeps write_failed tt) (λ e. record { at = λ w k. k.1 })
        (λ u. record { at = λ w k. k })

  -- A link replaces what is active, unless the step fails.
  pub replace_symlink-Triple :
      (target : String)
      → Triple (Now n D) (replace_symlink target) (λ u. Now (link target) D) (PlainNow n D)
  unfolding replace_symlink put_link
  replace_symlink-Triple target = pick (target == "" || not (starts_with target "/"))
    where
      put :
          (m : Node) (w : World)
          → w.active ≡ n
          → D w.dirs
          → Post (λ (u : Unit {0}). Now (link target) D) (PlainNow n D) (put_link target m w)
      put absent w a d = (refl, d)
      put (directory files) w a d = (tt, (a, d))
      put (link t) w a d = (refl, d)
      put special w a d = (refl, d)

      pick :
          (b : Bool)
          → Triple
              (Now n D)
              (if b
                then raise target_not_absolute
                else (syscall symlink_failed
                    >> (syscall symlink_failed >> λ w. put_link target w.active w)))
              (λ u. Now (link target) D)
              (PlainNow n D)
      pick true = record { at = λ w k. (tt, k) }
      pick false = Triple-bind (syscall-Keeps symlink_failed tt) (λ u.
          Triple-bind (syscall-Keeps symlink_failed tt)
            (λ v. record { at = λ w k. put w.active w k.0 k.1 }))

  -- A directory is removed, or removing it fails and nothing is said of it.
  pub remove_dir-Triple :
      {R : ApplyError → World → Type 0} (path : String)
      → ((ds : Dict Files) → D ds → D (erase path ds))
      → Triple (Now n D) (remove_dir path) (λ u. Now n D) R
  unfolding remove_dir
  remove_dir-Triple path closed =
      Triple-catch (syscall-Keeps stage_failed tt) (λ e. record { at = λ w k. k.1 })
        (λ u. record { at = λ w k. (k.0, closed w.dirs k.1) })
