-- ===== src/Agent/Policy/Links.antt =====
-- internal/agent/policy.go: the active link and the published directories.
use m_waf.Common.{
  String, clean, dir, erase, if◌then◌else◌, insert, is_some, itoa, join_path, lookup, not,
  starts_with, ◌==◌, ◌||◌, ◌⧺◌,
}
use m_waf.Agent.Host.{
  Files, Node, World, absent, directory, inspect_failed, link, migrate_failed, not_a_directory,
  readlink_failed, special, stage_failed, symlink_failed, target_not_absolute,
}
use m_waf.Agent.Host.Exec.{Exec, catch, modify, pure, raise, syscall, ◌>>◌}
use m_waf.Agent.Policy.Server.{Applier, active_path, revisions_path}

-- os.Symlink to a temporary name and os.Rename over the active path, which no directory may hold
unfoldable pub put_link : String → Node → Exec (Unit {0})
put_link target (directory files) = raise symlink_failed
put_link target node = modify (λ w. record w { active = link target })

unfoldable pub replace_symlink : String → Exec (Unit {0})
unfolding syscall put_link
replace_symlink target =
    if target == "" || not (starts_with target "/")
    then raise target_not_absolute
    else (do syscall symlink_failed; syscall symlink_failed; λ w. put_link target w.active w)

abbrev pub insert_dir : String → Files → World → World
insert_dir path files w = record w { dirs = insert path files w.dirs }

abbrev pub legacy_path : Applier → String
legacy_path p = join_path (revisions_path p) ("legacy-" ⧺ itoa p.now)

unfoldable pub inspect_node : Applier → Node → Exec String
unfolding syscall
inspect_node p absent = raise inspect_failed
inspect_node p (link target) = do
  syscall readlink_failed
  pure (if starts_with target "/" then clean target else join_path (dir (active_path p)) target)
inspect_node p special = raise not_a_directory
inspect_node p (directory files) = do
  syscall migrate_failed
  λ w.
      if is_some (lookup (legacy_path p) w.dirs)
      then raise migrate_failed w
      else (do
        modify (λ w. insert_dir (legacy_path p) files (record w { active = absent }))
        pure (legacy_path p))
          w

-- the target of the active link; a plain directory is moved among the revisions first
unfoldable pub prepare_active_link : Applier → Exec String
unfolding syscall inspect_node
prepare_active_link p = do syscall inspect_failed; λ w. inspect_node p w.active w

-- one os.RemoveAll of a published directory; its error is dropped
unfoldable pub remove_dir : String → Exec (Unit {0})
unfolding syscall
remove_dir path =
    catch (syscall stage_failed) (λ e. pure tt)
      (λ u. modify (λ w. record w { dirs = erase path w.dirs }))
