-- ===== src/Agent/Host.antt =====
-- What the policy applier of internal/agent sees of its host: the directory tree around the policy,
-- the web server's commands, and the faults of system calls. `atomicWrite` (client.go) writes a
-- temporary file and renames it, so it fails with no effect or replaces the file.
pub mod Exec
use m_waf.Common.{Bool, Bytes, Dict, List, Option, String}

abbrev pub Files : Type 0
Files = Dict Bytes

-- What stands at the path of the active policy directory.
pub data Node : Type 0 where
  absent : Node
  directory : Files → Node
  link : String → Node
  special : Node

-- A command that was run, and what was active at that moment.
pub record Command : Type 0 where
  pub argv : List String
  pub active : Node

pub record World : Type 0 where
  pub active : Node
  -- the directories under revisions/, by their absolute paths
  pub dirs : Dict Files
  pub previous_policy : Option Bytes
  pub previous_revision : Option String
  pub commands : List Command
  -- whether the next calls fail, in turn; behind the end of the list they succeed
  pub faults : List Bool

pub data ApplyError : Type 0 where
  unsupported_mode unsupported_format size_invalid checksum_mismatch : ApplyError
  key_unreadable key_undecodable key_unparsable key_not_ed25519 : ApplyError
  signature_undecodable signature_invalid : ApplyError
  split_references_invalid split_formats_differ override_differs composition_failed : ApplyError
  parse_failed marshal_failed : ApplyError
  duplicate_file : String → ApplyError
  read_failed backup_failed write_failed : ApplyError
  revision_unsafe active_unsafe mkdir_failed stage_failed metadata_unsafe : ApplyError
  revision_exists lstat_failed publish_failed inspect_failed readlink_failed : ApplyError
  not_a_directory migrate_failed target_not_absolute symlink_failed : ApplyError
  hooks_invalid unsupported_web_server : ApplyError
  command_failed : List String → ApplyError
  -- the error that came first, then the one met while undoing
  activate_failed rolled_back : ApplyError → ApplyError
  restore_failed rollback_write_failed rollback_switch_failed : ApplyError → ApplyError → ApplyError
  rollback_reload_failed : ApplyError → ApplyError → ApplyError
