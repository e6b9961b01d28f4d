-- ===== src/Agent/Policy/Revision.antt =====
-- internal/agent/policy.go: applyBundleFiles, from staging to the switch and its rollback. A staging
-- directory is the map of its files until it is renamed; the deferred RemoveAll that clears it is
-- not modelled, nor are partly removed directories.
use m_waf.Common.{
  Bytes, Dict, Result, String, [], base, bind, bytes, err, ext, if◌then◌else◌, insert, is_some,
  lookup, not, ok, or_err, some, ◌++◌, ◌==◌, ◌||◌, ◌∷◌, ◌⧺◌,
}
use m_waf.Agent.Host.{
  ApplyError, Files, activate_failed, active_unsafe, lstat_failed, marshal_failed, metadata_unsafe,
  mkdir_failed, parse_failed, publish_failed, restore_failed, revision_exists, revision_unsafe,
  rollback_reload_failed, rollback_switch_failed, rolled_back, stage_failed, write_failed,
}
use m_waf.Agent.Host.Exec.{Exec, catch, lift, modify, pure, raise, syscall, wrap, ◌>>=◌, ◌>>◌}
use m_waf.Agent.Policy.Server.{
  Applier, DesiredState, active_path, revision_path, test_and_reload, valid_revision_name,
}
use m_waf.Agent.Policy.Links.{insert_dir, prepare_active_link, remove_dir, replace_symlink}
use m_waf.Bundle.Types.{Manifest}
use m_waf.Bundle.Parse.{parse}

-- the loop that writes into the staging directory
unfoldable pub stage : Dict Bytes → Files → Exec Files
unfolding syscall
stage [] staged = pure staged
stage ((name, content) ∷ rest) staged = do
  syscall stage_failed
  stage rest (insert name content staged)

unfoldable pub stage_metadata : Dict Bytes → Files → Exec Files
unfolding syscall
stage_metadata [] staged = pure staged
stage_metadata ((name, content) ∷ rest) staged =
    if not (base name == name) || not (ext name == ".json")
    then raise metadata_unsafe
    else (do syscall stage_failed; stage_metadata rest (insert name content staged))

abbrev pub compatibility_entry : Bytes
compatibility_entry = bytes "# Compatibility entry for rollback packages. Managed by mwaf-agent.\n"

-- what is staged for a bundle
unfoldable pub stage_all : Dict Bytes → Dict Bytes → Exec Files
unfolding stage stage_metadata syscall
stage_all files metadata = do
  staged ← stage files []
  staged' ← stage_metadata metadata staged
  syscall stage_failed
  pure (insert "main.conf" compatibility_entry staged')

-- os.Lstat and os.Rename of the staging directory
unfoldable pub publish : String → Files → Exec (Unit {0})
unfolding syscall
publish path staged = do
  λ w. if is_some (lookup path w.dirs) then raise revision_exists w else pure tt w
  syscall lstat_failed
  syscall publish_failed
  modify (insert_dir path staged)

-- the switch of the link; if it fails the directory is removed and the old link is put back
unfoldable pub activate : String → String → Exec (Unit {0})
activate path previous =
    catch (replace_symlink path)
      (λ e. do
        remove_dir path
        wrap (restore_failed e) (replace_symlink previous)
        raise (activate_failed e))
      pure

-- the test of the web server; if it fails the old link is put back and the server reloaded
unfoldable pub reload_or_rollback : Applier → String → String → String → Exec (Unit {0})
reload_or_rollback p web_server path previous =
    catch (test_and_reload p web_server)
      (λ e. do
        wrap (rollback_switch_failed e) (replace_symlink previous)
        wrap (rollback_reload_failed e) (test_and_reload p web_server)
        remove_dir path
        raise (rolled_back e))
      pure

-- the note of the previous revision, whose error is dropped
unfoldable pub note_previous : String → Exec (Unit {0})
unfolding syscall
note_previous previous =
    catch (syscall write_failed) (λ e. pure tt)
      (λ u. modify (λ w. record w { previous_revision = some (previous ⧺ "\n") }))

-- from the published directory on
unfoldable pub switch_revision : Applier → String → String → Exec (Unit {0})
switch_revision p web_server path = do
  previous ← catch (prepare_active_link p) (λ e. do remove_dir path; raise e) pure
  activate path previous
  reload_or_rollback p web_server path previous
  note_previous previous

unfoldable pub apply_bundle_files :
    Applier → String → DesiredState → Dict Bytes → Dict Bytes → Exec (Unit {0})
apply_bundle_files p web_server state files metadata =
    if not (valid_revision_name state.revision_id)
    then raise revision_unsafe
    else if active_path p == "." || active_path p == "/"
    then raise active_unsafe
    else (do
      syscall mkdir_failed
      syscall mkdir_failed
      staged ← stage_all files metadata
      publish (revision_path p state) staged
      switch_revision p web_server (revision_path p state))

-- json.MarshalIndent and the newline
unfoldable pub manifest_file : Applier → Manifest → Result ApplyError Bytes
manifest_file p m =
    bind (or_err (p.crypto.codec.marshal m) marshal_failed) λ raw. ok (raw ++ 10 ∷ [])

-- the error of policybundle.Parse, whichever it is
abbrev pub of_parse : {E A : Type 0} → Result E A → Result ApplyError A
of_parse (ok r) = ok r
of_parse (err e) = err parse_failed

unfoldable pub parsed : Applier → Bytes → Result ApplyError (Manifest × Dict Bytes)
parsed p artifact = of_parse (parse p.crypto.codec artifact)

unfoldable pub apply_bundle : Applier → String → DesiredState → Bytes → Exec (Unit {0})
unfolding manifest_file parsed
apply_bundle p web_server state artifact = do
  r ← lift (parsed p artifact)
  raw ← lift (manifest_file p r.0)
  apply_bundle_files p web_server state r.1 (("manifest.json", raw) ∷ [])
