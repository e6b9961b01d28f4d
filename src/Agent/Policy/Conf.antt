-- ===== src/Agent/Policy/Conf.antt =====
-- internal/agent/policy.go: the single configuration file of the first artifact format.
use m_waf.Common.{
  Bool, Bytes, Dict, Option, String, [], base, err, false, if◌then◌else◌, insert, lookup, nat_eq,
  none, ok, or_err, some, true, ◌&&◌, ◌∷◌,
}
use m_waf.Agent.Host.{
  ApplyError, Files, Node, World, absent, backup_failed, directory, link, read_failed,
  rollback_reload_failed, rollback_write_failed, rolled_back, special, write_failed,
}
use m_waf.Agent.Host.Exec.{Exec, catch, lift, modify, pure, raise, syscall, wrap, ◌>>=◌, ◌>>◌}
use m_waf.Agent.Policy.Server.{Applier, test_and_reload}

-- the content of the policy file, which lies in the active directory
node_file : String → Dict Files → Node → Option Bytes
node_file name dirs absent = none
node_file name dirs special = none
node_file name dirs (directory files) = lookup name files
node_file name dirs (link target) = elim (lookup target dirs) [
  | none ↦ none
  | some files ↦ lookup name files
]

unfoldable pub read_policy : Applier → World → Option Bytes
unfolding node_file
read_policy p w = node_file (base p.policy_path) w.dirs w.active

-- atomicWrite of the policy file: no directory is made behind a dangling link or another file
put_file : String → Bytes → Node → World → Option World
put_file name raw absent w = some (record w { active = directory ((name, raw) ∷ []) })
put_file name raw special w = none
put_file name raw (directory files) w =
    some (record w { active = directory (insert name raw files) })
put_file name raw (link target) w = elim (lookup target w.dirs) [
  | none ↦ none
  | some files ↦ some (record w { dirs = insert target (insert name raw files) w.dirs })
]

unfoldable pub put_policy : ApplyError → Option World → Exec (Unit {0})
put_policy e none w = (err e, w)
put_policy e (some w') w = (ok tt, w')

unfoldable pub write_policy : Applier → Bytes → Exec (Unit {0})
unfolding syscall put_file put_policy
write_policy p raw = do
  syscall write_failed
  λ w. put_policy write_failed (put_file (base p.policy_path) raw w.active w) w

-- os.ReadFile
unfoldable pub fetch_policy : Applier → Exec Bytes
unfolding syscall read_policy
fetch_policy p = do syscall read_failed; λ w. lift (or_err (read_policy p w) read_failed) w

bytes_eq : Bytes → Bytes → Bool
bytes_eq [] [] = true
bytes_eq [] (_ ∷ _) = false
bytes_eq (_ ∷ _) [] = false
bytes_eq (a ∷ as') (b ∷ bs) = nat_eq a b && bytes_eq as' bs

unfoldable pub reload_or_rewrite : Applier → String → Bytes → Exec (Unit {0})
reload_or_rewrite p web_server previous =
    catch (test_and_reload p web_server)
      (λ e. do
        wrap (rollback_write_failed e) (write_policy p previous)
        wrap (rollback_reload_failed e) (test_and_reload p web_server)
        raise (rolled_back e))
      pure

-- the single configuration file of the first format
unfoldable pub apply_conf : Applier → String → Bytes → Exec (Unit {0})
unfolding bytes_eq syscall
apply_conf p web_server artifact = do
  previous ← fetch_policy p
  if bytes_eq previous artifact then pure tt else (do
    syscall backup_failed
    modify (λ w. record w { previous_policy = some previous })
    write_policy p artifact
    reload_or_rewrite p web_server previous)
