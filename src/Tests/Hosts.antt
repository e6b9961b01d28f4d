-- ===== src/Tests/Hosts.antt =====
-- A split policy and a bundle put in force on a concrete host, and an audit log of two lines
-- (internal/agent/policy.go, internal/agent/audit.go).
use m_waf.Common.{
  Bool-cases, Bytes, Dict, List, [], ap, base, clean, dir, equal_fold, erase, err, ext,
  if◌then◌else◌, inl, inr, insert, join_path, length, lookup, nat_eq, nat_eq_iff, ok, refl, some,
  sym, ℕ, ◌++◌, ◌+◌, ◌∷◌, ◌≡◌, ◌≤◌,
}
use m_waf.Bundle.Types.{contains_name}
use m_waf.Agent.Host.{ApplyError}
use m_waf.Agent.Host.Exec.{later_faults, next_fault, syscall}
use m_waf.Agent.Verify.{
  check_block, check_key_file, check_signature, ed25519_of, verify_artifact, verify_signature,
}
use m_waf.Agent.Policy.Server.{
  normalize_control, revision_path, run, run_all, run_server, server_commands, test_and_reload,
  valid_revision_name,
}
use m_waf.Agent.Policy.Links.{
  inspect_node, prepare_active_link, put_link, remove_dir, replace_symlink,
}
use m_waf.Agent.Policy.Revision.{
  activate, apply_bundle_files, manifest_file, note_previous, parsed, publish, reload_or_rollback,
  stage, stage_all, stage_metadata, switch_revision,
}
use m_waf.Agent.Policy.Split.{
  apply_split, compose, composition_refused, formats_differ, manifest_files, merge_files,
  override_refused, references, sizes_refused, split_revision, verify_both,
}
use m_waf.Agent.Policy.Composed.{IsApplied, apply_split-IsApplied}
use m_waf.Agent.Policy.Applied.{Settled, apply_bundle_files-Settled, staged_files}
use m_waf.Agent.Policy.Authentic.{apply-unauthentic, apply_bundle_files_twice}
use m_waf.Agent.Policy.{apply}
use m_waf.Agent.Audit.{
  AuditPosition, Line, Log, empty_position, opened, read_batch, read_lines, start_position,
}
use m_waf.Agent.Audit.Batches.{IsCoherent, left_at, read_batch_exact}
use m_waf.Bundle.Parse.{
  allowed, check_entry, complete, core_files, incomplete, limited, manifest_refused, out_of_order,
  parse, read_entries, refused, validity, verify, verify_files, with_encoded, with_entries,
  with_files,
}
use m_waf.Tests.Servers.{applier, desired, forged, forged-unauthentic, host}

apply_split-IsApplied_example :
    IsApplied applier "nginx" desired
      (1 ∷ [])
      (2 ∷ [])
      host
      (apply_split applier "nginx" desired (1 ∷ []) (2 ∷ []) host)
apply_split-IsApplied_example = apply_split-IsApplied applier "nginx" desired (1 ∷ []) (2 ∷ []) host

applying : Unit {0}
unfolding apply_bundle_files stage_all stage stage_metadata publish switch_revision
    prepare_active_link inspect_node activate reload_or_rollback note_previous replace_symlink
    put_link remove_dir test_and_reload server_commands run_server run_all run syscall next_fault
    later_faults normalize_control valid_revision_name lookup insert clean dir join_path base ext
applying = tt

abbrev some_files : Dict Bytes
some_files = ("00-engine.conf", 7 ∷ []) ∷ []

applied : (apply_bundle_files applier "nginx" desired some_files [] host).0 ≡ ok tt
unfolding applying
applied = refl

apply_bundle_files-Settled_example :
    Settled applier
      (revision_path applier desired)
      (staged_files some_files [])
      host
      (apply_bundle_files applier "nginx" desired some_files [] host)
apply_bundle_files-Settled_example =
    apply_bundle_files-Settled applier "nginx" desired some_files [] host

apply_bundle_files_twice_example :
    (e : ApplyError) × ((apply_bundle_files applier "nginx" desired some_files []
        (apply_bundle_files applier "nginx" desired some_files [] host).1).0
      ≡ err e)
apply_bundle_files_twice_example =
    apply_bundle_files_twice applier "nginx" desired some_files [] host applied

apply-unauthentic_example :
    (e : ApplyError) × (apply applier "nginx" forged (1 ∷ []) host ≡ (err e, host))
apply-unauthentic_example =
    apply-unauthentic applier "nginx" forged (1 ∷ []) host forged-unauthentic

-- the base and the override, put in force
splitting : Unit {0}
unfolding applying apply_split split_revision references formats_differ sizes_refused verify_both
    verify_artifact verify_signature check_key_file check_block check_signature ed25519_of
    override_refused compose parsed parse with_entries read_entries refused allowed limited complete
    with_files with_encoded verify manifest_refused validity core_files verify_files check_entry
    out_of_order incomplete contains_name erase equal_fold composition_refused merge_files
    manifest_files manifest_file
splitting = tt

split_applied : (apply_split applier "nginx" desired (1 ∷ []) (2 ∷ []) host).0 ≡ ok tt
unfolding splitting
split_applied = refl

-- a log of two lines, with three events and one
abbrev first_line : Line ℕ
first_line = record { size = 10; events = 1 ∷ 2 ∷ 3 ∷ [] }

abbrev second_line : Line ℕ
second_line = record { size = 5; events = 4 ∷ [] }

lines_at : ℕ → List (Line ℕ)
lines_at o =
    if nat_eq o 0
    then first_line ∷ second_line ∷ []
    else if nat_eq o 10
    then second_line ∷ []
    else []

log : Log ℕ
unfolding lines_at
log = record { device = 1; inode = 2; size = 15; lines_from = lines_at }

first_of_lines : Line ℕ → List (Line ℕ) → Line ℕ
first_of_lines other [] = other
first_of_lines other (l ∷ _) = l

other_lines : List (Line ℕ) → List (Line ℕ)
other_lines [] = []
other_lines (_ ∷ ls) = ls

at_start :
    (o : ℕ) (line : Line ℕ) (rest : List (Line ℕ))
    → o ≡ 0
    → first_line ∷ second_line ∷ [] ≡ line ∷ rest
    → lines_at (o + line.size) ≡ rest
unfolding lines_at first_of_lines other_lines
at_start o line rest e h =
    rw (e, sym (ap (first_of_lines first_line) h), sym (ap other_lines h)) refl

at_second :
    (o : ℕ) (line : Line ℕ) (rest : List (Line ℕ))
    → o ≡ 10
    → second_line ∷ [] ≡ line ∷ rest
    → lines_at (o + line.size) ≡ rest
unfolding lines_at first_of_lines other_lines
at_second o line rest e h =
    rw (e, sym (ap (first_of_lines first_line) h), sym (ap other_lines h)) refl

no_line :
    (o : ℕ) (line : Line ℕ) (rest : List (Line ℕ))
    → [] ≡ line ∷ rest
    → lines_at (o + line.size) ≡ rest
no_line o line rest h = cc

log-IsCoherent : IsCoherent log
unfolding log lines_at
log-IsCoherent = record { next_line = next_line_of }
  where
    next_line_of :
        (o : ℕ) (line : Line ℕ) (rest : List (Line ℕ))
        → lines_at o ≡ line ∷ rest
        → lines_at (o + line.size) ≡ rest
    next_line_of o line rest h = elim (Bool-cases (nat_eq o 0)) [
      | inl z ↦ at_start o line rest ((nat_eq_iff o 0).0 z) (rw z at h)
      | inr nz ↦ elim (Bool-cases (nat_eq o 10)) [
        | inl t ↦ at_second o line rest ((nat_eq_iff o 10).0 t) (rw (nz, t) at h)
        | inr nt ↦ no_line o line rest (rw (nz, nt) at h)
      ]
    ]

batch_read :
    read_batch (opened log) empty_position 2
    ≡ some (1 ∷ 2 ∷ [], record { device = 1; inode = 2; offset = 0; message_offset = 2 })
unfolding log lines_at read_batch read_lines start_position
batch_read = refl

abbrev two_events : List ℕ
two_events = 1 ∷ 2 ∷ []

abbrev behind_two : AuditPosition
behind_two = record { device = 1; inode = 2; offset = 0; message_offset = 2 }

read_batch_exact_example :
    (length two_events ≤ 2)
    × (two_events ++ left_at log behind_two ≡ left_at log (start_position empty_position log))
read_batch_exact_example =
    read_batch_exact log empty_position 2 two_events behind_two log-IsCoherent batch_read
