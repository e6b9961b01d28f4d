-- ===== src/Bundle/Parse.antt =====
-- Parse of internal/policybundle/bundle.go: what the Agent accepts as a bundle.
pub mod Reading
pub mod Listing
pub mod Accept
use m_waf.Common.{
  Bool, Bytes, Dict, List, Option, Result, String, [], bind, clean, drop, equal_fold, erase, err,
  false, if◌then◌else◌, insert, int_eq, is_negative, is_some, leb, len, length, lookup, ltb, nat_eq,
  none, not, ok, or_err, pos, pos_part, refuse, some, starts_with, take, true, ℕ, ℤ, ◌&&◌, ◌+◌,
  ◌==◌, ◌||◌, ◌∷◌,
}
use m_waf.Bundle.Types.{
  BundleError, FileManifest, Manifest, base_ordered_files, contains_name, core_order, crs_payload,
  failed_verification, format_base, format_override, format_v2, format_v3, gzip_failed,
  invalid_crs_path, invalid_file, manifest_invalid, manifest_missing, manifest_undecodable,
  ordered_files, override_ordered_files, read_entry_failed, size_invalid, tar_failed,
  unexpected_file, unlisted_files, unsafe_entry,
}
use m_waf.Bundle.Codec.{Codec, Entries, Header, broken, entry, eof}
use m_waf.Bundle.Build.{mib}

abbrev Fallible : Type 0 → Type 0
Fallible A = Result BundleError A

unfoldable pub allowed : String → Bool
unfolding contains_name
allowed name =
    name == "manifest.json"
    || contains_name ordered_files name
    || contains_name base_ordered_files name
    || contains_name override_ordered_files name
    || starts_with name "crs/"

-- the test on a header, with the files and the total size so far
unfoldable pub refused : Header → ℕ → Dict Bytes → Bool
refused h total files =
    not h.regular
    || not (clean h.name == h.name)
    || starts_with (clean h.name) "../"
    || not (allowed h.name)
    || is_negative h.size
    || ltb (mib 8) (pos_part h.size)
    || ltb (mib 64) (total + pos_part h.size)
    || is_some (lookup h.name files)
    || leb 4096 (length files)

-- io.ReadAll(io.LimitReader(archive, 8<<20+1))
unfoldable pub limited : Option Bytes → Option Bytes
limited none = none
limited (some raw) = some (take (mib 8 + 1) raw)

-- the content, unless reading failed or its length is not the header's
unfoldable pub complete : Option Bytes → ℤ → Option Bytes
unfolding limited
complete content size = elim (limited content) [
  | none ↦ none
  | some raw ↦ if int_eq (pos (length raw)) size then some raw else none
]

-- the loop over the entries
unfoldable pub read_entries : Entries → ℕ → Dict Bytes → Fallible (Dict Bytes)
read_entries eof total files = ok files
read_entries broken total files = err tar_failed
read_entries (entry h content rest) total files =
    refuse (refused h total files) (unsafe_entry h.name) (
      bind (or_err (complete content h.size) read_entry_failed)
        λ raw. read_entries rest (total + length raw) (insert h.name raw files))

pub record Validity : Type 0 where
  pub v2 : Bool
  pub v3 : Bool
  pub base : Bool
  pub override : Bool

unfoldable pub validity : Manifest → Validity
validity m = record {
  v2 =
      int_eq m.schema_version (pos 2)
      && m.artifact_format == format_v2
      && nat_eq (length m.files) (length ordered_files);
  v3 =
      int_eq m.schema_version (pos 3)
      && m.artifact_format == format_v3
      && ltb (length ordered_files) (length m.files);
  base =
      int_eq m.schema_version (pos 1)
      && m.artifact_format == format_base
      && ltb (length base_ordered_files) (length m.files)
      && not (m.base_policy_id == "");
  override =
      int_eq m.schema_version (pos 1)
      && m.artifact_format == format_override
      && nat_eq (length m.files) (length override_ordered_files)
      && not (m.base_policy_id == "")
      && nat_eq (len m.base_artifact_sha256) 64
      && nat_eq (len m.override_config_sha256) 64
      && nat_eq (len m.effective_config_sha256) 64
      && nat_eq (len m.validation_digest) 64;
}

unfoldable pub manifest_refused : Manifest → Bool
unfolding validity
manifest_refused m =
    let v = validity m in
    not v.v2 && not v.v3 && not v.base && not v.override || m.policy_source.id == ""

unfoldable pub core_files : Validity → List String
core_files v =
    if v.base
    then base_ordered_files
    else if v.override
    then override_ordered_files
    else ordered_files

-- `index < len(coreFiles) && entry.Path != coreFiles[index]`, on the core files from `index` on
unfoldable pub out_of_order : List String → String → Bool
out_of_order [] path = false
out_of_order (core ∷ _) path = not (path == core)

abbrev pub is_empty {ℓ} : {A : Type ℓ} → List A → Bool
is_empty [] = true
is_empty (_ ∷ _) = false

-- the test behind the loop, on the paths seen
unfoldable pub incomplete : Validity → List String → Dict Bytes → Bool
incomplete v seen files =
    not (nat_eq (length seen + 1) (length files))
    || (v.v3 || v.base) && not (is_some (lookup "crs/crs-setup.conf" files))

module _ (c : Codec) where
  -- one round of the loop over `manifest.Files`, up to the digest
  unfoldable pub check_entry :
      Validity → List String → List String → Dict Bytes → FileManifest → Fallible (Unit {0})
  check_entry v core seen files e =
      refuse (contains_name seen e.path || not (is_some (lookup e.path files))) invalid_file (
        refuse (out_of_order core e.path) core_order (
          refuse (v.v2 && not (contains_name ordered_files e.path)) crs_payload (
            refuse ((v.v3 || v.base) && is_empty core && not (starts_with e.path "crs/"))
              invalid_crs_path
              (refuse (v.override && not (contains_name override_ordered_files e.path))
                unexpected_file
                (bind (or_err (lookup e.path files) invalid_file) λ content.
                  refuse
                    (not (int_eq e.size (pos (length content)))
                      || not (equal_fold e.sha256 (c.sha256_hex content)))
                    (failed_verification e.path) (ok tt))))))

  -- the loop: the core files from the index on, and the paths seen
  unfoldable pub verify_files :
      Validity → List String → List String → Dict Bytes → List FileManifest → Fallible (List String)
  verify_files v core seen files [] = ok seen
  verify_files v core seen files (e ∷ es) =
      bind (check_entry v core seen files e)
        λ _. verify_files v (drop 1 core) (e.path ∷ seen) files es

  -- from the manifest on
  unfoldable pub verify : Manifest → Dict Bytes → Fallible (Manifest × Dict Bytes)
  verify m files = refuse (manifest_refused m) manifest_invalid (
      bind (verify_files (validity m) (core_files (validity m)) [] files m.files) λ seen.
        refuse (incomplete (validity m) seen files) unlisted_files
          (ok (m, erase "manifest.json" files)))

  -- the steps of `Parse` behind its size check, the last first: the manifest is decoded
  unfoldable pub with_encoded : Dict Bytes → Bytes → Fallible (Manifest × Dict Bytes)
  with_encoded files encoded =
      bind (or_err (c.decode encoded) manifest_undecodable) λ m. verify m files

  -- the manifest is looked up
  unfoldable pub with_files : Dict Bytes → Fallible (Manifest × Dict Bytes)
  with_files files =
      bind (or_err (lookup "manifest.json" files) manifest_missing) (with_encoded files)

  -- the entries are read
  unfoldable pub with_entries : Entries → Fallible (Manifest × Dict Bytes)
  with_entries entries = bind (read_entries entries 0 []) with_files

  unfoldable pub parse : Bytes → Fallible (Manifest × Dict Bytes)
  parse raw =
      refuse (nat_eq (length raw) 0 || ltb (mib 64) (length raw)) size_invalid
        (bind (or_err (c.read_archive raw) gzip_failed) with_entries)
