-- ===== src/Bundle/Codec.antt =====
-- What the package takes from the standard library and does not implement: SHA-256, JSON of a
-- manifest, and tar under gzip. They are a parameter.
use m_waf.Common.{
  Bool, Bytes, Dict, Option, String, [], false, length, nat_eq, pos, some, true, ℤ, ◌++◌, ◌∷◌, ◌≡◌,
}
use m_waf.Bundle.Types.{Manifest}

-- A tar header, as far as the package reads it.
pub record Header : Type 0 where
  pub name : String
  pub regular : Bool
  pub size : ℤ

-- What the calls of archive.Next answer, in turn: the end, an error, or a header with what reading
-- that entry gives, `none` for a read error.
pub data Entries : Type 0 where
  eof : Entries
  broken : Entries
  entry : Header → Option Bytes → Entries → Entries

-- Regular files with their own sizes, in order.
abbrev pub regular_entries : Dict Bytes → Entries
regular_entries [] = eof
regular_entries ((name, raw) ∷ rest) =
    entry (record { name = name; regular = true; size = pos (length raw) }) (some raw)
      (regular_entries rest)

pub record Codec : Type 0 where
  -- hex.EncodeToString of sha256.Sum256
  pub sha256_hex : Bytes → String
  -- json.MarshalIndent, and decoding with DisallowUnknownFields; `none` is an error
  pub marshal : Manifest → Option Bytes
  pub decode : Bytes → Option Manifest
  -- the archive of these entries in this order; `none` when one of the writers fails
  pub write_archive : Dict Bytes → Option Bytes
  -- gzip.NewReader, then the entries; `none` when the gzip header is refused
  pub read_archive : Bytes → Option Entries

-- The documented behaviour of these: reading gives back what was written.
pub record IsFaithful (c : Codec) : Type 0 where
  pub decode-marshal :
      (m : Manifest) (raw : Bytes) → c.marshal m ≡ some raw → c.decode (raw ++ 10 ∷ []) ≡ some m
  pub read-write :
      (files : Dict Bytes) (raw : Bytes)
      → c.write_archive files ≡ some raw
      → c.read_archive raw ≡ some (regular_entries files)
  -- an archive has a header
  pub length-write :
      (files : Dict Bytes) (raw : Bytes)
      → c.write_archive files ≡ some raw
      → nat_eq (length raw) 0 ≡ false
