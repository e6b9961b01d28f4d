-- ===== src/Agent/Verify.antt =====
-- verifyArtifact and verifySignature of internal/agent/policy.go. The key file and the functions of
-- the standard library that read it are a parameter.
use m_waf.Common.{
  Bool, Bytes, Option, Result, String, ap, arith, bind, bind-eq-ok, equal_fold, err, false, not, ok,
  or_err, or_err-eq-ok, refuse, refuse-eq-ok, some, true, ◌∙◌, ◌≡◌,
}
use m_waf.Agent.Host.{
  ApplyError, checksum_mismatch, key_not_ed25519, key_undecodable, key_unparsable, key_unreadable,
  signature_invalid, signature_undecodable,
}
use m_waf.Bundle.Codec.{Codec}

-- x509.ParsePKIXPublicKey
pub data PublicKey : Type 0 where
  ed25519 : Bytes → PublicKey
  another : PublicKey

pub record Crypto : Type 0 where
  pub codec : Codec
  pub open codec use {sha256_hex}
  -- os.ReadFile(PolicyPublicKey), pem.Decode, x509.ParsePKIXPublicKey
  pub key_file : Option Bytes
  pub pem_decode : Bytes → Option Bytes
  pub parse_key : Bytes → Option PublicKey
  pub base64_decode : String → Option Bytes
  pub ed25519_verify : Bytes → Bytes → Bytes → Bool

-- the type assertion to ed25519.PublicKey
unfoldable pub ed25519_of : PublicKey → Result ApplyError Bytes
ed25519_of (ed25519 key) = ok key
ed25519_of another = err key_not_ed25519

module _ (c : Crypto) where
  -- the steps of `verifySignature`, the last first: the signature is decoded and checked
  unfoldable pub check_signature : Bytes → String → Bytes → Result ApplyError (Unit {0})
  check_signature artifact encoded key =
      bind (or_err (c.base64_decode encoded) signature_undecodable) λ signature.
        refuse (not (c.ed25519_verify key artifact signature)) signature_invalid (ok tt)

  -- the key is parsed
  unfoldable pub check_block : Bytes → String → Bytes → Result ApplyError (Unit {0})
  check_block artifact encoded block =
      bind (or_err (c.parse_key block) key_unparsable)
        λ parsed. bind (ed25519_of parsed) (check_signature artifact encoded)

  -- the key file is decoded
  unfoldable pub check_key_file : Bytes → String → Bytes → Result ApplyError (Unit {0})
  check_key_file artifact encoded raw =
      bind (or_err (c.pem_decode raw) key_undecodable) (check_block artifact encoded)

  unfoldable pub verify_signature : Bytes → String → Result ApplyError (Unit {0})
  verify_signature artifact encoded =
      bind (or_err c.key_file key_unreadable) (check_key_file artifact encoded)

  unfoldable pub verify_artifact : Bytes → String → String → Result ApplyError (Unit {0})
  verify_artifact artifact expected signature =
      refuse (not (equal_fold (c.sha256_hex artifact) expected)) checksum_mismatch
        (verify_signature artifact signature)

  -- The installed key is an Ed25519 key, and the signature is its signature of these bytes, whose
  -- digest is the expected one.
  pub record IsAuthentic (artifact : Bytes) (expected signature : String) : Type 0 where
    pub key_raw : Bytes
    pub key_block : Bytes
    pub key : Bytes
    pub signature_raw : Bytes
    pub key_read : c.key_file ≡ some key_raw
    pub key_decoded : c.pem_decode key_raw ≡ some key_block
    pub key_parsed : c.parse_key key_block ≡ some (ed25519 key)
    pub signature_decoded : c.base64_decode signature ≡ some signature_raw
    pub signed : c.ed25519_verify key artifact signature_raw ≡ true
    pub digest : equal_fold (c.sha256_hex artifact) expected ≡ true

  ed25519_of-eq-ok : (k : PublicKey) (key : Bytes) → ed25519_of k ≡ ok key → k ≡ ed25519 key
  unfolding ed25519_of
  ed25519_of-eq-ok (ed25519 k) key h = ground arith
  ed25519_of-eq-ok another key h = cc

  pub verify_artifact-IsAuthentic :
      (artifact : Bytes) (expected signature : String) (u : Unit {0})
      → verify_artifact artifact expected signature ≡ ok u
      → IsAuthentic artifact expected signature
  unfolding verify_artifact verify_signature check_key_file check_block check_signature
  verify_artifact-IsAuthentic artifact expected signature u h =
      let (sum, h1) =
        refuse-eq-ok (not (equal_fold (c.sha256_hex artifact) expected)) checksum_mismatch
          (verify_signature artifact signature) h in
      let (raw, e1, h2) =
        bind-eq-ok (or_err c.key_file key_unreadable) (check_key_file artifact signature) h1 in
      let (block, e2, h3) =
        bind-eq-ok (or_err (c.pem_decode raw) key_undecodable) (check_block artifact signature)
          h2 in
      let (parsed, e3, h4) =
        bind-eq-ok (or_err (c.parse_key block) key_unparsable)
          (λ k. bind (ed25519_of k) (check_signature artifact signature)) h3 in
      let (key, e4, h5) = bind-eq-ok (ed25519_of parsed) (check_signature artifact signature) h4 in
      let (sig, e5, h6) =
        bind-eq-ok (or_err (c.base64_decode signature) signature_undecodable)
          (λ s. refuse (not (c.ed25519_verify key artifact s)) signature_invalid (ok tt)) h5 in
      record {
        key_raw = raw;
        key_block = block;
        key = key;
        signature_raw = sig;
        key_read = or_err-eq-ok c.key_file key_unreadable e1;
        key_decoded = or_err-eq-ok (c.pem_decode raw) key_undecodable e2;
        key_parsed =
            or_err-eq-ok (c.parse_key block) key_unparsable e3
            ∙ ap some (ed25519_of-eq-ok parsed key e4);
        signature_decoded = or_err-eq-ok (c.base64_decode signature) signature_undecodable e5;
        signed =
            of_not (c.ed25519_verify key artifact sig)
              (refuse-eq-ok (not (c.ed25519_verify key artifact sig)) signature_invalid (ok tt)
                h6).0;
        digest = of_not (equal_fold (c.sha256_hex artifact) expected) sum;
      }
    where
      of_not : (b : Bool) → not b ≡ false → b ≡ true
      of_not b h = ground arith
