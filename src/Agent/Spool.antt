-- ===== src/Agent/Spool.antt =====
-- internal/agent/spool.go: batches of events in files until they are delivered. The directory is the
-- map of its files, an absent one is empty; JSON is a parameter.
pub mod Flushing
pub mod Account
pub mod Delivered
pub mod Filled
pub mod Flushed
pub mod Loop
use m_waf.Common.{
  Bool, Bytes, Dict, List, Option, Result, String, [], base, bind, clean, erase, err, false,
  has_suffix, if◌then◌else◌, insert, int_eq, is_negative, is_some, join_path, length, lookup, ltb,
  map, nat_eq, negsuc, none, not, ok, or_err, pos, pos_part, refuse, some, sort, starts_with, true,
  ℕ, ℤ, ◌&&◌, ◌++◌, ◌+◌, ◌==◌, ◌||◌, ◌∷◌, ◌≡◌, ◌⧺◌,
}
use m_waf.Agent.Action.{Action, lift, modify, pure, raise, ◌>>=◌, ◌>>◌}
use m_waf.Agent.Audit.{AuditPosition, Source}

-- model.SecurityEvent, of which the delivery reads and writes the policy revision only
pub record Event (E : Type 0) : Type 0 where
  pub policy_revision : String
  pub body : E

pub record EventBatch (E : Type 0) : Type 0 where
  pub batch_id : String
  pub events : List (Event E)

pub record SpoolItem (E : Type 0) : Type 0 where
  pub batch : EventBatch E
  pub next_position : AuditPosition
  pub path : String

-- the JSON object of an item, before it is checked
pub record Stored (E : Type 0) : Type 0 where
  pub batch : EventBatch E
  pub device : ℕ
  pub inode : ℕ
  pub offset : ℤ
  pub message_offset : ℤ
  pub next_offset : ℤ

pub record SpoolFile : Type 0 where
  pub is_dir : Bool
  pub raw : Bytes

-- json.Marshal, and decoding with DisallowUnknownFields
pub record ItemCodec (E : Type 0) : Type 0 where
  pub encode : Stored E → Option Bytes
  pub decode : Bytes → Option (Stored E)

-- what an item was encoded to is decoded to it
pub record IsExact {E : Type 0} (codec : ItemCodec E) : Type 0 where
  pub decode-encode :
      (s : Stored E) (raw : Bytes)
      → codec.encode s ≡ some raw
      → codec.decode (raw ++ 10 ∷ []) ≡ some s

pub record EventSpool (E : Type 0) : Type 0 where
  pub directory : String
  pub max_bytes : ℤ
  pub codec : ItemCodec E

-- what the next call of the system or of the Manager does
pub data Fault : Type 0 where
  works fails : Fault
  -- the Manager has got the request, its answer is lost
  unanswered : Fault

pub data FeedError : Type 0 where
  read_dir_failed info_failed write_failed item_unreadable item_undecodable item_invalid : FeedError
  marshal_failed spool_full unsafe_path remove_failed : FeedError
  token_required send_failed commit_failed audit_unreadable : FeedError

-- The state of the event loop, with the Manager's side of it: the batches it has received.
pub record Feed (E : Type 0) : Type 0 where
  pub log : Source (Event E)
  pub checkpoint : AuditPosition
  pub files : Dict SpoolFile
  pub received : List (EventBatch E)
  -- how many identifiers were drawn
  pub drawn : ℕ
  -- what the next calls do; behind the end of the list they work
  pub faults : List Fault

abbrev pub Feeding : Type 0 → Type 0 → Type 0
Feeding E A = Action (Feed E) FeedError A

abbrev pub first_fault : List Fault → Fault
first_fault [] = works
first_fault (f ∷ _) = f

abbrev pub other_faults : List Fault → List Fault
other_faults [] = []
other_faults (_ ∷ fs) = fs

abbrev pub is_working : Fault → Bool
is_working works = true
is_working fails = false
is_working unanswered = false

abbrev pub skipped : String → SpoolFile → Bool
skipped name file = file.is_dir || not (has_suffix name ".json")

-- `maxBytes > 0 && currentBytes+int64(len(raw)+1) > maxBytes`
abbrev pub over : ℤ → ℕ → Bool
over (pos n) total = ltb 0 n && ltb n total
over (negsuc n) total = false

module _ {E : Type 0} where
  -- a system call that fails with `e` or does nothing that is modelled
  unfoldable pub attempt : FeedError → Feeding E (Unit {0})
  attempt e f =
      let f' = record f { faults = other_faults f.faults } in
      if is_working (first_fault f.faults) then (ok tt, f') else (err e, f')

  -- the loop of `Stats`
  unfoldable pub sum_sizes : Dict SpoolFile → ℕ → ℕ → Feeding E (ℕ × ℕ)
  sum_sizes [] count size = pure (count, size)
  sum_sizes ((name, file) ∷ rest) count size =
      if skipped name file
      then sum_sizes rest count size
      else (do attempt info_failed; sum_sizes rest (count + 1) (size + length file.raw))

  unfoldable pub stats : Feeding E (ℕ × ℕ)
  stats = do attempt read_dir_failed; λ f. sum_sizes f.files 0 0 f

  abbrev pub stored : EventBatch E → AuditPosition → Stored E
  stored batch next = record {
    batch = batch;
    device = next.device;
    inode = next.inode;
    offset = pos next.offset;
    message_offset = pos next.message_offset;
    next_offset = pos 0;
  }

  abbrev pub file_name : EventBatch E → String
  file_name batch = batch.batch_id ⧺ ".json"

  -- an offset of an older format, if there is no position
  unfoldable pub with_legacy_offset : Stored E → Stored E
  with_legacy_offset i =
      if nat_eq i.device 0
        && nat_eq i.inode 0
        && int_eq i.offset (pos 0)
        && int_eq i.message_offset (pos 0)
        && ltb 0 (pos_part i.next_offset)
      then record i { offset = i.next_offset; next_offset = pos 0 }
      else record i { next_offset = pos 0 }

  unfoldable pub item_refused : String → Stored E → Bool
  item_refused name i =
      i.batch.batch_id == ""
      || is_negative i.offset
      || is_negative i.message_offset
      || not (name == file_name i.batch)

  abbrev pub position_of : Stored E → AuditPosition
  position_of i = record {
    device = i.device;
    inode = i.inode;
    offset = pos_part i.offset;
    message_offset = pos_part i.message_offset;
  }

  -- os.Remove of a path in the directory
  unfoldable pub delete_file : String → Feeding E (Unit {0})
  delete_file name f =
      if is_some (lookup name f.files)
      then modify (λ f. record f { files = erase name f.files }) f
      else raise remove_failed f

  module _ (s : EventSpool E) where
    abbrev pub path_of : String → String
    path_of name = join_path s.directory name

    unfoldable pub put : EventBatch E → AuditPosition → Feeding E (SpoolItem E)
    unfolding stats
    put batch next = do
      raw ← lift (or_err (s.codec.encode (stored batch next)) marshal_failed)
      total ← stats
      if over s.max_bytes (total.1 + (length raw + 1)) then raise spool_full else (do
        attempt write_failed
        modify (λ f. record f {
          files =
              insert (file_name batch) (record { is_dir = false; raw = raw ++ 10 ∷ [] }) f.files;
        })
        pure (record { batch = batch; next_position = next; path = path_of (file_name batch) }))

    -- the item of one file
    unfoldable pub item_of : String → Bytes → Result FeedError (SpoolItem E)
    item_of name raw = bind (or_err (s.codec.decode raw) item_undecodable) λ i.
        refuse (item_refused name (with_legacy_offset i)) item_invalid (
          ok (record {
            batch = i.batch;
            next_position = position_of (with_legacy_offset i);
            path = path_of name;
          }))

    -- one round of the loop of `Pending`: no item for an entry that is skipped
    unfoldable pub read_item : String → Option SpoolFile → Feeding E (List (SpoolItem E))
    read_item name none = pure []
    read_item name (some file) =
        if skipped name file
        then pure []
        else (do attempt item_unreadable; item ← lift (item_of name file.raw); pure (item ∷ []))

    -- the loop over the sorted names
    unfoldable pub read_items : List String → Dict SpoolFile → Feeding E (List (SpoolItem E))
    read_items [] files = pure []
    read_items (name ∷ names) files = do
      items ← read_item name (lookup name files)
      rest ← read_items names files
      pure (items ++ rest)

    unfoldable pub pending_items : Feeding E (List (SpoolItem E))
    pending_items = do
      attempt read_dir_failed
      λ f. read_items (sort (map (λ e. e.0) f.files)) f.files f

    unfoldable pub remove : SpoolItem E → Feeding E (Unit {0})
    remove item =
        let path = clean item.path in
        if not (starts_with path (clean s.directory ⧺ "/")) || not (has_suffix path ".json")
        then raise unsafe_path
        else (do attempt remove_failed; delete_file (base path))
