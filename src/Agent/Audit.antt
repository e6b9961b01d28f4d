-- ===== src/Agent/Audit.antt =====
-- internal/agent/audit.go: reading the audit log in batches from a checkpoint. A line is what
-- ReadBytes returns of a complete one: its length in bytes, the newline included, and the events
-- that parseAuditLine makes of it. A last line with no newline is none: io.EOF stops there. Stored
-- offsets and the limit are not negative.
pub mod Batches
pub mod Positions
pub mod Growth
pub mod Interrupted
use m_waf.Common.{
  Bool, List, Option, [], drop, false, if◌then◌else◌, leb, length, ltb, nat_eq, none, not, some,
  take, true, ℕ, ◌&&◌, ◌++◌, ◌+◌, ◌-◌, ◌||◌, ◌∷◌,
}

pub record AuditPosition : Type 0 where
  pub device : ℕ
  pub inode : ℕ
  pub offset : ℕ
  pub message_offset : ℕ

abbrev pub empty_position : AuditPosition
empty_position = record { device = 0; inode = 0; offset = 0; message_offset = 0 }

-- AuditPosition.Empty
unfoldable pub is_empty_position : AuditPosition → Bool
is_empty_position p =
    nat_eq p.device 0 && nat_eq p.inode 0 && nat_eq p.offset 0 && nat_eq p.message_offset 0

pub record Line (E : Type 0) : Type 0 where
  pub size : ℕ
  pub events : List E

-- The open file: its identity, its size, and the complete lines behind an offset.
pub record Log (E : Type 0) : Type 0 where
  pub device : ℕ
  pub inode : ℕ
  pub size : ℕ
  pub lines_from : ℕ → List (Line E)

-- os.Open, Stat and Seek: no path or no file, an error, or the open file. Behind the complete lines of an
-- `opened` file comes io.EOF, behind those of an `interrupted` one another error.
pub data Source (E : Type 0) : Type 0 where
  no_file : Source E
  unreadable : Source E
  opened : Log E → Source E
  interrupted : Log E → Source E

-- behind a whole line
abbrev pub past : AuditPosition → ℕ → AuditPosition
past next line_end = record next { offset = line_end; message_offset = 0 }

module _ {E : Type 0} where
  -- the position to read from: the start, when the file is another one or is shorter
  unfoldable pub start_position : AuditPosition → Log E → AuditPosition
  start_position position log =
      let rotated =
        (not (nat_eq position.device 0) || not (nat_eq position.inode 0))
        && (not (nat_eq position.device log.device) || not (nat_eq position.inode log.inode)) in
      if rotated || ltb log.size position.offset
      then record { device = log.device; inode = log.inode; offset = 0; message_offset = 0 }
      else record position { device = log.device; inode = log.inode }

  -- The loop of `ReadBatch`, with `true` when it has come behind the last complete line.
  -- `parsed[next.MessageOffset:]` is `drop`, also at 0.
  unfoldable pub read_lines :
      ℕ → List (Line E) → List E → AuditPosition → List E × AuditPosition × Bool
  read_lines limit [] events next = (events, next, true)
  read_lines limit (line ∷ rest) events next =
      let line_end = next.offset + line.size in
      let parsed = drop next.message_offset line.events in
      let remaining = limit - length events in
      let skipped = read_lines limit rest events (past next line_end) in
      let later = read_lines limit rest (events ++ parsed) (past next line_end) in
      if ltb 0 next.message_offset && leb (length line.events) next.message_offset
      then skipped
      else if ltb remaining (length parsed)
      then (if leb 1 (length events) then (events, next, false) else (
        events ++ take remaining parsed,
        record next { message_offset = next.message_offset + remaining },
        false,
      ))
      else if leb limit (length (events ++ parsed))
      then (events ++ parsed, past next line_end, false)
      else later

  unfoldable pub read_batch : Source E → AuditPosition → ℕ → Option (List E × AuditPosition)
  read_batch no_file checkpoint limit = some ([], empty_position)
  read_batch unreadable checkpoint limit = none
  read_batch (opened log) checkpoint limit =
      let position = start_position checkpoint log in
      let (events, next, _) = read_lines limit (log.lines_from position.offset) [] position in
      some (events, next)
  read_batch (interrupted log) checkpoint limit =
      let position = start_position checkpoint log in
      let (events, next, at_end) = read_lines limit (log.lines_from position.offset) [] position in
      if at_end then none else some (events, next)
