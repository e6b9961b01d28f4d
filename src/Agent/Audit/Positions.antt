-- ===== src/Agent/Audit/Positions.antt =====
-- A position that a batch has left is taken up where it is (internal/agent/audit.go).
use m_waf.Common.{
  Bool, List, [], arith, drop, false, if◌then◌else◌, leb, length, ltb, take, true, ℕ, ◌&&◌, ◌++◌,
  ◌+◌, ◌-◌, ◌∷◌, ◌≡◌, ◌≤◌,
}
use m_waf.Agent.Audit.{AuditPosition, Line, Log, past, read_lines, start_position}
use m_waf.Agent.Audit.Batches.{IsCoherent}

module _ {E : Type 0} where
  -- The lines of the log stay where they are and lie within it.
  pub record IsSteady (log : Log E) : Type 0 where
    pub coherent : IsCoherent log
    pub inside :
        (o : ℕ) (line : Line E) (rest : List (Line E))
        → log.lines_from o ≡ line ∷ rest
        → o + line.size ≤ log.size

  -- a position in this log
  abbrev pub IsAt : Log E → AuditPosition → Type 0
  IsAt log p = (p.device ≡ log.device) × (p.inode ≡ log.inode) × (p.offset ≤ log.size)

  pub start_position-IsAt : (log : Log E) (p : AuditPosition) → IsAt log (start_position p log)
  unfolding start_position
  start_position-IsAt log p = ground arith

  pub start_position_at : (log : Log E) (p : AuditPosition) → IsAt log p → start_position p log ≡ p
  unfolding start_position
  start_position_at log p (d, i, o) = ground (arith, d, i, o)

  -- What holds of the position where reading begins, and of the later ones behind and within a line, holds
  -- of the position of the batch.
  module _ (log : Log E) (coherent : IsCoherent log) (P : AuditPosition → Type 0)
      (behind : (next : AuditPosition) (line : Line E) (rest : List (Line E))
        → log.lines_from next.offset ≡ line ∷ rest
        → P next
        → P (past next (next.offset + line.size)))
      (within : (next : AuditPosition) (line : Line E) (rest : List (Line E)) (n : ℕ)
        → log.lines_from next.offset ≡ line ∷ rest
        → P next
        → P (record next { message_offset = next.message_offset + n })) where
    by_tests :
        (a b d e : Bool) (skipped later full part kept : List E × AuditPosition × Bool)
        → P skipped.1
        → P later.1
        → P full.1
        → P part.1
        → P kept.1
        → P
            (if a
              then skipped
              else if b
              then (if d then kept else part)
              else if e
              then full
              else later).1
    by_tests true b d e x y z v w s l f p k = s
    by_tests false true true e x y z v w s l f p k = k
    by_tests false true false e x y z v w s l f p k = p
    by_tests false false d true x y z v w s l f p k = f
    by_tests false false d false x y z v w s l f p k = l

    pub read_lines-keeps :
        (limit : ℕ) (lines : List (Line E)) (events : List E) (next : AuditPosition)
        → log.lines_from next.offset ≡ lines
        → P next
        → P (read_lines limit lines events next).1
    unfolding read_lines
    read_lines-keeps limit [] events next h k = k
    read_lines-keeps limit (line ∷ rest) events next h k =
        let moved = behind next line rest h k in
        let parsed = drop next.message_offset line.events in
        let room = limit - length events in
        let end : AuditPosition = past next (next.offset + line.size) in
        let follows = coherent.next_line next.offset line rest h in
        by_tests (ltb 0 next.message_offset && leb (length line.events) next.message_offset)
          (ltb room (length parsed)) (leb 1 (length events)) (leb limit (length (events ++ parsed)))
          (read_lines limit rest events end) (read_lines limit rest (events ++ parsed) end)
          (events ++ parsed, end, false)
          (
            events ++ take room parsed,
            record next { message_offset = next.message_offset + room },
            false,
          )
          (events, next, false) (read_lines-keeps limit rest events end follows moved)
          (read_lines-keeps limit rest (events ++ parsed) end follows moved) moved
          (within next line rest room h k) k
