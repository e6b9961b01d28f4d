-- ===== src/Agent/Audit/Growth.antt =====
-- The audit log grows behind its last complete line (internal/agent/audit.go).
use m_waf.Common.{
  Bool, List, [], ap, arith, drop, inl, inr, refl, some, sym, ℕ, ◌++◌, ◌+◌, ◌∙◌, ◌∷◌, ◌≡◌, ◌≤◌, ◌⊎◌,
}
use m_waf.Agent.Audit.{
  AuditPosition, Line, Log, opened, past, read_batch, read_lines, start_position,
}
use m_waf.Agent.Audit.Batches.{events_of, left_at, pending, read_batch_exact}
use m_waf.Agent.Audit.Positions.{
  IsAt, IsSteady, read_lines-keeps, start_position-IsAt, start_position_at,
}
use mathlib.Core.Path.{subst}
use mathlib.Core.Option.{get_or}
use mathlib.Core.List.{append_assoc}

module _ {E : Type 0} where
  -- where the last complete line ends
  abbrev pub end_of : ℕ → List (Line E) → ℕ
  end_of o [] = o
  end_of o (line ∷ lines) = end_of (o + line.size) lines

  abbrev pub end_at : Log E → ℕ → ℕ
  end_at log o = end_of o (log.lines_from o)

  -- The second log is the same file, later: behind the last complete line of the first, lines were added.
  pub record Grows (log later : Log E) : Type 0 where
    pub same_device : log.device ≡ later.device
    pub same_inode : log.inode ≡ later.inode
    pub longer : log.size ≤ later.size
    pub added : (o : ℕ) → later.lines_from o ≡ log.lines_from o ++ later.lines_from (end_at log o)

  abbrev HasLine : Log E → AuditPosition → Type 0
  HasLine log p = (line : Line E) × (rest : List (Line E)) × (log.lines_from p.offset ≡ line ∷ rest)

  -- a message offset stands before a complete line
  abbrev pub IsInLine : Log E → AuditPosition → Type 0
  IsInLine log p = (p.message_offset ≡ 0) ⊎ HasLine log p

  -- A stored position which the log has reached.
  abbrev pub IsPlaced : Log E → AuditPosition → Type 0
  IsPlaced log p = (p.offset ≤ log.size) × IsInLine log (start_position p log)

  events_of-append :
      (ls more : List (Line E)) → events_of (ls ++ more) ≡ events_of ls ++ events_of more
  events_of-append [] more = refl
  events_of-append (l ∷ ls) more =
      ap (λ es. l.events ++ es) (events_of-append ls more)
      ∙ sym (append_assoc l.events (events_of ls) (events_of more))

  pending-append :
      (skip : ℕ) (line : Line E) (ls more : List (Line E))
      → pending skip ((line ∷ ls) ++ more) ≡ pending skip (line ∷ ls) ++ events_of more
  pending-append skip line ls more =
      ap (λ es. drop skip line.events ++ es) (events_of-append ls more)
      ∙ sym (append_assoc (drop skip line.events) (events_of ls) (events_of more))

  module _ (log later : Log E) (grows : Grows log later) where
    -- what was added since
    abbrev pub added_at : AuditPosition → List E
    added_at p = events_of (later.lines_from (end_at log p.offset))

    pub left_at-later :
        (p : AuditPosition) → IsInLine log p → left_at later p ≡ left_at log p ++ added_at p
    left_at-later p (inl none_skipped) =
        ap (λ n. pending n (later.lines_from p.offset)) none_skipped
        ∙ pending-none (later.lines_from p.offset)
        ∙ ap events_of (grows.added p.offset)
        ∙ events_of-append (log.lines_from p.offset) _
        ∙ ap (λ es. es ++ added_at p)
            (sym (pending-none (log.lines_from p.offset))
              ∙ ap (λ n. pending n (log.lines_from p.offset)) (sym none_skipped))
      where
        pending-none : (ls : List (Line E)) → pending 0 ls ≡ events_of ls
        pending-none [] = refl
        pending-none (l ∷ ls) = refl
    left_at-later p (inr (line, rest, h)) =
        ap (pending p.message_offset)
          (grows.added p.offset ∙ ap (λ ls. ls ++ later.lines_from (end_at log p.offset)) h)
        ∙ pending-append p.message_offset line rest _
        ∙ ap (λ ls. pending p.message_offset ls ++ added_at p) (sym h)

    pub start_position-later :
        (p : AuditPosition) → p.offset ≤ log.size → start_position p later ≡ start_position p log
    unfolding start_position
    start_position-later p h = ground (arith, h, grows.same_device, grows.same_inode, grows.longer)

    pub IsPlaced-later : (p : AuditPosition) → IsPlaced log p → IsPlaced later p
    IsPlaced-later p (h, placed) = (
      omega (arith, h, grows.longer),
      subst (IsInLine later) (sym (start_position-later p h))
          (in_line (start_position p log) placed),
    )
      where
        in_line : (q : AuditPosition) → IsInLine log q → IsInLine later q
        in_line q (inl none_skipped) = inl none_skipped
        in_line q (inr (line, rest, k)) = inr (
          line,
          rest ++ later.lines_from (end_at log q.offset),
          grows.added q.offset ∙ ap (λ ls. ls ++ later.lines_from (end_at log q.offset)) k,
        )

  module _ (log : Log E) (steady : IsSteady log) where
    -- a position of this log from which the same lines lie ahead as from another
    abbrev IsFrom : AuditPosition → AuditPosition → Type 0
    IsFrom start p = IsAt log p × (end_at log p.offset ≡ end_at log start.offset) × IsInLine log p

    read_lines-IsFrom :
        (limit : ℕ) (start : AuditPosition)
        → IsAt log start
        → IsInLine log start
        → IsFrom start (read_lines limit (log.lines_from start.offset) [] start).1
    read_lines-IsFrom limit start there placed =
        read_lines-keeps log steady.coherent (IsFrom start) behind within limit
          (log.lines_from start.offset) [] start refl (there, refl, placed)
      where
        behind :
            (next : AuditPosition) (line : Line E) (rest : List (Line E))
            → log.lines_from next.offset ≡ line ∷ rest
            → IsFrom start next
            → IsFrom start (past next (next.offset + line.size))
        behind next line rest h ((d, i, o), ends, placed) = (
          (d, i, steady.inside next.offset line rest h),
          ap (end_of (next.offset + line.size)) (steady.coherent.next_line next.offset line rest h)
              ∙ sym (ap (end_of next.offset) h)
              ∙ ends,
          inl refl,
        )

        within :
            (next : AuditPosition) (line : Line E) (rest : List (Line E)) (n : ℕ)
            → log.lines_from next.offset ≡ line ∷ rest
            → IsFrom start next
            → IsFrom start (record next { message_offset = next.message_offset + n })
        within next line rest n h (there, ends, placed) = (there, ends, inr (line, rest, h))

    -- A batch that is read before the log has grown is what the grown log has between its positions.
    pub read_batch-grown :
        (later : Log E) (p : AuditPosition) (limit : ℕ) (r : List E × AuditPosition)
        → Grows log later
        → IsPlaced log p
        → read_batch (opened log) p limit ≡ some r
        → IsPlaced log r.1
          × (r.0 ++ left_at later (start_position r.1 later)
              ≡ left_at later (start_position p later))
    unfolding read_batch
    read_batch-grown later p limit r grows (reached, placed) h = of_batch r h (
        subst (λ (q : List E × AuditPosition). IsFrom start q.1) (inside_some (read.0, read.1) r h)
          (read_lines-IsFrom limit start (start_position-IsAt log p) placed))
      where
        start : AuditPosition
        start = start_position p log

        read : List E × AuditPosition × Bool
        read = read_lines limit (log.lines_from start.offset) [] start

        inside_some : (x y : List E × AuditPosition) → some x ≡ some y → x ≡ y
        inside_some x y e = ap (λ o. get_or o x) e

        of_batch :
            (r : List E × AuditPosition)
            → read_batch (opened log) p limit ≡ some r
            → IsFrom start r.1
            → IsPlaced log r.1
              × (r.0 ++ left_at later (start_position r.1 later)
                  ≡ left_at later (start_position p later))
        of_batch r h (there, ends, in_line) = (
          (there.2, subst (IsInLine log) (sym (start_position_at log r.1 there)) in_line),
          ap (λ q. r.0 ++ left_at later q)
                (start_position-later log later grows r.1 there.2 ∙ start_position_at log r.1 there)
              ∙ ap (λ es. r.0 ++ es) (left_at-later log later grows r.1 in_line)
              ∙ sym (append_assoc r.0 (left_at log r.1) (added_at log later grows r.1))
              ∙ ap (λ es. es ++ added_at log later grows r.1)
                  (read_batch_exact log p limit r.0 r.1 steady.coherent h).1
              ∙ ap (λ o. left_at log start ++ events_of (later.lines_from o)) ends
              ∙ sym (left_at-later log later grows start placed)
              ∙ ap (left_at later) (sym (start_position-later log later grows p reached)),
        )
