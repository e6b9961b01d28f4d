-- ===== src/Agent/Audit/Batches.antt =====
-- A batch is a prefix of what is left in the audit log, and its position is where the rest begins
-- (internal/agent/audit.go).
use mathlib.Core.Path.{subst}
use mathlib.Core.Option.{get_or}
use mathlib.Core.List.{append_assoc}
use m_waf.Common.{
  Bool-cases, List, [], ap, arith, drop, inl, inr, leb, length, length-append, length-take, ltb,
  refl, some, suc, sym, take, take-append-drop, zero, ℕ, ◌&&◌, ◌++◌, ◌+◌, ◌-◌, ◌∙◌, ◌∷◌, ◌≡◌, ◌≤◌,
}
use m_waf.Agent.Audit.{
  AuditPosition, Line, Log, opened, past, read_batch, read_lines, start_position,
}

module _ {E : Type 0} where
  abbrev pub events_of : List (Line E) → List E
  events_of [] = []
  events_of (line ∷ lines) = line.events ++ events_of lines

  -- the events of these lines but the first `skip` of the first line
  abbrev pub pending : ℕ → List (Line E) → List E
  pending skip [] = []
  pending skip (line ∷ lines) = drop skip line.events ++ events_of lines

  pub record IsCoherent (log : Log E) : Type 0 where
    -- behind the end of the first line the others follow
    pub next_line :
        (o : ℕ) (line : Line E) (rest : List (Line E))
        → log.lines_from o ≡ line ∷ rest
        → log.lines_from (o + line.size) ≡ rest

  -- what a reader at a position still has to report
  abbrev pub left_at : Log E → AuditPosition → List E
  left_at log p = pending p.message_offset (log.lines_from p.offset)

  pending-zero : (lines : List (Line E)) → pending 0 lines ≡ events_of lines
  pending-zero [] = refl
  pending-zero (line ∷ lines) = refl

  drop_all : (n : ℕ) (xs : List E) → length xs ≤ n → drop n xs ≡ []
  drop_all zero [] h = refl
  drop_all zero (x ∷ xs) h = absurd (omega arith)
  drop_all (suc n) [] h = refl
  drop_all (suc n) (x ∷ xs) h = drop_all n xs (omega arith)

  drop_nil : (n : ℕ) → drop {A = E} n [] ≡ []
  drop_nil zero = refl
  drop_nil (suc n) = refl

  drop-drop : (m n : ℕ) (xs : List E) → drop n (drop m xs) ≡ drop (m + n) xs
  drop-drop zero n xs = let e : n ≡ 0 + n = omega arith in ap (λ k. drop k xs) e
  drop-drop (suc m) n [] = drop_nil n ∙ sym (drop_nil (suc m + n))
  drop-drop (suc m) n (x ∷ xs) =
      let e : suc (m + n) ≡ suc m + n = omega arith in
      drop-drop m n xs ∙ ap (λ k. drop k (x ∷ xs)) e

  module _ (log : Log E) (coherent : IsCoherent log) where
    -- behind a whole line only the later lines are left
    left_past :
        (next : AuditPosition) (line : Line E) (rest : List (Line E))
        → log.lines_from next.offset ≡ line ∷ rest
        → left_at log (past next (next.offset + line.size)) ≡ events_of rest
    left_past next line rest h =
        ap (pending 0) (coherent.next_line next.offset line rest h) ∙ pending-zero rest

    -- in the middle of a line its later events are left too
    left_within :
        (next : AuditPosition) (line : Line E) (rest : List (Line E)) (n : ℕ)
        → log.lines_from next.offset ≡ line ∷ rest
        → left_at log (record next { message_offset = next.message_offset + n })
          ≡ drop n (drop next.message_offset line.events) ++ events_of rest
    left_within next line rest n h =
        ap (pending (next.message_offset + n)) h
        ∙ ap (λ xs. xs ++ events_of rest) (sym (drop-drop next.message_offset n line.events))

    read_lines-left :
        (limit : ℕ) (lines : List (Line E)) (events : List E) (next : AuditPosition)
        → log.lines_from next.offset ≡ lines
        → (read_lines limit lines events next).0
            ++ left_at log (read_lines limit lines events next).1
          ≡ events ++ left_at log next
    unfolding read_lines
    read_lines-left limit [] events next h = refl
    read_lines-left limit (line ∷ rest) events next h =
        elim (Bool-cases
          (ltb 0 next.message_offset && leb (length line.events) next.message_offset)) [
            | inl skip ↦ rw skip (
                read_lines-left limit rest events (past next (next.offset + line.size))
                  (coherent.next_line next.offset line rest h)
                ∙ ap (λ xs. events ++ xs)
                    (left_past next line rest h
                      ∙ ap (λ xs. xs ++ events_of rest)
                          (sym (drop_all next.message_offset line.events (ground arith)))
                      ∙ ap (pending next.message_offset) (sym h)))
            | inr take_it ↦
                elim (Bool-cases
                  (ltb (limit - length events) (length (drop next.message_offset line.events)))) [
                    | inl over ↦ elim (Bool-cases (leb 1 (length events))) [
                      | inl some_already ↦ rw (take_it, over, some_already) refl
                      | inr first ↦ rw (take_it, over, first) (split limit line rest events next h)
                    ]
                    | inr fits ↦
                        elim (Bool-cases
                          (leb limit (length (events ++ drop next.message_offset line.events)))) [
                            | inl full ↦ rw (take_it, fits, full) (whole line rest events next h)
                            | inr room ↦
                                rw (take_it, fits, room)
                                  (read_lines-left limit rest
                                      (events ++ drop next.message_offset line.events)
                                      (past next (next.offset + line.size))
                                      (coherent.next_line next.offset line rest h)
                                    ∙ whole line rest events next h)
                          ]
                  ]
          ]
      where
        whole :
            (line : Line E) (rest : List (Line E)) (events : List E) (next : AuditPosition)
            → log.lines_from next.offset ≡ line ∷ rest
            → (events ++ drop next.message_offset line.events)
                ++ left_at log (past next (next.offset + line.size))
              ≡ events ++ left_at log next
        whole line rest events next h =
            append_assoc events (drop next.message_offset line.events) _
            ∙ ap (λ xs. events ++ (drop next.message_offset line.events ++ xs))
                (left_past next line rest h)
            ∙ ap (λ ls. events ++ pending next.message_offset ls) (sym h)

        split :
            (limit : ℕ) (line : Line E) (rest : List (Line E)) (events : List E)
            (next : AuditPosition)
            → log.lines_from next.offset ≡ line ∷ rest
            → (events ++ take (limit - length events) (drop next.message_offset line.events))
                ++ left_at log
                    (record next { message_offset = next.message_offset + (limit - length events) })
              ≡ events ++ left_at log next
        split limit line rest events next h =
            let xs = drop next.message_offset line.events in
            let k = limit - length events in
            append_assoc events (take k xs) _
            ∙ ap (λ ys. events ++ (take k xs ++ ys)) (left_within next line rest k h)
            ∙ ap (λ ys. events ++ ys)
                (sym (append_assoc (take k xs) (drop k xs) (events_of rest))
                  ∙ ap (λ ys. ys ++ events_of rest) (take-append-drop k xs))
            ∙ ap (λ ls. events ++ pending next.message_offset ls) (sym h)

  module _ (limit : ℕ) where
    -- A batch that starts within the limit stays within it.
    read_lines-bounded :
        (lines : List (Line E)) (events : List E) (next : AuditPosition)
        → length events ≤ limit
        → length (read_lines limit lines events next).0 ≤ limit
    unfolding read_lines
    read_lines-bounded [] events next h = h
    read_lines-bounded (line ∷ rest) events next h = ground (
      arith,
      read_lines-bounded rest events (past next (next.offset + line.size)),
      read_lines-bounded rest (events ++ drop next.message_offset line.events)
          (past next (next.offset + line.size)),
      length-append events (drop next.message_offset line.events),
      length-append events (take (limit - length events) (drop next.message_offset line.events)),
      length-take (limit - length events) (drop next.message_offset line.events),
    )

-- When behind the end of a line of an open log the lines after it follow, and ReadBatch returns a
-- batch, the batch holds at most `limit` events, and followed by what is left at the position behind
-- it, it is exactly what was left at the position where reading began: no event is lost, repeated or
-- reordered between two batches.
pub read_batch_exact :
    {E : Type 0} (log : Log E) (checkpoint : AuditPosition) (limit : ℕ) (events : List E)
    (next : AuditPosition)
    → IsCoherent log
    → read_batch (opened log) checkpoint limit ≡ some (events, next)
    → (length events ≤ limit)
      × (events ++ left_at log next ≡ left_at log (start_position checkpoint log))
unfolding read_batch
read_batch_exact {E} log checkpoint limit events next coherent h =
    let start = start_position checkpoint log in
    let read = read_lines limit (log.lines_from start.offset) [] start in
    subst
      (λ (r : List E × AuditPosition).
        (length r.0 ≤ limit) × (r.0 ++ left_at log r.1 ≡ left_at log start))
      (inside (read.0, read.1) _ h)
      (
        read_lines-bounded limit (log.lines_from start.offset) [] start (omega arith),
        read_lines-left log coherent limit (log.lines_from start.offset) [] start refl,
      )
  where
    inside : (x y : List E × AuditPosition) → some x ≡ some y → x ≡ y
    inside x y e = ap (λ o. get_or o x) e
