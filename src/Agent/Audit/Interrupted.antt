-- ===== src/Agent/Audit/Interrupted.antt =====
-- ReadBatch of internal/agent/audit.go on a file of which a read fails.
use m_waf.Common.{
  Bool, List, [], ap, arith, drop, false, if◌then◌else◌, leb, length, ltb, none, refl, some, take,
  true, ℕ, ◌&&◌, ◌++◌, ◌+◌, ◌-◌, ◌∙◌, ◌∷◌, ◌≡◌,
}
use m_waf.Agent.Audit.{
  AuditPosition, Line, Log, interrupted, opened, past, read_batch, read_lines, start_position,
}

module _ {E : Type 0} where
  -- The first log shows only the first lines of the second one, which is the same file.
  pub record IsCut (cut log : Log E) : Type 0 where
    pub same_device : cut.device ≡ log.device
    pub same_inode : cut.inode ≡ log.inode
    pub same_size : cut.size ≡ log.size
    pub beyond : (o : ℕ) → (more : List (Line E)) × (log.lines_from o ≡ cut.lines_from o ++ more)

  by_tests :
      (a b d e : Bool)
      (skipped' skipped later' later full part kept : List E × AuditPosition × Bool)
      → (skipped.2 ≡ false → skipped' ≡ skipped)
      → (later.2 ≡ false → later' ≡ later)
      → (if a
          then skipped
          else if b
          then (if d then kept else part)
          else if e
          then full
          else later).2
        ≡ false
      → (if a
          then skipped'
          else if b
          then (if d then kept else part)
          else if e
          then full
          else later')
        ≡ (if a
            then skipped
            else if b
            then (if d then kept else part)
            else if e
            then full
            else later)
  by_tests true b d e x y z v f p k s l h = s h
  by_tests false true true e x y z v f p k s l h = refl
  by_tests false true false e x y z v f p k s l h = refl
  by_tests false false d true x y z v f p k s l h = refl
  by_tests false false d false x y z v f p k s l h = l h

  start_position-IsCut :
      (cut log : Log E) (p : AuditPosition)
      → IsCut cut log
      → start_position p log ≡ start_position p cut
  unfolding start_position
  start_position-IsCut cut log p c = ground (arith, c.same_device, c.same_inode, c.same_size)

  -- lines behind those that sufficed are not read
  read_lines-more :
      (limit : ℕ) (lines more : List (Line E)) (events : List E) (next : AuditPosition)
      → (read_lines limit lines events next).2 ≡ false
      → read_lines limit (lines ++ more) events next ≡ read_lines limit lines events next
  unfolding read_lines
  read_lines-more limit [] more events next h = cc
  read_lines-more limit (line ∷ rest) more events next h =
      let parsed = drop next.message_offset line.events in
      let room = limit - length events in
      let end : AuditPosition = past next (next.offset + line.size) in
      by_tests (ltb 0 next.message_offset && leb (length line.events) next.message_offset)
        (ltb room (length parsed)) (leb 1 (length events)) (leb limit (length (events ++ parsed)))
        (read_lines limit (rest ++ more) events end) (read_lines limit rest events end)
        (read_lines limit (rest ++ more) (events ++ parsed) end)
        (read_lines limit rest (events ++ parsed) end) (events ++ parsed, end, false)
        (
          events ++ take room parsed,
          record next { message_offset = next.message_offset + room },
          false,
        )
        (events, next, false) (read_lines-more limit rest more events end)
        (read_lines-more limit rest more (events ++ parsed) end) h

  -- A batch of the file of which a later read fails is the batch of the whole file.
  pub read_batch-interrupted :
      (cut log : Log E) (p : AuditPosition) (limit : ℕ) (r : List E × AuditPosition)
      → IsCut cut log
      → read_batch (interrupted cut) p limit ≡ some r
      → read_batch (opened log) p limit ≡ some r
  unfolding read_batch
  read_batch-interrupted cut log p limit r c h = by_end read.2 refl h
    where
      start : AuditPosition
      start = start_position p cut

      read : List E × AuditPosition × Bool
      read = read_lines limit (cut.lines_from start.offset) [] start

      same_start : start_position p log ≡ start
      same_start = start_position-IsCut cut log p c

      by_end :
          (b : Bool)
          → read.2 ≡ b
          → (if b then none else some (read.0, read.1)) ≡ some r
          → read_batch (opened log) p limit ≡ some r
      by_end true e k = cc
      by_end false e k =
          let (more, longer) = c.beyond start.offset in
          let whole : read_lines limit (log.lines_from (start_position p log).offset) []
                (start_position p log)
              ≡ read =
            ap (λ q. read_lines limit (log.lines_from q.offset) [] q) same_start
            ∙ ap (λ ls. read_lines limit ls [] start) longer
            ∙ read_lines-more limit (cut.lines_from start.offset) more [] start e in
          ap (λ (x : List E × AuditPosition × Bool). some (x.0, x.1)) whole ∙ k
