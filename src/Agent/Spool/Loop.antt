-- ===== src/Agent/Spool/Loop.antt =====
-- runEventLoop of internal/agent/agent.go passes over no event of a log that grows, whatever fails and however
-- often flushAudit runs.
use m_waf.Common.{
  IsWithin, List, [], ap, err, inl, inr, none, ok, refl, some, split, sym, ℕ, ◌++◌, ◌∙◌, ◌∷◌, ◌≡◌,
  ◌⊎◌,
}
use m_waf.Agent.Action.{Outcome, Post}
use m_waf.Agent.Audit.{
  AuditPosition, Log, Source, interrupted, opened, read_batch, start_position, unreadable,
}
use m_waf.Agent.Audit.Batches.{left_at}
use m_waf.Agent.Audit.Positions.{IsSteady}
use m_waf.Agent.Audit.Growth.{Grows, IsPlaced, IsPlaced-later, read_batch-grown}
use m_waf.Agent.Spool.{Event, Feed, FeedError, IsExact}
use m_waf.Agent.Spool.Flushing.{FlushConfig, flush_audit, run_flushes}
use m_waf.Agent.Spool.Account.{Accounted, Balanced, Spooled, View, bodies, sent}
use m_waf.Agent.Spool.Flushed.{IsExactReading, bodies-append, flush_audit-Steps}
use m_waf.Agent.Audit.Interrupted.{IsCut, read_batch-interrupted}

-- The log as a flush finds it: open, open with a read that fails behind some of its lines, or not to be
-- opened.
abbrev pub IsOf : {E : Type 0} → Source E → Log E → Type 0
IsOf {E} source log =
    (source ≡ opened log)
    ⊎ ((cut : Log E) × (source ≡ interrupted cut) × IsCut cut log)
    ⊎ (source ≡ unreadable)

-- Each flush finds one file, which is there and has grown since the one before and until the end.
abbrev pub Stages : {E : Type 0} → Log E → Log E → List (Source E) → Type 0
Stages seen final [] = Unit {0}
Stages {E} seen final (source ∷ sources) =
    (log : Log E) × IsSteady log
    × Grows seen log
    × Grows log final
    × IsOf source log
    × Stages log final sources

read_batch-IsOf :
    {E : Type 0} (source : Source E) (log : Log E) (p : AuditPosition) (limit : ℕ)
    (r : List E × AuditPosition)
    → IsOf source log
    → read_batch source p limit ≡ some r
    → read_batch (opened log) p limit ≡ some r
unfolding read_batch
read_batch-IsOf source log p limit r (inl e) h = ap (λ o. read_batch o p limit) (sym e) ∙ h
read_batch-IsOf source log p limit r (inr (inl (cut, e, c))) h =
    read_batch-interrupted cut log p limit r c (ap (λ o. read_batch o p limit) (sym e) ∙ h)
read_batch-IsOf source log p limit r (inr (inr e)) h =
    refused (ap (λ o. read_batch o p limit) (sym e) ∙ h)
  where
    refused : none ≡ some r → read_batch (opened log) p limit ≡ some r
    refused k = cc

-- Of the events behind one position those before another have been received, in order.
abbrev pub HasReceived : {E : Type 0} → Log (Event E) → AuditPosition → Feed E → Type 0
HasReceived {E} log start g =
    (before : List E) × (before ++ bodies (left_at log (start_position g.checkpoint log))
      ≡ bodies (left_at log (start_position start log)))
    × IsWithin before (sent g.received)

module _ {E : Type 0} (c : FlushConfig E) (final : Log (Event E)) (every : List E)
    (exact : IsExact c.spool.codec) where
  abbrev view_of : Source (Event E) → Log (Event E) → View (Event E)
  view_of source seen = record { source = source; seen = seen; final = final }

  -- the invariant between two flushes
  abbrev Held : Source (Event E) → Log (Event E) → Feed E → Type 0
  Held source seen f =
      Accounted c.spool (view_of source seen) every f.checkpoint f.received
      × Spooled c.spool (view_of source seen) every f.checkpoint f.files

  Held-later :
      (source0 source : Source (Event E)) (seen log : Log (Event E)) (f : Feed E)
      → Grows seen log
      → Held source0 seen f
      → Held source log (record f { log = source })
  Held-later source0 source seen log f grows ((before, (placed, e), i), inl empty) =
      ((before, (IsPlaced-later seen log grows f.checkpoint placed, e), i), inl empty)
  Held-later source0 source seen log f grows
        ((before, (placed, e), i), inr (batch, next, ((reached, fits), holds))) =
      (
        (before, (IsPlaced-later seen log grows f.checkpoint placed, e), i),
        inr (batch, next, ((IsPlaced-later seen log grows next reached, fits), holds)),
      )

  IsExactReading-of :
      (source : Source (Event E)) (log : Log (Event E))
      → IsSteady log
      → Grows log final
      → IsOf source log
      → IsExactReading c (view_of source log) every
  IsExactReading-of source log steady grows of_log p r placed h =
      let (reached, split) =
        read_batch-grown log steady final p c.batch_size r grows placed
          (read_batch-IsOf source log p c.batch_size r of_log h) in
      (
        reached,
        sym (
              bodies-append c (view_of source log) every r.0
                (left_at final (start_position r.1 final)))
            ∙ ap bodies split,
      )

  flush-Held :
      (source : Source (Event E)) (log : Log (Event E)) (f : Feed E)
      → IsSteady log
      → Grows log final
      → IsOf source log
      → Held source log (record f { log = source })
      → Held source log (flush_audit c (record f { log = source })).1
  flush-Held source log f steady grows of_log held =
      behind (flush_audit c (record f { log = source })) (
        (flush_audit-Steps c (view_of source log) every
            (IsExactReading-of source log steady grows of_log) exact).at
          (record f { log = source }) (refl, held))
    where
      behind :
          (o : Outcome (Feed E) FeedError (Unit {0}))
          → Post
              (λ u. Balanced c.spool (view_of source log) every)
              (λ e g. Balanced c.spool (view_of source log) every g)
              o
          → Held source log o.1
      behind (ok u, g) h = h.1
      behind (err e, g) h = h.1

  run_flushes-Held :
      (sources : List (Source (Event E))) (source : Source (Event E)) (seen : Log (Event E))
      (f : Feed E)
      → Stages seen final sources
      → Held source seen f
      → (before : List E) × (before
            ++ bodies (left_at final (start_position (run_flushes c sources f).checkpoint final))
          ≡ every)
        × IsWithin before (sent (run_flushes c sources f).received)
  unfolding run_flushes
  run_flushes-Held [] source seen f stages held = (held.0.0, held.0.1.1, held.0.2)
  run_flushes-Held (next ∷ sources) source seen f (log, steady, grown, grows, of_log, stages) held =
      run_flushes-Held sources next log (flush_audit c (record f { log = next })).1 stages
        (flush-Held next log f steady grows of_log (Held-later source next seen log f grown held))

-- From an empty spool, over one audit log that is there, that grows behind its last complete line and that no one
-- rotates or truncates, however many flushes are run, whatever the log has grown to at each of them, and
-- whichever of their calls fail or lose their answers, the opening and the reading of the log included: the
-- events of the final log behind the position of the start, which the log has reached, are those before the
-- checkpoint, all of which the Manager has received in their order, and those still left behind it.
pub flushes-HasReceived :
    {E : Type 0} (c : FlushConfig E) (start final : Log (Event E))
    (sources : List (Source (Event E))) (f : Feed E)
    → IsExact c.spool.codec
    → Stages start final sources
    → IsPlaced start f.checkpoint
    → f.files ≡ []
    → HasReceived final f.checkpoint (run_flushes c sources f)
flushes-HasReceived c start final sources f exact stages placed empty =
    run_flushes-Held c final (bodies (left_at final (start_position f.checkpoint final))) exact
      sources f.log start f stages (([], (placed, refl), tt), inl empty)
