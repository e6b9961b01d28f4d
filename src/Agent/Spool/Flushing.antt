-- ===== src/Agent/Spool/Flushing.antt =====
-- flushAudit of internal/agent/agent.go: the events of the audit log go to the Manager, each batch over
-- a file of the spool. The identifiers of batches are a parameter, by the number of those drawn.
use m_waf.Common.{
  Bool, List, Option, String, [], err, false, if◌then◌else◌, leb, map, none, ok, or_err, some, suc,
  trim_space, true, zero, ℕ, ◌++◌, ◌+◌, ◌-◌, ◌==◌, ◌∷◌,
}
use m_waf.Agent.Action.{Outcome, lift, modify, pure, ◌>>=◌, ◌>>◌}
use m_waf.Agent.Audit.{AuditPosition, Source, is_empty_position, read_batch}
use m_waf.Agent.Spool.{
  Event, EventBatch, EventSpool, Fault, Feed, FeedError, Feeding, SpoolItem, attempt,
  audit_unreadable, commit_failed, fails, first_fault, other_faults, pending_items, put, remove,
  send_failed, token_required, unanswered, works,
}

pub record FlushConfig (E : Type 0) : Type 0 where
  pub spool : EventSpool E
  pub batch_size : ℕ
  pub batches_per_flush : ℕ
  pub event_verification_token : String
  -- randomID
  pub random_id : ℕ → String
  -- currentDesiredState().RevisionID
  pub current_revision : String

module _ {E : Type 0} (c : FlushConfig E) where
  abbrev pub answer : Fault → Feed E → Feed E → Outcome (Feed E) FeedError (Unit {0})
  answer works lost got = (ok tt, got)
  answer fails lost got = (err send_failed, lost)
  answer unanswered lost got = (err send_failed, got)

  -- Client.SendEvents; a request whose answer is lost has been received
  unfoldable pub send_events : EventBatch E → Feeding E (Unit {0})
  send_events batch f =
      if trim_space c.event_verification_token == ""
      then (err token_required, f)
      else answer (first_fault f.faults) (record f { faults = other_faults f.faults })
          (record f { faults = other_faults f.faults; received = f.received ++ batch ∷ [] })

  -- AuditReader.Commit
  unfoldable pub commit : AuditPosition → Feeding E (Unit {0})
  unfolding attempt
  commit position = do attempt commit_failed; modify (λ f. record f { checkpoint = position })

  -- send, commit, remove
  unfoldable pub deliver : SpoolItem E → Feeding E (Unit {0})
  deliver item = do send_events item.batch; commit item.next_position; remove c.spool item

  -- the loop over the pending items; `none` is the return of a flush that has sent enough
  unfoldable pub send_pending : List (SpoolItem E) → ℕ → Feeding E (Option ℕ)
  send_pending [] sent = pure (some sent)
  send_pending (item ∷ items) sent =
      if leb c.batches_per_flush sent
      then pure none
      else (do deliver item; send_pending items (sent + 1))

  abbrev pub stamp : Event E → Event E
  stamp e = if e.policy_revision == "" then record e { policy_revision = c.current_revision } else e

  unfoldable pub new_batch : List (Event E) → Feeding E (EventBatch E)
  new_batch events f = (
    ok (record { batch_id = c.random_id f.drawn; events = map stamp events }),
    record f { drawn = f.drawn + 1 },
  )

  unfoldable pub read_audit : Feeding E (List (Event E) × AuditPosition)
  read_audit f = lift (or_err (read_batch f.log f.checkpoint c.batch_size) audit_unreadable) f

  abbrev pub none_read : List (Event E) → Bool
  none_read [] = true
  none_read (_ ∷ _) = false

  -- the second loop, by the batches that may still be sent
  unfoldable pub send_new : ℕ → Feeding E (Unit {0})
  send_new zero = pure tt
  send_new (suc left) = do
    r ← read_audit
    if none_read r.0
        then (if is_empty_position r.1 then pure tt else commit r.1)
        else (do batch ← new_batch r.0; item ← put c.spool batch r.1; deliver item; send_new left)

  abbrev pub continue_with : Option ℕ → Feeding E (Unit {0})
  continue_with none = pure tt
  continue_with (some sent) = send_new (c.batches_per_flush - sent)

  unfoldable pub flush_audit : Feeding E (Unit {0})
  flush_audit = do items ← pending_items c.spool; sent ← send_pending items 0; continue_with sent

  -- The event loop, by what each flush finds when it opens the log: a flush that fails is tried again.
  unfoldable pub run_flushes : List (Source (Event E)) → Feed E → Feed E
  run_flushes [] f = f
  run_flushes (source ∷ sources) f = run_flushes sources (flush_audit (record f { log = source })).1
