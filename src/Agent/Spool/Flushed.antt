-- ===== src/Agent/Spool/Flushed.antt =====
-- One flushAudit of internal/agent/agent.go keeps the invariant of the event loop, whatever fails.
use m_waf.Common.{
  Bool, List, Option, [], ap, false, if◌then◌else◌, map, none, or_err, refl, some, suc, sym, true,
  zero, ℕ, ◌++◌, ◌+◌, ◌-◌, ◌==◌, ◌∙◌, ◌∷◌, ◌≡◌,
}
use m_waf.Agent.Action.{Post, Triple-bind, Triple-weaken, lift, pure, ◌>>=◌}
use m_waf.Agent.Audit.{AuditPosition, is_empty_position, read_batch}
use m_waf.Agent.Spool.{
  Event, EventBatch, EventSpool, Feed, Feeding, IsExact, audit_unreadable, commit_failed, put,
}
use m_waf.Agent.Spool.Flushing.{
  FlushConfig, commit, continue_with, deliver, flush_audit, new_batch, none_read, read_audit,
  send_new, stamp,
}
use m_waf.Agent.Spool.Account.{
  Balanced, Cleared, Cleared-Balanced, Placed, Steps, View, attempt-Steps, bodies, due,
}
use m_waf.Agent.Spool.Delivered.{After, deliver-Steps, send_pending-Steps}
use m_waf.Agent.Spool.Filled.{Read, Read-Balanced, pending_items-Steps, put-Steps}
use mathlib.Core.Path.{subst}

module _ {E : Type 0} (c : FlushConfig E) (view : View (Event E)) (every : List E) where
  abbrev s : EventSpool E
  s = c.spool

  pub bodies-append : (xs ys : List (Event E)) → bodies (xs ++ ys) ≡ bodies xs ++ bodies ys
  bodies-append [] ys = refl
  bodies-append (x ∷ xs) ys = rw (bodies-append xs ys)

  bodies-stamp : (xs : List (Event E)) → bodies (map (stamp c) xs) ≡ bodies xs
  bodies-stamp [] = refl
  bodies-stamp (x ∷ xs) = rw (bodies-stamp xs) (rw (kept x) refl)
    where
      kept : (x : Event E) → (stamp c x).body ≡ x.body
      kept x = by_test (x.policy_revision == "")
        where
          by_test :
              (b : Bool)
              → (if b then record x { policy_revision = c.current_revision } else x).body ≡ x.body
          by_test true = refl
          by_test false = refl

  -- A batch of the log, read at a position that it has reached, leaves such a position, and what is left at
  -- the end behind the one is the batch and what is left behind the other.
  abbrev pub IsExactReading : Type 0
  IsExactReading =
      (p : AuditPosition) (r : List (Event E) × AuditPosition)
      → Placed s view every p
      → read_batch view.source p c.batch_size ≡ some r
      → Placed s view every r.1 × (bodies r.0 ++ due s view every r.1 ≡ due s view every p)

  module _ (exactly : IsExactReading) (exact : IsExact s.codec) where
    read_audit-Steps :
        Steps s view every (Cleared s view every) (read_audit c) (λ r. Read c view every r.0 r.1)
    unfolding read_audit
    read_audit-Steps = record {
      at = λ f h.
          subst
            (λ l.
              Post (λ r. Read c view every r.0 r.1) (λ e g. Balanced s view every g)
                (lift (or_err (read_batch l f.checkpoint c.batch_size) audit_unreadable) f))
            (sym h.0) (of_batch f h (read_batch view.source f.checkpoint c.batch_size) refl);
    }
      where
        of_batch :
            (f : Feed E)
            → Cleared s view every f
            → (o : Option (List (Event E) × AuditPosition))
            → read_batch view.source f.checkpoint c.batch_size ≡ o
            → Post
                (λ r. Read c view every r.0 r.1)
                (λ e g. Balanced s view every g)
                (lift (or_err o audit_unreadable) f)
        of_batch f h none e = Cleared-Balanced s view every f h
        of_batch f h (some r) e = (h.0, (h.1, exactly f.checkpoint r h.1.0.1.0 e))

    commit-Read :
        (events : List (Event E)) (next : AuditPosition)
        → none_read c events ≡ true
        → Steps s view every
            (Read c view every events next)
            (commit c next)
            (λ u. Cleared s view every)
    unfolding commit
    commit-Read [] next h =
        Triple-bind
          (attempt-Steps s view every _ (Read-Balanced c view every [] next) commit_failed)
          λ u. record {
            at = λ f k. (
              k.0,
              (
                (k.1.0.0.0, (k.1.1.0, ap (λ es. k.1.0.0.0 ++ es) k.1.1.1 ∙ k.1.0.0.1.1), k.1.0.0.2),
                k.1.0.1,
              ),
            );
          }
    commit-Read (e ∷ es) next h = cc

    send_new-Steps :
        (left : ℕ)
        → Steps s view every (Cleared s view every) (send_new c left) (λ u. Cleared s view every)
    unfolding send_new new_batch
    send_new-Steps zero = record { at = λ f h. h }
    send_new-Steps (suc left) =
        Triple-bind read_audit-Steps (λ r. by_events (send_new-Steps left) r (none_read c r.0) refl)
      where
        by_position :
            (r : List (Event E) × AuditPosition)
            → none_read c r.0 ≡ true
            → (b : Bool)
            → Steps s view every
                (Read c view every r.0 r.1)
                (if b then pure tt else commit c r.1)
                (λ u. Cleared s view every)
        by_position r e true = record { at = λ f h. (h.0, h.1.0) }
        by_position r e false = commit-Read r.0 r.1 e

        with_batch : (r : List (Event E) × AuditPosition) → Feeding E (Unit {0})
        with_batch r = new_batch c r.0 >>= λ batch.
            put s batch r.1 >>= λ item. deliver c item >>= λ u. send_new c left

        Later : Type 0
        Later =
            Steps s view every (Cleared s view every) (send_new c left) (λ u. Cleared s view every)

        by_events :
            Later
            → (r : List (Event E) × AuditPosition) (b : Bool) → none_read c r.0 ≡ b
            → Steps s view every
                (Read c view every r.0 r.1)
                (if b
                  then (if is_empty_position r.1 then pure tt else commit c r.1)
                  else with_batch r)
                (λ u. Cleared s view every)
        by_events later r true e = by_position r e (is_empty_position r.1)
        by_events later r false e = record {
          at = λ f h.
              (rest (record { batch_id = c.random_id f.drawn; events = map (stamp c) r.0 })
                  (bodies-stamp r.0)).at
                (record f { drawn = f.drawn + 1 }) h;
        }
          where
            rest :
                (batch : EventBatch E)
                → bodies batch.events ≡ bodies r.0
                → Steps s view every
                    (Read c view every r.0 r.1)
                    (put s batch r.1 >>= λ item. deliver c item >>= λ u. send_new c left)
                    (λ u. Cleared s view every)
            rest batch e =
                Triple-bind
                  (Triple-weaken (put-Steps c view every exact batch r.1)
                    (λ f h.
                      (h.0, (h.1.0, (h.1.1.0, ap (λ es. es ++ due s view every r.1) e ∙ h.1.1.1))))
                    (λ a f h. h) (λ a f h. h))
                  (λ item. Triple-bind (deliver-Steps c view every item) (λ u. later))

    pub flush_audit-Steps :
        Steps s view every (Balanced s view every) (flush_audit c) (λ u. Balanced s view every)
    unfolding flush_audit After
    flush_audit-Steps =
        Triple-bind (pending_items-Steps c view every)
          λ items. Triple-bind (send_pending-Steps c view every items 0) λ r. by_answer r
      where
        by_answer :
            (r : Option ℕ)
            → Steps s view every
                (After c view every r)
                (continue_with c r)
                (λ u. Balanced s view every)
        by_answer none = record { at = λ f h. h }
        by_answer (some n) =
            Triple-weaken (send_new-Steps (c.batches_per_flush - n)) (λ f h. h)
              (λ a f h. Cleared-Balanced s view every f h) (λ e f h. h)
