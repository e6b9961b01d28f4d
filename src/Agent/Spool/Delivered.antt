-- ===== src/Agent/Spool/Delivered.antt =====
-- The invariant of the event loop of internal/agent/agent.go: whatever fails, no event is passed over.
use mathlib.Core.List.{append_assoc}
use m_waf.Common.{
  Bool, Dict, IsWithin, IsWithin-append, IsWithin-longer, List, Option, String, [], ap, base, clean,
  erase, err, false, has_suffix, if◌then◌else◌, inl, inr, is_some, leb, lookup, none, not, refl,
  some, starts_with, trim_space, true, ℕ, ◌++◌, ◌+◌, ◌==◌, ◌||◌, ◌∙◌, ◌∷◌, ◌≡◌, ◌⧺◌,
}
use m_waf.Agent.Action.{Post, Triple-bind, modify, pure, raise, ◌>>◌}
use m_waf.Agent.Audit.{AuditPosition}
use m_waf.Agent.Spool.{
  Event, EventBatch, EventSpool, Fault, Feed, SpoolFile, SpoolItem, attempt, commit_failed,
  delete_file, fails, file_name, first_fault, other_faults, remove, remove_failed, token_required,
  unanswered, unsafe_path, works,
}
use m_waf.Agent.Spool.Flushing.{FlushConfig, answer, commit, deliver, send_events, send_pending}
use m_waf.Agent.Spool.Account.{
  Balanced, Cleared, Holding, Holding-Balanced, Over, Placed, Steps, View, Waits, attempt-Steps,
  bodies, due, sent, sent-append,
}

erase_only :
    (files : Dict SpoolFile) (name only : String) (file : SpoolFile)
    → files ≡ (only, file) ∷ []
    → is_some (lookup name files) ≡ true
    → erase name files ≡ []
unfolding lookup erase
erase_only files name only file e k = rw e (rw (same (only == name) (rw e at k)) refl)
  where
    same : (b : Bool) → is_some (if b then some file else none) ≡ true → b ≡ true
    same true h = refl
    same false h = cc

module _ {E : Type 0} (c : FlushConfig E) (view : View (Event E)) (all : List E) where
  abbrev s : EventSpool E
  s = c.spool

  -- the batch has been received on top of what the checkpoint says
  abbrev Received : EventBatch E → AuditPosition → Feed E → Type 0
  Received batch next = Over s view all λ p files received.
      ((before : List E) × (Placed s view all p × (before ++ due s view all p ≡ all))
        × IsWithin before (sent received)
        × IsWithin (before ++ bodies batch.events) (sent received))
      × Waits s view all p batch next files

  Received-Balanced :
      (batch : EventBatch E) (next : AuditPosition) (f : Feed E)
      → Received batch next f
      → Balanced s view all f
  Received-Balanced batch next f (o, ((before, e, i, j), w)) =
      (o, ((before, e, i), inr (batch, next, w)))

  send_events-Steps :
      (batch : EventBatch E) (next : AuditPosition)
      → Steps s view all
          (Holding s view all batch next)
          (send_events c batch)
          (λ u. Received batch next)
  unfolding send_events
  send_events-Steps batch next = record {
    at = λ f h. by_token f h (trim_space c.event_verification_token == "");
  }
    where
      more :
          (f : Feed E)
          → Holding s view all batch next f
          → Received batch next (record f { received = f.received ++ batch ∷ [] })
      more f (o, ((before, e, i), w)) = (
        o,
        (
          (
            before,
            e,
            rw (sent-append f.received batch)
                (IsWithin-longer before (sent f.received) (bodies batch.events) i),
            rw (sent-append f.received batch)
                (IsWithin-append before (sent f.received) (bodies batch.events) i),
          ),
          w,
        ),
      )

      by_answer :
          (f : Feed E)
          → Holding s view all batch next f
          → (fault : Fault)
          → Post
              (λ u. Received batch next)
              (λ e g. Balanced s view all g)
              (answer c fault
                (record f { faults = other_faults f.faults })
                (record f { faults = other_faults f.faults; received = f.received ++ batch ∷ [] }))
      by_answer f h works = more f h
      by_answer f h fails = Holding-Balanced s view all batch next f h
      by_answer f h unanswered =
          Received-Balanced batch next (record f { received = f.received ++ batch ∷ [] }) (more f h)

      by_token :
          (f : Feed E)
          → Holding s view all batch next f
          → (b : Bool)
          → Post
              (λ u. Received batch next)
              (λ e g. Balanced s view all g)
              (if b
                then (err token_required, f)
                else answer c
                    (first_fault f.faults)
                    (record f { faults = other_faults f.faults })
                    (record f {
                      faults = other_faults f.faults;
                      received = f.received ++ batch ∷ [];
                    }))
      by_token f h true = Holding-Balanced s view all batch next f h
      by_token f h false = by_answer f h (first_fault f.faults)

  commit-Steps :
      (batch : EventBatch E) (next : AuditPosition)
      → Steps s view all (Received batch next) (commit c next) (λ u. Holding s view all batch next)
  unfolding commit
  commit-Steps batch next =
      Triple-bind (attempt-Steps s view all _ (Received-Balanced batch next) commit_failed)
        (λ u. record { at = λ f h. moved f h })
    where
      moved :
          (f : Feed E)
          → Received batch next f
          → Holding s view all batch next (record f { checkpoint = next })
      moved f (o, ((before, (there, e), i, j), ((placed, inl fits), holds))) = (
        o,
        (
          (
            before ++ bodies batch.events,
            (
              placed,
              append_assoc before (bodies batch.events) _ ∙ ap (λ es. before ++ es) fits ∙ e,
            ),
            j,
          ),
          ((placed, inr refl), holds),
        ),
      )
      moved f (o, ((before, (there, e), i, j), ((placed, inr same_due), holds))) = (
        o,
        ((before, (placed, ap (λ es. before ++ es) same_due ∙ e), i), ((placed, inr refl), holds)),
      )

  remove-Steps :
      (item : SpoolItem E) (batch : EventBatch E) (next : AuditPosition)
      → Steps s view all (Holding s view all batch next) (remove s item) (λ u. Cleared s view all)
  unfolding remove delete_file lookup erase
  remove-Steps item batch next = by_path (
      not (starts_with (clean item.path) (clean s.directory ⧺ "/"))
      || not (has_suffix (clean item.path) ".json"))
    where
      erased :
          (f : Feed E) (name : String)
          → Holding s view all batch next f
          → (b : Bool) → is_some (lookup name f.files) ≡ b
          → Post
              (λ u. Cleared s view all)
              (λ e g. Balanced s view all g)
              (if b
                then modify (λ f. record f { files = erase name f.files }) f
                else raise remove_failed f)
      erased f name h true k = (
        h.0,
        (
          h.1.0,
          erase_only f.files name (file_name batch) (record { is_dir = false; raw = h.1.1.1.0 })
              h.1.1.1.1 k,
        ),
      )
      erased f name h false k = Holding-Balanced s view all batch next f h

      by_path :
          (b : Bool)
          → Steps s view all
              (Holding s view all batch next)
              (if b
                then raise unsafe_path
                else (attempt remove_failed >> delete_file (base (clean item.path))))
              (λ u. Cleared s view all)
      by_path true = record { at = λ f h. Holding-Balanced s view all batch next f h }
      by_path false =
          Triple-bind
            (attempt-Steps s view all _ (Holding-Balanced s view all batch next) remove_failed)
            (λ u. record {
              at = λ f h.
                  erased f (base (clean item.path)) h
                    (is_some (lookup (base (clean item.path)) f.files)) refl;
            })

  -- one item, from the file that holds it to an empty spool
  pub deliver-Steps :
      (item : SpoolItem E)
      → Steps s view all
          (Holding s view all item.batch item.next_position)
          (deliver c item)
          (λ u. Cleared s view all)
  unfolding deliver
  deliver-Steps item = Triple-bind (send_events-Steps item.batch item.next_position) λ u.
      Triple-bind (commit-Steps item.batch item.next_position)
        λ v. remove-Steps item item.batch item.next_position

  -- what the reading of the directory has found
  unfoldable pub Found : List (SpoolItem E) → Feed E → Type 0
  Found [] f = Cleared s view all f
  Found (item ∷ []) f = Holding s view all item.batch item.next_position f
  Found (item ∷ _ ∷ _) f = ⊥

  unfoldable pub After : Option ℕ → Feed E → Type 0
  After none f = Balanced s view all f
  After (some n) f = Cleared s view all f

  pub send_pending-Steps :
      (items : List (SpoolItem E)) (n : ℕ)
      → Steps s view all (Found items) (send_pending c items n) After
  unfolding send_pending Found After
  send_pending-Steps [] n = record { at = λ f h. h }
  send_pending-Steps (item ∷ x ∷ xs) n = record { at = λ f h. elim h [ ] }
  send_pending-Steps (item ∷ []) n = by_limit (leb c.batches_per_flush n)
    where
      by_limit :
          (b : Bool)
          → Steps s view all
              (Found (item ∷ []))
              (if b then pure none else (deliver c item >> send_pending c [] (n + 1)))
              After
      by_limit true = record {
        at = λ f h. Holding-Balanced s view all item.batch item.next_position f h;
      }
      by_limit false = Triple-bind (deliver-Steps item) (λ u. record { at = λ f h. h })
