-- ===== src/Agent/Spool/Account.antt =====
-- What the event loop of internal/agent owes and what it has delivered: the terms in which its
-- invariant is stated.
use m_waf.Common.{
  Bool, Bool-cases, Bytes, Dict, IsWithin, List, Option, [], ap, err, false, if◌then◌else◌, inl,
  inr, length, map, none, ok, or_err, refl, some, sym, true, ℕ, ◌++◌, ◌+◌, ◌∙◌, ◌∷◌, ◌≡◌, ◌⊎◌,
}
use m_waf.Agent.Action.{Post, Triple, Triple-bind, lift}
use m_waf.Agent.Audit.{AuditPosition, Log, Source, start_position}
use m_waf.Agent.Audit.Batches.{left_at}
use m_waf.Agent.Spool.{
  Event, EventBatch, EventSpool, Feed, FeedError, Feeding, SpoolFile, attempt, file_name,
  first_fault, info_failed, is_working, other_faults, read_dir_failed, skipped, stats, stored,
  sum_sizes,
}
use m_waf.Agent.Audit.Growth.{IsPlaced}
use mathlib.Core.List.{append-nil, append_assoc}

module _ {E : Type 0} where
  abbrev pub bodies : List (Event E) → List E
  bodies events = map (λ e. e.body) events

  -- the events that the Manager has got, in the order of the requests
  abbrev pub sent : List (EventBatch E) → List E
  sent [] = []
  sent (b ∷ bs) = bodies b.events ++ sent bs

  pub sent-append :
      (bs : List (EventBatch E)) (b : EventBatch E)
      → sent (bs ++ b ∷ []) ≡ sent bs ++ bodies b.events
  sent-append [] b = append-nil (bodies b.events)
  sent-append (x ∷ bs) b =
      ap (λ es. bodies x.events ++ es) (sent-append bs b)
      ∙ sym (append_assoc (bodies x.events) (sent bs) (bodies b.events))

-- The audit log during a flush: what opening it gives, the log as it was read last, and as it is at the end.
pub record View (E : Type 0) : Type 0 where
  pub source : Source E
  pub seen : Log E
  pub final : Log E

module _ {E : Type 0} (s : EventSpool E) (view : View (Event E)) (all : List E) where
  -- what is left at the end behind a stored position
  abbrev pub due : AuditPosition → List E
  due p = bodies (left_at view.final (start_position p view.final))

  abbrev pub Placed : AuditPosition → Type 0
  Placed p = IsPlaced view.seen p

  -- Of all events those before the checkpoint have been received, in their order.
  abbrev pub Accounted : AuditPosition → List (EventBatch E) → Type 0
  Accounted p received =
      (before : List E) × (Placed p × (before ++ due p ≡ all)) × IsWithin before (sent received)

  -- A batch starts at the checkpoint and ends at its own position, or the checkpoint is there already.
  abbrev pub Fits : AuditPosition → List (Event E) → AuditPosition → Type 0
  Fits p events next = Placed next × ((bodies events ++ due next ≡ due p) ⊎ (due next ≡ due p))

  -- the only file of the spool, with this batch and its position
  abbrev pub Holds : EventBatch E → AuditPosition → Dict SpoolFile → Type 0
  Holds batch next files =
      (raw : Bytes) × (files ≡ (file_name batch, record { is_dir = false; raw = raw }) ∷ [])
      × (s.codec.decode raw ≡ some (stored batch next))

  abbrev pub Waits : AuditPosition → EventBatch E → AuditPosition → Dict SpoolFile → Type 0
  Waits p batch next files = Fits p batch.events next × Holds batch next files

  -- the spool is empty, or one batch waits in it
  abbrev pub Spooled : AuditPosition → Dict SpoolFile → Type 0
  Spooled p files =
      (files ≡ []) ⊎ ((batch : EventBatch E) × (next : AuditPosition) × Waits p batch next files)

  -- a property of the feed while the log is so
  abbrev pub Over :
      (AuditPosition → Dict SpoolFile → List (EventBatch E) → Type 0) → Feed E → Type 0
  Over Q f = (f.log ≡ view.source) × Q f.checkpoint f.files f.received

  -- The invariant of the event loop.
  abbrev pub Balanced : Feed E → Type 0
  Balanced = Over (λ p files received. Accounted p received × Spooled p files)

  abbrev pub Cleared : Feed E → Type 0
  Cleared = Over (λ p files received. Accounted p received × (files ≡ []))

  abbrev pub Holding : EventBatch E → AuditPosition → Feed E → Type 0
  Holding batch next = Over (λ p files received. Accounted p received × Waits p batch next files)

  pub Cleared-Balanced : (f : Feed E) → Cleared f → Balanced f
  Cleared-Balanced f (o, (a, e)) = (o, (a, inl e))

  pub Holding-Balanced :
      (batch : EventBatch E) (next : AuditPosition) (f : Feed E) → Holding batch next f → Balanced f
  Holding-Balanced batch next f (o, (a, w)) = (o, (a, inr (batch, next, w)))

  -- whatever is said of the feed but its faults
  abbrev pub Steps : {A : Type 0} → (Feed E → Type 0) → Feeding E A → (A → Feed E → Type 0) → Type 0
  Steps P m Q = Triple P m Q (λ e f. Balanced f)

  module _ (Q : AuditPosition → Dict SpoolFile → List (EventBatch E) → Type 0)
      (keeps : (f : Feed E) → Over Q f → Balanced f) where
    pub attempt-Steps : (e : FeedError) → Steps (Over Q) (attempt e) (λ u. Over Q)
    unfolding attempt
    attempt-Steps e = record { at = λ f h. after_fault f h (is_working (first_fault f.faults)) }
      where
        after_fault :
            (f : Feed E)
            → Over Q f
            → (b : Bool)
            → Post
                (λ u. Over Q)
                (λ e g. Balanced g)
                (if b
                  then (ok tt, record f { faults = other_faults f.faults })
                  else (err e, record f { faults = other_faults f.faults }))
        after_fault f h true = h
        after_fault f h false = keeps f h

    sum_sizes-Steps :
        (files : Dict SpoolFile) (count size : ℕ)
        → Steps (Over Q) (sum_sizes files count size) (λ u. Over Q)
    unfolding sum_sizes
    sum_sizes-Steps [] count size = record { at = λ f h. h }
    sum_sizes-Steps ((name, file) ∷ rest) count size = elim (Bool-cases (skipped name file)) [
      | inl skip ↦ rw skip (sum_sizes-Steps rest count size)
      | inr counted ↦ rw counted (
          Triple-bind (attempt-Steps info_failed)
            (λ u. sum_sizes-Steps rest (count + 1) (size + length file.raw)))
    ]

    pub stats-Steps : Steps (Over Q) stats (λ u. Over Q)
    unfolding stats
    stats-Steps =
        Triple-bind (attempt-Steps read_dir_failed)
          (λ u. record { at = λ f h. (sum_sizes-Steps f.files 0 0).at f h })

    -- a result that does not depend on the feed
    pub lift-Steps :
        {A : Type 0} (o : Option A) (e : FeedError)
        → Steps (Over Q) (lift (or_err o e)) (λ a f. (o ≡ some a) × Over Q f)
    lift-Steps none e = record { at = λ f h. keeps f h }
    lift-Steps (some a) e = record { at = λ f h. (refl, h) }
