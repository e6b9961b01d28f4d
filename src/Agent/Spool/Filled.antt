-- ===== src/Agent/Spool/Filled.antt =====
-- Reading the spool and filling it keep the invariant of the event loop of internal/agent/agent.go.
use mathlib.Core.Path.{subst}
use m_waf.Common.{
  Bool, Bytes, Dict, List, String, [], arith, eq_refl, false, has_suffix, has_suffix-append,
  if◌then◌else◌, inl, inr, insert, length, lookup, map, not, ok, refl, refuse, some, sort, sym,
  true, ◌++◌, ◌+◌, ◌==◌, ◌∷◌, ◌≡◌,
}
use m_waf.Agent.Action.{Post, Triple-bind, lift, modify, pure, raise, ◌>>=◌}
use m_waf.Agent.Audit.{AuditPosition}
use m_waf.Agent.Spool.{
  Event, EventBatch, EventSpool, Feed, Feeding, IsExact, SpoolFile, SpoolItem, attempt, file_name,
  item_invalid, item_of, item_refused, item_unreadable, marshal_failed, over, path_of,
  pending_items, put, read_dir_failed, read_item, read_items, spool_full, stats, stored,
  with_legacy_offset, write_failed,
}
use m_waf.Agent.Spool.Flushing.{FlushConfig}
use m_waf.Agent.Spool.Account.{
  Accounted, Balanced, Holding, Holding-Balanced, Over, Placed, Spooled, Steps, View, attempt-Steps,
  bodies, due, lift-Steps, stats-Steps,
}
use m_waf.Agent.Spool.Delivered.{Found}

found_only : (name : String) (file : SpoolFile) → lookup name ((name, file) ∷ []) ≡ some file
unfolding lookup
found_only name file = rw (eq_refl name) refl

module _ {E : Type 0} (c : FlushConfig E) (view : View (Event E)) (every : List E) where
  abbrev s : EventSpool E
  s = c.spool

  -- the item that the waiting file is read as
  abbrev item_with : EventBatch E → AuditPosition → SpoolItem E
  item_with batch next = record {
    batch = batch;
    next_position = next;
    path = path_of s (file_name batch);
  }

  no_legacy_offset :
      (batch : EventBatch E) (next : AuditPosition)
      → with_legacy_offset (stored batch next) ≡ stored batch next
  unfolding with_legacy_offset
  no_legacy_offset batch next = ground arith

  refused_without_id :
      (batch : EventBatch E) (next : AuditPosition)
      → item_refused (file_name batch) (stored batch next) ≡ (batch.batch_id == "")
  unfolding item_refused
  refused_without_id batch next = rw (eq_refl (file_name batch)) (ground arith)

  item_of-stored :
      (batch : EventBatch E) (next : AuditPosition) (raw : Bytes)
      → s.codec.decode raw ≡ some (stored batch next)
      → item_of s (file_name batch) raw
        ≡ refuse (batch.batch_id == "") item_invalid (ok (item_with batch next))
  unfolding item_of
  item_of-stored batch next raw h =
      rw (h, no_legacy_offset batch next, refused_without_id batch next) refl

  read_waiting :
      (batch : EventBatch E) (next : AuditPosition) (raw : Bytes)
      → s.codec.decode raw ≡ some (stored batch next)
      → Steps s view every
          (Holding s view every batch next)
          (read_items s
            (file_name batch ∷ [])
            ((file_name batch, record { is_dir = false; raw = raw }) ∷ []))
          (Found c view every)
  unfolding read_items read_item lookup Found
  read_waiting batch next raw h =
      subst
        (λ o.
          Steps s view every (Holding s view every batch next) (read_item s name o >>= collect)
            (Found c view every))
        (sym (found_only name file))
        (by_suffix (has_suffix name ".json") (has_suffix-append batch.batch_id ".json"))
    where
      name : String
      name = file_name batch

      file : SpoolFile
      file = record { is_dir = false; raw = raw }

      collect : List (SpoolItem E) → Feeding E (List (SpoolItem E))
      collect items = read_items s [] ((name, file) ∷ []) >>= λ rest. pure (items ++ rest)

      by_id :
          (b : Bool)
          → Steps s view every
              (Holding s view every batch next)
              (lift (refuse b item_invalid (ok (item_with batch next))) >>= λ item.
                pure (item ∷ []))
              (Found c view every)
      by_id true = record { at = λ f k. Holding-Balanced s view every batch next f k }
      by_id false = record { at = λ f k. k }

      collected :
          (items : List (SpoolItem E))
          → Steps s view every (Found c view every items) (collect items) (Found c view every)
      collected [] = record { at = λ f k. k }
      collected (item ∷ []) = record { at = λ f k. k }
      collected (item ∷ x ∷ xs) = record { at = λ f k. elim k [ ] }

      by_suffix :
          (b : Bool)
          → b ≡ true
          → Steps s view every
              (Holding s view every batch next)
              ((if not b
                  then pure []
                  else (attempt item_unreadable >>= λ u.
                      lift (item_of s name raw) >>= λ item. pure (item ∷ [])))
                >>= collect)
              (Found c view every)
      by_suffix false e = absurd (ground (arith, e))
      by_suffix true e =
          Triple-bind
            (Triple-bind
              (attempt-Steps s view every _ (Holding-Balanced s view every batch next)
                item_unreadable)
              (λ u. rw (item_of-stored batch next raw h) (by_id (batch.batch_id == ""))))
            collected

  pub pending_items-Steps :
      Steps s view every (Balanced s view every) (pending_items s) (Found c view every)
  unfolding pending_items sort Found read_items
  pending_items-Steps =
      Triple-bind (attempt-Steps s view every _ (λ f h. h) read_dir_failed)
        (λ u. record { at = λ f h. by_files f h.0 h.1.0 h.1.1 })
    where
      by_files :
          (f : Feed E)
          → f.log ≡ view.source
          → Accounted s view every f.checkpoint f.received
          → Spooled s view every f.checkpoint f.files
          → Post
              (Found c view every)
              (λ e g. Balanced s view every g)
              (read_items s (sort (map (λ e. e.0) f.files)) f.files f)
      by_files f o a (inl empty) =
          subst
            (λ (files : Dict SpoolFile).
              Post (Found c view every) (λ e g. Balanced s view every g)
                (read_items s (sort (map (λ e. e.0) files)) files f))
            (sym empty) (o, (a, empty))
      by_files f o a (inr (batch, next, (fits, (raw, e, d)))) =
          subst
            (λ (files : Dict SpoolFile).
              Post (Found c view every) (λ e g. Balanced s view every g)
                (read_items s (sort (map (λ e. e.0) files)) files f))
            (sym e) ((read_waiting batch next raw d).at f (o, (a, (fits, (raw, e, d)))))

  -- what a batch of the log leaves: it starts at the checkpoint
  abbrev pub Read : List (Event E) → AuditPosition → Feed E → Type 0
  Read events next = Over s view every λ p files received.
      (Accounted s view every p received × (files ≡ []))
      × (Placed s view every next × (bodies events ++ due s view every next ≡ due s view every p))

  pub Read-Balanced :
      (events : List (Event E)) (next : AuditPosition) (f : Feed E)
      → Read events next f
      → Balanced s view every f
  Read-Balanced events next f (o, ((a, e), _)) = (o, (a, inl e))

  module _ (exact : IsExact s.codec) where
    pub put-Steps :
        (batch : EventBatch E) (next : AuditPosition)
        → Steps s view every
            (Read batch.events next)
            (put s batch next)
            (λ item f. Holding s view every item.batch item.next_position f)
    unfolding put insert
    put-Steps batch next =
        Triple-bind
          (lift-Steps s view every _ (Read-Balanced batch.events next)
            (s.codec.encode (stored batch next)) marshal_failed)
          λ raw. record { at = λ f h. (with_raw raw h.0).at f h.1 }
      where
        written : Bytes → Feeding E (SpoolItem E)
        written raw = attempt write_failed >>= λ u.
            modify (λ f. record f {
              files =
                  insert (file_name batch) (record { is_dir = false; raw = raw ++ 10 ∷ [] })
                    f.files;
            })
            >>= λ v. pure (item_with batch next)

        filled :
            (raw : Bytes)
            → s.codec.encode (stored batch next) ≡ some raw
            → Steps s view every
                (Read batch.events next)
                (written raw)
                (λ item f. Holding s view every item.batch item.next_position f)
        filled raw e =
            Triple-bind
              (attempt-Steps s view every _ (Read-Balanced batch.events next) write_failed)
              λ u. record {
                at = λ f h. (
                  h.0,
                  (
                    h.1.0.0,
                    (
                      (h.1.1.0, inl h.1.1.1),
                      (
                        raw ++ 10 ∷ [],
                        rw h.1.0.1 refl,
                        exact.decode-encode (stored batch next) raw e,
                      ),
                    ),
                  ),
                );
              }

        by_room :
            (b : Bool) (raw : Bytes)
            → s.codec.encode (stored batch next) ≡ some raw
            → Steps s view every
                (Read batch.events next)
                (if b then raise spool_full else written raw)
                (λ item f. Holding s view every item.batch item.next_position f)
        by_room true raw e = record { at = λ f h. Read-Balanced batch.events next f h }
        by_room false raw e = filled raw e

        with_raw :
            (raw : Bytes)
            → s.codec.encode (stored batch next) ≡ some raw
            → Steps s view every
                (Read batch.events next)
                (stats >>= λ total.
                  if over s.max_bytes (total.1 + (length raw + 1))
                  then raise spool_full
                  else written raw)
                (λ item f. Holding s view every item.batch item.next_position f)
        with_raw raw e =
            Triple-bind (stats-Steps s view every _ (Read-Balanced batch.events next))
              λ total. by_room (over s.max_bytes (total.1 + (length raw + 1))) raw e
