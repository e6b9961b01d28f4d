-- ===== src/Tests/Feeds.antt =====
-- Four flushes of internal/agent/agent.go over a log that grows, of which one meets a read error and one loses
-- the answer of the Manager.
use m_waf.Common.{
  Bool, Bool-cases, Bytes, List, Option, [], and-left, and-right, ap, arith, base, clean, eq_iff,
  erase, false, has_suffix, if◌then◌else◌, inl, inr, insert, join, join_path, lookup, nat_eq,
  nat_eq_iff, none, pos, refl, some, sort, split, sym, trim_space, true, ℕ, ◌&&◌, ◌++◌, ◌+◌, ◌==◌,
  ◌∷◌, ◌≡◌, ◌≤◌,
}
use m_waf.Agent.Audit.{
  Line, Log, Source, empty_position, interrupted, is_empty_position, opened, read_batch, read_lines,
  start_position,
}
use m_waf.Agent.Audit.Positions.{IsSteady}
use m_waf.Agent.Spool.{
  Event, Feed, IsExact, ItemCodec, Stored, attempt, delete_file, item_of, item_refused,
  pending_items, put, read_item, read_items, remove, stats, sum_sizes, unanswered,
  with_legacy_offset, works,
}
use m_waf.Agent.Spool.Flushing.{
  FlushConfig, commit, deliver, flush_audit, new_batch, read_audit, run_flushes, send_events,
  send_new, send_pending,
}
use m_waf.Agent.Spool.Loop.{HasReceived, flushes-HasReceived}
use m_waf.Tests.Codecs.{same_size, same_size-equal}
use m_waf.Agent.Audit.Growth.{Grows, end_of}
use m_waf.Agent.Audit.Interrupted.{IsCut}

abbrev event : ℕ → Event ℕ
event n = record { policy_revision = "r1"; body = n }

abbrev only_line : Line (Event ℕ)
only_line = record { size = 10; events = event 1 ∷ event 2 ∷ [] }

lines_at : ℕ → List (Line (Event ℕ))
lines_at o = if nat_eq o 0 then only_line ∷ [] else []

log : Log (Event ℕ)
unfolding lines_at
log = record { device = 1; inode = 2; size = 10; lines_from = lines_at }

first_of : List (Line (Event ℕ)) → Line (Event ℕ)
first_of [] = only_line
first_of (l ∷ _) = l

others_of : List (Line (Event ℕ)) → List (Line (Event ℕ))
others_of [] = []
others_of (_ ∷ ls) = ls

at_only :
    (o : ℕ) (line : Line (Event ℕ)) (rest : List (Line (Event ℕ)))
    → lines_at o ≡ line ∷ rest
    → (o ≡ 0) × (only_line ≡ line) × ([] ≡ rest)
unfolding lines_at first_of others_of
at_only o line rest h = elim (Bool-cases (nat_eq o 0)) [
  | inl z ↦ ((nat_eq_iff o 0).0 z, ap first_of (first h z), ap others_of (first h z))
  | inr nz ↦ missing (rw nz at h)
]
  where
    first : lines_at o ≡ line ∷ rest → nat_eq o 0 ≡ true → only_line ∷ [] ≡ line ∷ rest
    first h z = rw z at h

    missing : {A : Type 0} → [] ≡ line ∷ rest → A
    missing h = cc

log-IsSteady : IsSteady log
unfolding log lines_at
log-IsSteady = record {
  coherent = record { next_line = λ o line rest h. next_of o line rest (at_only o line rest h) };
  inside = λ o line rest h. inside_of o line (at_only o line rest h);
}
  where
    next_of :
        (o : ℕ) (line : Line (Event ℕ)) (rest : List (Line (Event ℕ)))
        → (o ≡ 0) × (only_line ≡ line) × ([] ≡ rest)
        → lines_at (o + line.size) ≡ rest
    next_of o line rest (z, l, r) = rw (z, sym l, sym r) refl

    inside_of :
        (o : ℕ) (line : Line (Event ℕ)) {rest : List (Line (Event ℕ))}
        → (o ≡ 0) × (only_line ≡ line) × ([] ≡ rest)
        → o + line.size ≤ 10
    inside_of o line (z, l, r) = rw (z, sym l) (omega arith)

-- the log before its first line
empty_log : Log (Event ℕ)
empty_log = record { device = 1; inode = 2; size = 0; lines_from = λ o. [] }

empty_log-IsSteady : IsSteady empty_log
unfolding empty_log
empty_log-IsSteady = record {
  coherent = record { next_line = λ o line rest h. cc };
  inside = λ o line rest h. cc;
}

empty_log-Grows : Grows empty_log empty_log
unfolding empty_log
empty_log-Grows = record {
  same_device = refl;
  same_inode = refl;
  longer = omega arith;
  added = λ o. refl;
}

log-Grows : Grows empty_log log
unfolding empty_log log
log-Grows = record {
  same_device = refl;
  same_inode = refl;
  longer = omega arith;
  added = λ o. refl;
}

log-Grows_no_more : Grows log log
unfolding log lines_at
log-Grows_no_more = record {
  same_device = refl;
  same_inode = refl;
  longer = omega arith;
  added = λ o. no_more o;
}
  where
    no_more : (o : ℕ) → lines_at o ≡ lines_at o ++ lines_at (end_of o (lines_at o))
    no_more o = elim (Bool-cases (nat_eq o 0)) [
      | inl z ↦ rw ((nat_eq_iff o 0).0 z) refl
      | inr nz ↦ rw nz (rw nz refl)
    ]

-- a read fails at once
cut_log : Log (Event ℕ)
cut_log = record { device = 1; inode = 2; size = 10; lines_from = λ o. [] }

cut_log-IsCut : IsCut cut_log log
unfolding cut_log log
cut_log-IsCut = record {
  same_device = refl;
  same_inode = refl;
  same_size = refl;
  beyond = λ o. (lines_at o, refl);
}

same_events : List (Event ℕ) → List (Event ℕ) → Bool
same_events [] [] = true
same_events (a ∷ ms) (b ∷ ns) =
    (a.policy_revision == b.policy_revision && nat_eq a.body b.body) && same_events ms ns
same_events _ _ = false

same_events-equal : (ms ns : List (Event ℕ)) → same_events ms ns ≡ true → ms ≡ ns
unfolding same_events
same_events-equal [] [] h = refl
same_events-equal (a ∷ ms) (b ∷ ns) h =
    let both =
      and-left (a.policy_revision == b.policy_revision && nat_eq a.body b.body) (same_events ms ns)
        h in
    let p =
      (eq_iff a.policy_revision b.policy_revision).0
        (and-left (a.policy_revision == b.policy_revision) _ both) in
    let n =
      (nat_eq_iff a.body b.body).0 (and-right (a.policy_revision == b.policy_revision) _ both) in
    let rest = same_events-equal ms ns (
      and-right (a.policy_revision == b.policy_revision && nat_eq a.body b.body) (same_events ms ns)
        h) in
    λ i. record { policy_revision = p i; body = n i } ∷ rest i
same_events-equal [] (b ∷ ns) h = cc
same_events-equal (a ∷ ms) [] h = cc

-- the item of the first flush
abbrev sent_item : Stored ℕ
sent_item = record {
  batch = record { batch_id = "b0"; events = event 1 ∷ event 2 ∷ [] };
  device = 1;
  inode = 2;
  offset = pos 10;
  message_offset = pos 0;
  next_offset = pos 0;
}

-- an item with the events of that one
same_item : Stored ℕ → Bool
unfolding same_events
same_item s =
    (s.batch.batch_id == "b0" && same_events s.batch.events sent_item.batch.events)
    && ((nat_eq s.device 1 && nat_eq s.inode 2)
        && (same_size s.offset (pos 10)
            && (same_size s.message_offset (pos 0) && same_size s.next_offset (pos 0))))

same_item-equal : (s : Stored ℕ) → same_item s ≡ true → sent_item ≡ s
unfolding same_item
same_item-equal s h =
    let batch =
      and-left (s.batch.batch_id == "b0" && same_events s.batch.events sent_item.batch.events) _
        h in
    let b = (eq_iff s.batch.batch_id "b0").0 (and-left (s.batch.batch_id == "b0") _ batch) in
    let e =
      same_events-equal s.batch.events sent_item.batch.events
        (and-right (s.batch.batch_id == "b0") _ batch) in
    let rest =
      and-right (s.batch.batch_id == "b0" && same_events s.batch.events sent_item.batch.events) _
        h in
    let file = and-left (nat_eq s.device 1 && nat_eq s.inode 2) _ rest in
    let d = (nat_eq_iff s.device 1).0 (and-left (nat_eq s.device 1) _ file) in
    let n = (nat_eq_iff s.inode 2).0 (and-right (nat_eq s.device 1) _ file) in
    let offsets = and-right (nat_eq s.device 1 && nat_eq s.inode 2) _ rest in
    let o = same_size-equal s.offset (pos 10) (and-left (same_size s.offset (pos 10)) _ offsets) in
    let others = and-right (same_size s.offset (pos 10)) _ offsets in
    let m =
      same_size-equal s.message_offset (pos 0)
        (and-left (same_size s.message_offset (pos 0)) _ others) in
    let x =
      same_size-equal s.next_offset (pos 0)
        (and-right (same_size s.message_offset (pos 0)) _ others) in
    sym (λ i. record {
      batch = record { batch_id = b i; events = e i };
      device = d i;
      inode = n i;
      offset = o i;
      message_offset = m i;
      next_offset = x i;
    })

item_codec : ItemCodec ℕ
unfolding same_item
item_codec = record {
  encode = λ s. if same_item s then some (7 ∷ []) else none;
  decode = λ raw. some sent_item;
}

item_codec-IsExact : IsExact item_codec
unfolding item_codec
item_codec-IsExact = record { decode-encode = λ s raw h. by_item s (same_item s) raw refl h }
  where
    by_item :
        (s : Stored ℕ) (b : Bool) (raw : Bytes)
        → same_item s ≡ b
        → ◌≡◌ {A = Option Bytes} (if b then some (7 ∷ []) else none) (some raw)
        → ◌≡◌ {A = Option (Stored ℕ)} (some sent_item) (some s)
    by_item s true raw e h = ap some (same_item-equal s e)
    by_item s false raw e h = cc

config : FlushConfig ℕ
unfolding item_codec
config = record {
  spool = record { directory = "/var/lib/mwaf/spool"; max_bytes = pos 1000; codec = item_codec };
  batch_size = 100;
  batches_per_flush = 10;
  event_verification_token = "token";
  random_id = λ n. "b0";
  current_revision = "r1";
}

-- The first flush finds no line, the second meets an error, the answer of the third does not come.
feed : Feed ℕ
unfolding empty_log
feed = record {
  log = opened empty_log;
  checkpoint = empty_position;
  files = [];
  received = [];
  drawn = 0;
  faults = works ∷ works ∷ works ∷ works ∷ works ∷ works ∷ unanswered ∷ [];
}

abbrev sources : List (Source (Event ℕ))
sources = opened empty_log ∷ interrupted cut_log ∷ opened log ∷ opened log ∷ []

-- the last flush sends the batch again and commits
delivered : (run_flushes config sources feed).checkpoint.offset ≡ 10
unfolding run_flushes config feed flush_audit pending_items attempt read_items sort send_pending
    send_new read_audit read_batch read_lines start_position new_batch put same_size sum_sizes
    deliver send_events is_empty_position commit delete_file item_of item_refused read_item remove
    stats with_legacy_offset erase insert lookup has_suffix base clean join join_path split
    trim_space item_codec lines_at log empty_log cut_log same_events same_item
delivered = refl

flushes-HasReceived_example : HasReceived log empty_position (run_flushes config sources feed)
unfolding feed config empty_log start_position
flushes-HasReceived_example =
    flushes-HasReceived config empty_log log sources feed item_codec-IsExact
      (
        empty_log,
        empty_log-IsSteady,
        empty_log-Grows,
        log-Grows,
        inl refl,
        (
          log,
          log-IsSteady,
          log-Grows,
          log-Grows_no_more,
          inr (inl (cut_log, refl, cut_log-IsCut)),
          (
            log,
            log-IsSteady,
            log-Grows_no_more,
            log-Grows_no_more,
            inl refl,
            (log, log-IsSteady, log-Grows_no_more, log-Grows_no_more, inl refl, tt),
          ),
        ),
      )
      (omega arith, inl refl) refl
