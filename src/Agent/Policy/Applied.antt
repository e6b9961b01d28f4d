-- ===== src/Agent/Policy/Applied.antt =====
-- What a call of applyBundleFiles (internal/agent/policy.go) leaves behind.
use mathlib.Core.Path.{subst}
use m_waf.Common.{
  Bool, Bytes, Dict, String, [], arith, base, eq_iff, eq_refl, ext, false, if◌then◌else◌, insert,
  is_some, lookup, lookup-insert, none, not, refl, some, sym, true, ◌==◌, ◌||◌, ◌∷◌, ◌≡◌,
}
use m_waf.Agent.Host.{
  ApplyError, Files, Node, World, absent, active_unsafe, directory, inspect_failed, link,
  lstat_failed, metadata_unsafe, migrate_failed, mkdir_failed, publish_failed, readlink_failed,
  revision_exists, revision_unsafe, special, stage_failed,
}
use m_waf.Agent.Host.Exec.{
  Exec, Outcome, Post, Triple, Triple-bind, Triple-bind_value, Triple-catch, Triple-weaken, modify,
  pure, raise, syscall, weaken-Post, ◌>>=◌, ◌>>◌,
}
use m_waf.Agent.Policy.Revision.{
  activate, apply_bundle_files, compatibility_entry, note_previous, publish, reload_or_rollback,
  stage, stage_all, stage_metadata, switch_revision,
}
use m_waf.Agent.Policy.Links.{
  insert_dir, inspect_node, legacy_path, prepare_active_link, remove_dir,
}
use m_waf.Agent.Policy.Undoing.{
  ActiveAfter, Includes, Includes-erase, Includes-insert, Undone, activate-Triple, detached,
  none_below, plain_ActiveAfter, plain_Undone, previous_target, reload-Triple,
}
use m_waf.Agent.Policy.Server.{
  Applier, DesiredState, active_path, revision_path, valid_revision_name,
}
use m_waf.Agent.Policy.Steps.{
  IsPlain, Now, PlainNow, note_previous-Triple, remove_dir-Triple, syscall-Keeps,
}

-- The files of a new revision: later names overwrite earlier ones.
abbrev pub add_files : Dict Bytes → Files → Files
add_files [] staged = staged
add_files ((name, content) ∷ rest) staged = add_files rest (insert name content staged)

abbrev pub staged_files : Dict Bytes → Dict Bytes → Files
staged_files files metadata =
    insert "main.conf" compatibility_entry (add_files metadata (add_files files []))

module _ (n : Node) (D : Dict Files → Type 0) where
  -- what the staging loops return
  abbrev Returns : Files → Files → World → Type 0
  Returns expected staged w = (staged ≡ expected) × Now n D w

  stage-Returns :
      (files : Dict Bytes) (staged : Files)
      → Triple (Now n D) (stage files staged) (Returns (add_files files staged)) (PlainNow n D)
  unfolding stage
  stage-Returns [] staged = record { at = λ w k. (refl, k) }
  stage-Returns ((name, content) ∷ rest) staged =
      Triple-bind (syscall-Keeps n D stage_failed tt)
        (λ u. stage-Returns rest (insert name content staged))

  stage_metadata-Returns :
      (files : Dict Bytes) (staged : Files)
      → Triple
          (Now n D)
          (stage_metadata files staged)
          (Returns (add_files files staged))
          (PlainNow n D)
  unfolding stage_metadata
  stage_metadata-Returns [] staged = record { at = λ w k. (refl, k) }
  stage_metadata-Returns ((name, content) ∷ rest) staged =
      pick (not (base name == name) || not (ext name == ".json"))
        (stage_metadata-Returns rest (insert name content staged))
    where
      pick :
          (b : Bool)
          → Triple
              (Now n D)
              (stage_metadata rest (insert name content staged))
              (Returns (add_files rest (insert name content staged)))
              (PlainNow n D)
          → Triple
              (Now n D)
              (if b
                then raise metadata_unsafe
                else (syscall stage_failed >> stage_metadata rest (insert name content staged)))
              (Returns (add_files rest (insert name content staged)))
              (PlainNow n D)
      pick true later = record { at = λ w k. (tt, k) }
      pick false later = Triple-bind (syscall-Keeps n D stage_failed tt) (λ u. later)

  stage_all-Returns :
      (files metadata : Dict Bytes)
      → Triple
          (Now n D)
          (stage_all files metadata)
          (Returns (staged_files files metadata))
          (PlainNow n D)
  unfolding stage_all
  stage_all-Returns files metadata =
      Triple-bind_value
        (λ a. stage_metadata metadata a >>= λ b.
          (syscall stage_failed >> pure (insert "main.conf" compatibility_entry b)))
        (add_files files []) (stage-Returns files [])
        (Triple-bind_value
          (λ b. syscall stage_failed >> pure (insert "main.conf" compatibility_entry b))
          (add_files metadata (add_files files []))
          (stage_metadata-Returns metadata (add_files files []))
          (Triple-bind (syscall-Keeps n D stage_failed tt) (λ u. record { at = λ w k. (refl, k) })))

module _ (path : String) (before : Dict Files) (staged : Files) where
  -- the new revision is published, and no directory is lost
  abbrev Ready : Dict Files → Type 0
  Ready ds = Includes before ds × (lookup path ds ≡ some staged)

  Ready-insert :
      (ds : Dict Files) (q : String) (fs : Files)
      → is_some (lookup q ds) ≡ false
      → Ready ds
      → Ready (insert q fs ds)
  Ready-insert ds q fs free r = (
    Includes-insert before ds q fs (none_below before ds q r.0 free) r.0,
    rw lookup-insert (ground (arith, r.1, free, eq_iff q path)),
  )

  -- What `prepareActiveLink` finds: the target of the link, or where a directory was moved.
  abbrev Found : Applier → Node → String → World → Type 0
  Found p m a w = (a ≡ previous_target p m) × Now (detached m) Ready w

  -- a plain directory is moved, unless its new name is taken
  moved :
      (p : Applier) (fs : Files) (b : Bool) (w : World)
      → is_some (lookup (legacy_path p) w.dirs) ≡ b
      → Now (directory fs) Ready w
      → Post (Found p (directory fs)) (PlainNow (directory fs) Ready) (
          if b
          then raise migrate_failed w
          else (modify (λ v. insert_dir (legacy_path p) fs (record v { active = absent }))
                >> pure (legacy_path p))
              w)
  moved p fs true w e k = (tt, k)
  moved p fs false w e k = (refl, (refl, Ready-insert w.dirs (legacy_path p) fs e k.1))

  inspect-Triple :
      (p : Applier) (m : Node)
      → Triple (Now m Ready) (inspect_node p m) (Found p m) (PlainNow m Ready)
  unfolding inspect_node
  inspect-Triple p absent = record { at = λ w k. (tt, k) }
  inspect-Triple p special = record { at = λ w k. (tt, k) }
  inspect-Triple p (link t) =
      Triple-bind (syscall-Keeps (link t) Ready readlink_failed tt)
        (λ u. record { at = λ w k. (refl, k) })
  inspect-Triple p (directory fs) =
      Triple-bind (syscall-Keeps (directory fs) Ready migrate_failed tt)
        (λ u. record { at = λ w k. moved p fs (is_some (lookup (legacy_path p) w.dirs)) w refl k })

  prepare-Triple :
      (p : Applier) (n : Node)
      → Triple (Now n Ready) (prepare_active_link p) (Found p n) (PlainNow n Ready)
  unfolding prepare_active_link
  prepare-Triple p n = Triple-bind (syscall-Keeps n Ready inspect_failed tt) (λ u. record {
    at = λ w k.
        subst (λ m. Post (Found p n) (PlainNow n Ready) (inspect_node p m w)) (sym k.0)
          ((inspect-Triple p n).at w k);
  })

module _ (p : Applier) (web_server path : String) (n : Node) (before : Dict Files)
    (new : lookup path before ≡ none) (staged : Files) where
  abbrev Lost : ApplyError → World → Type 0
  Lost = Undone p web_server path n before new

  switch-Triple :
      Triple
        (Now n (Ready path before staged))
        (switch_revision p web_server path)
        (λ u. Now (link path) (Ready path before staged))
        Lost
  unfolding switch_revision
  switch-Triple =
      Triple-bind_value
        (λ a. activate path a >> (reload_or_rollback p web_server path a >> note_previous a))
        (previous_target p n)
        (Triple-catch (prepare-Triple path before staged p n)
          (λ e.
            Triple-bind {Q = λ u w. IsPlain e × Now n (Includes before) w}
              (record { at = λ w k. removed e w k })
              (λ u. record { at = λ w k. plain_Undone p web_server path n before new e w k }))
          (λ a. record { at = λ w k. k }))
        (Triple-bind (activate-Triple p web_server path n before new staged) (λ u.
          Triple-bind (reload-Triple p web_server path n before new staged) (λ v.
            note_previous-Triple (link path) (Ready path before staged) (previous_target p n))))
    where
      removed :
          (e : ApplyError) (w : World)
          → PlainNow n (Ready path before staged) e w
          → Post
              (λ (u : Unit {0}) v. IsPlain e × Now n (Includes before) v)
              Lost
              (remove_dir path w)
      removed e w k =
          weaken-Post (remove_dir path w)
            ((remove_dir-Triple n (Includes before) path
                (λ ds h. Includes-erase before ds path new h)).at
              w (k.1.0, k.1.1.0))
            (λ u v h. (k.0, h)) (λ f v h. h)

-- What is left behind: on success the new revision is active, holds exactly the staged files and
-- had no directory before; after an error what is active is known. No directory is lost or changed.
abbrev pub Settled : Applier → String → Files → World → Outcome (Unit {0}) → Type 0
Settled p path expected w0 =
    Post
      (λ u w.
        (w.active ≡ link path)
        × (lookup path w.dirs ≡ some expected)
        × (lookup path w0.dirs ≡ none)
        × Includes w0.dirs w.dirs)
      (λ e w. ActiveAfter p path w0.active e w.active × Includes w0.dirs w.dirs)

module _ (p : Applier) (web_server path : String) (w0 : World) (staged : Files) where
  abbrev Same : Dict Files → Type 0
  Same ds = ds ≡ w0.dirs

  abbrev Failed : ApplyError → World → Type 0
  Failed e w = ActiveAfter p path w0.active e w.active × Includes w0.dirs w.dirs

  Same-Failed : (e : ApplyError) (w : World) → PlainNow w0.active Same e w → Failed e w
  Same-Failed e w k =
      (plain_ActiveAfter p path w0.active w.active e k.0 k.1.0, λ q fs h. rw k.1.1 h)

  -- the check for a directory of that name
  new_or_refused :
      (b : Bool) (w : World)
      → is_some (lookup path w.dirs) ≡ b
      → Now w0.active Same w
      → Post
          (λ (u : Unit {0}) v. (lookup path w0.dirs ≡ none) × Now w0.active Same v)
          (PlainNow w0.active Same)
          (if b then raise revision_exists w else pure tt w)
  new_or_refused true w e k = (tt, k)
  new_or_refused false w e k = (none_below w0.dirs w.dirs path (λ q fs h. rw k.1 h) e, k)

  abbrev Fresh : Unit {0} → World → Type 0
  Fresh u w = (lookup path w0.dirs ≡ none) × Now w0.active (Ready path w0.dirs staged) w

  inserted :
      lookup path w0.dirs ≡ none
      → Triple
          (Now w0.active Same)
          (modify (insert_dir path staged))
          Fresh
          (PlainNow w0.active Same)
  inserted new = record {
    at = λ w k. (
      new,
      (
        k.0,
        (
          Includes-insert w0.dirs w.dirs path staged new (λ q fs r. rw k.1 r),
          rw lookup-insert (rw (eq_refl path)),
        ),
      ),
    );
  }

  renamed :
      lookup path w0.dirs ≡ none
      → Triple
          (Now w0.active Same)
          (syscall lstat_failed >> (syscall publish_failed >> modify (insert_dir path staged)))
          Fresh
          (PlainNow w0.active Same)
  renamed new =
      Triple-bind (syscall-Keeps w0.active Same lstat_failed tt)
        (λ v. Triple-bind (syscall-Keeps w0.active Same publish_failed tt) (λ x. inserted new))

  publish-Triple : Triple (Now w0.active Same) (publish path staged) Fresh (PlainNow w0.active Same)
  unfolding publish
  publish-Triple =
      Triple-bind {Q = λ u w. (lookup path w0.dirs ≡ none) × Now w0.active Same w}
        {m = λ w. if is_some (lookup path w.dirs) then raise revision_exists w else pure tt w}
        (record { at = λ w k. new_or_refused (is_some (lookup path w.dirs)) w refl k })
        (λ u. record { at = λ w k. (renamed k.0).at w k.1 })

  -- from publishing on
  publish_and_switch :
      Triple
        (Now w0.active Same)
        (publish path staged >> switch_revision p web_server path)
        (λ u w.
          (w.active ≡ link path)
          × (lookup path w.dirs ≡ some staged)
          × (lookup path w0.dirs ≡ none)
          × Includes w0.dirs w.dirs)
        Failed
  publish_and_switch =
      Triple-bind (Triple-weaken publish-Triple (λ w k. k) (λ u w k. k) Same-Failed) (λ u. record {
        at = λ w k.
            weaken-Post (switch_revision p web_server path w)
              ((switch-Triple p web_server path w0.active w0.dirs k.0 staged).at w k.1)
              (λ v x h. (h.0, h.1.1, k.0, h.1.0)) (λ e x h. h);
      })

  -- the whole body, behind its two checks
  pub guarded :
      {stage_them : Exec Files} (unsafe_name unsafe_path : Bool)
      → Triple
          (Now w0.active Same)
          stage_them
          (λ a w. (a ≡ staged) × Now w0.active Same w)
          (PlainNow w0.active Same)
      → Triple
          (Now w0.active Same)
          (if unsafe_name
            then raise revision_unsafe
            else if unsafe_path
            then raise active_unsafe
            else (syscall mkdir_failed
                >> (syscall mkdir_failed
                    >> (stage_them >>= λ a.
                        (publish path a >> switch_revision p web_server path)))))
          (λ u w.
            (w.active ≡ link path)
            × (lookup path w.dirs ≡ some staged)
            × (lookup path w0.dirs ≡ none)
            × Includes w0.dirs w.dirs)
          Failed
  guarded true b t = record { at = λ w k. Same-Failed revision_unsafe w (tt, k) }
  guarded false true t = record { at = λ w k. Same-Failed active_unsafe w (tt, k) }
  guarded false false t =
      Triple-bind
        (Triple-weaken (syscall-Keeps w0.active Same mkdir_failed tt) (λ w k. k) (λ u w k. k)
          Same-Failed)
        (λ u.
          Triple-bind
            (Triple-weaken (syscall-Keeps w0.active Same mkdir_failed tt) (λ w k. k) (λ v w k. k)
              Same-Failed)
            (λ v.
              Triple-bind_value (λ a. publish path a >> switch_revision p web_server path) staged
                (Triple-weaken t (λ w k. k) (λ a w k. k) Same-Failed) publish_and_switch))

-- However applyBundleFiles ends: on success the new revision's link is active, its directory is new
-- and holds exactly the bundle's files, the metadata and the compatibility entry. After an error
-- the link of the previous revision is active, as it was or put back, unless putting it back has
-- itself failed, which the error says. No published directory is lost or changed.
pub apply_bundle_files-Settled :
    (p : Applier) (web_server : String) (state : DesiredState) (files metadata : Dict Bytes)
    (w : World)
    → Settled p
        (revision_path p state)
        (staged_files files metadata)
        w
        (apply_bundle_files p web_server state files metadata w)
unfolding apply_bundle_files
apply_bundle_files-Settled p web_server state files metadata w0 =
    (guarded p web_server (revision_path p state) w0 (staged_files files metadata)
        (not (valid_revision_name state.revision_id)) (active_path p == "." || active_path p == "/")
        (stage_all-Returns w0.active (λ ds. ds ≡ w0.dirs) files metadata)).at
      w0 (refl, refl)
