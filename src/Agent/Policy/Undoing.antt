-- ===== src/Agent/Policy/Undoing.antt =====
-- How applyBundleFiles of internal/agent/policy.go can end.
use m_waf.Common.{
  Dict, Option, Option-cases, String, arith, clean, dir, eq_iff, erase, false, if◌then◌else◌, inl,
  inr, insert, is_some, join_path, lookup, lookup-erase, lookup-insert, none, some, starts_with,
  ◌≡◌,
}
use m_waf.Agent.Host.{
  ApplyError, Files, Node, World, absent, activate_failed, directory, link, restore_failed,
  rollback_reload_failed, rollback_switch_failed, rollback_write_failed, rolled_back, special,
}
use m_waf.Agent.Host.Exec.{
  Exec, Triple, Triple-bind, Triple-catch, Triple-weaken, raise, wrap, ◌>>◌,
}
use m_waf.Agent.Policy.Server.{Applier, active_path, test_and_reload}
use m_waf.Agent.Policy.Links.{legacy_path, remove_dir, replace_symlink}
use m_waf.Agent.Policy.Revision.{activate, reload_or_rollback}
use m_waf.Agent.Policy.Steps.{
  IsPlain, Now, PlainNow, remove_dir-Triple, replace_symlink-Triple, test_and_reload-Keeps,
}

-- Every directory of `before` is in `after`, with the same files.
abbrev pub Includes : Dict Files → Dict Files → Type 0
Includes before after =
    (q : String) (fs : Files) → lookup q before ≡ some fs → lookup q after ≡ some fs

-- the link that is put back: a link's own target, or where a plain directory was moved
abbrev pub previous_target : Applier → Node → String
previous_target p absent = ""
previous_target p special = ""
previous_target p (link t) =
    if starts_with t "/" then clean t else join_path (dir (active_path p)) t
previous_target p (directory fs) = legacy_path p

-- the node when a plain directory has been moved away
abbrev pub detached : Node → Node
detached (directory fs) = absent
detached absent = absent
detached (link t) = link t
detached special = special

-- What is active after an error: the previous revision, or as many steps from it as the undoing
-- itself has failed.
abbrev pub ActiveAfter : Applier → String → Node → ApplyError → Node → Type 0
ActiveAfter p path n (rolled_back e) m = m ≡ link (previous_target p n)
ActiveAfter p path n (activate_failed e) m = m ≡ link (previous_target p n)
ActiveAfter p path n (rollback_reload_failed e f) m = m ≡ link (previous_target p n)
ActiveAfter p path n (rollback_switch_failed e f) m = m ≡ link path
ActiveAfter p path n (restore_failed e f) m = m ≡ detached n
ActiveAfter p path n _ m = m ≡ n

pub plain_ActiveAfter :
    (p : Applier) (path : String) (n m : Node) (e : ApplyError)
    → IsPlain e
    → m ≡ n
    → ActiveAfter p path n e m
plain_ActiveAfter p path n m (activate_failed e) h q = absurd h
plain_ActiveAfter p path n m (rolled_back e) h q = absurd h
plain_ActiveAfter p path n m (restore_failed e f) h q = absurd h
plain_ActiveAfter p path n m (rollback_write_failed e f) h q = absurd h
plain_ActiveAfter p path n m (rollback_switch_failed e f) h q = absurd h
plain_ActiveAfter p path n m (rollback_reload_failed e f) h q = absurd h
plain_ActiveAfter p path n m _ h q = q

pub Includes-insert :
    (before after : Dict Files) (path : String) (fs : Files)
    → lookup path before ≡ none
    → Includes before after
    → Includes before (insert path fs after)
Includes-insert before after path fs new inc q gs h =
    rw lookup-insert (ground (arith, inc q gs, h, new, eq_iff path q))

pub Includes-erase :
    (before after : Dict Files) (path : String)
    → lookup path before ≡ none
    → Includes before after
    → Includes before (erase path after)
Includes-erase before after path new inc q gs h =
    rw lookup-erase (ground (arith, inc q gs, h, new, eq_iff path q))

pub none_below :
    (before after : Dict Files) (q : String)
    → Includes before after
    → is_some (lookup q after) ≡ false
    → lookup q before ≡ none
none_below before after q inc h = elim (Option-cases (lookup q before)) [
  | inl e ↦ e
  | inr (fs, e) ↦ absurd (clash (lookup q after) fs (inc q fs e) h)
]
  where
    clash : (o : Option Files) (fs : Files) → o ≡ some fs → is_some o ≡ false → ⊥
    clash o fs a b = ground (arith, a, b)

module _ (p : Applier) (web_server path : String) (n : Node) (before : Dict Files)
    (new : lookup path before ≡ none) where
  -- the error side of every statement: what is active is known, and no directory is lost
  abbrev pub Undone : ApplyError → World → Type 0
  Undone e w = ActiveAfter p path n e w.active × Includes before w.dirs

  pub plain_Undone : (e : ApplyError) (w : World) → PlainNow n (Includes before) e w → Undone e w
  plain_Undone e w h = (plain_ActiveAfter p path n w.active e h.0 h.1.0, h.1.1)

  -- A step that undoes: a wrapped step, where both the error and the success are known.
  wrap-Triple :
      {m : Exec (Unit {0})} {P : World → Type 0} {Q : Unit {0} → World → Type 0}
      {R R' : ApplyError → World → Type 0} (g : ApplyError → ApplyError)
      → Triple P m Q R
      → ((e : ApplyError) (w : World) → R e w → R' (g e) w)
      → Triple P (wrap g m) Q R'
  wrap-Triple g t h =
      Triple-catch t (λ e. record { at = λ w k. h e w k }) (λ u. record { at = λ w k. k })

  -- from the failed test of the web server on
  rollback-Triple :
      (e : ApplyError)
      → Triple
          (Now (link path) (Includes before))
          (wrap (rollback_switch_failed e) (replace_symlink (previous_target p n))
            >> (wrap (rollback_reload_failed e) (test_and_reload p web_server)
                >> (remove_dir path >> raise {A = Unit {0}} (rolled_back e))))
          (λ u w. ⊥)
          Undone
  rollback-Triple e =
      Triple-bind
        (wrap-Triple (rollback_switch_failed e)
          (replace_symlink-Triple (link path) (Includes before) (previous_target p n))
          (λ f w h. h.1))
        (λ u.
          Triple-bind
            (wrap-Triple (rollback_reload_failed e)
              (test_and_reload-Keeps (link (previous_target p n)) (Includes before) p web_server)
              (λ f w h. h.1))
            (λ v.
              Triple-bind
                (remove_dir-Triple (link (previous_target p n)) (Includes before) path
                  (λ ds h. Includes-erase before ds path new h))
                (λ x. record { at = λ w h. h })))

  -- from the failed switch of the link on
  restore-Triple :
      (e : ApplyError)
      → Triple
          (Now (detached n) (Includes before))
          (remove_dir path
            >> (wrap (restore_failed e) (replace_symlink (previous_target p n))
                >> raise {A = Unit {0}} (activate_failed e)))
          (λ u w. ⊥)
          Undone
  restore-Triple e =
      Triple-bind
        (remove_dir-Triple (detached n) (Includes before) path
          (λ ds h. Includes-erase before ds path new h))
        (λ u.
          Triple-bind
            (wrap-Triple (restore_failed e)
              (replace_symlink-Triple (detached n) (Includes before) (previous_target p n))
              (λ f w h. h.1))
            (λ v. record { at = λ w h. h }))

  module _ (staged : Files) where
    -- the new revision is there, and no directory is lost
    abbrev pub Published : Dict Files → Type 0
    Published ds = Includes before ds × (lookup path ds ≡ some staged)

    pub activate-Triple :
        Triple
          (Now (detached n) Published)
          (activate path (previous_target p n))
          (λ u. Now (link path) Published)
          Undone
    unfolding activate
    activate-Triple =
        Triple-catch (replace_symlink-Triple (detached n) Published path)
          (λ e.
            Triple-weaken (restore-Triple e) (λ w h. (h.1.0, h.1.1.0)) (λ u w h. absurd h)
              (λ f w h. h))
          (λ u. record { at = λ w h. h })

    pub reload-Triple :
        Triple
          (Now (link path) Published)
          (reload_or_rollback p web_server path (previous_target p n))
          (λ u. Now (link path) Published)
          Undone
    unfolding reload_or_rollback
    reload-Triple =
        Triple-catch (test_and_reload-Keeps (link path) Published p web_server)
          (λ e.
            Triple-weaken (rollback-Triple e) (λ w h. (h.1.0, h.1.1.0)) (λ u w h. absurd h)
              (λ f w h. h))
          (λ u. record { at = λ w h. h })
