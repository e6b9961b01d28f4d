-- ===== src/Agent/Host/Exec.antt =====
-- Methods that change the host and may fail.
use m_waf.Common.{Bool, List, [], err, false, if◌then◌else◌, ok, ◌∷◌}
use m_waf.Agent.Host.{ApplyError, World}
use m_waf.Agent.Action.{Action}
use m_waf.Agent.Action
pub use m_waf.Agent.Action.{
  pure, raise, continue, ◌>>=◌, ◌>>◌, handled, catch, wrap, lift, modify, Post, Triple,
  Triple-catch, Triple-bind, weaken-Post, Triple-weaken, Triple-bind_value,
}

abbrev pub Outcome : Type 0 → Type 0
Outcome A = Action.Outcome World ApplyError A

abbrev pub Exec : Type 0 → Type 0
Exec A = Action World ApplyError A

-- a system call that fails with `e` or does nothing that is modelled
unfoldable pub next_fault : List Bool → Bool
next_fault [] = false
next_fault (b ∷ _) = b

unfoldable pub later_faults : List Bool → List Bool
later_faults [] = []
later_faults (_ ∷ bs) = bs

unfoldable pub syscall : ApplyError → Exec (Unit {0})
unfolding next_fault later_faults
syscall e w =
    let w' = record w { faults = later_faults w.faults } in
    if next_fault w.faults then (err e, w') else (ok tt, w')
