-- ===== src/Session.antt =====
-- internal/manager/session.go and identity.go: roles, the scope of a session in each console, and the
-- limiters of requests and logins. A time is a number of seconds; the zero time is 0.
pub mod Limits
use m_waf.Common.{
  Bool, String, arith, false, if◌then◌else◌, leb, not, trim_space, true, ℕ, ◌==◌, ◌||◌, ◌≡◌, ◌≢◌,
  ◌⊎◌,
}

pub data Role : Type 0 where
  no_role enterprise_user enterprise_admin system_admin : Role

-- the map `levels`; another role has 0
abbrev level : Role → ℕ
level no_role = 0
level enterprise_user = 1
level enterprise_admin = 2
level system_admin = 3

unfoldable pub role_at_least : Role → Role → Bool
role_at_least actual required = leb (level required) (level actual)

pub Role-discrete : Discrete Role
Role-discrete = hlevel

abbrev pub is_system_admin : Role → Bool
is_system_admin system_admin = true
is_system_admin _ = false

abbrev role_or : Role → Role → Role
role_or no_role other = other
role_or role other = role

pub data ConsoleArea : Type 0 where
  no_area enterprise system : ConsoleArea

pub record SessionData : Type 0 where
  pub user_id : String
  pub username : String
  pub display_name : String
  pub role : Role
  pub enterprise_id : String
  pub enterprise_name : String
  pub credential_tag : String
  pub expires_at : ℕ
  pub csrf : String
  pub actual_role : Role
  pub console_area : ConsoleArea

pub record TenantScope : Type 0 where
  pub home_enterprise_id : String
  pub global_access : Bool

unfoldable pub tenant_scope : SessionData → TenantScope
tenant_scope s = record {
  home_enterprise_id = s.enterprise_id;
  global_access = is_system_admin s.role;
}

unfoldable pub read_enterprise_id : TenantScope → String → String
read_enterprise_id s requested =
    if not s.global_access then s.home_enterprise_id else trim_space requested

unfoldable pub mutation_enterprise_id : TenantScope → String → String
mutation_enterprise_id s requested =
    if not s.global_access || trim_space requested == ""
    then s.home_enterprise_id
    else trim_space requested

-- the method `actualRole`
unfoldable pub effective_role : SessionData → Role
effective_role s = role_or s.actual_role s.role

unfoldable pub as_enterprise_console : SessionData → SessionData
unfolding effective_role
as_enterprise_console s = record s {
  actual_role = effective_role s;
  console_area = enterprise;
  role = (if is_system_admin (effective_role s) then enterprise_admin else s.role);
}

unfoldable pub as_system_console : SessionData → SessionData
unfolding effective_role
as_system_console s = record s {
  actual_role = effective_role s;
  console_area = system;
  role = effective_role s;
}

unfoldable pub can_access_system_management : SessionData → Bool
unfolding effective_role
can_access_system_management s = is_system_admin (effective_role s)

unfoldable pub can_operate : SessionData → Bool
unfolding role_at_least
can_operate s = role_at_least s.role enterprise_user

unfoldable pub can_manage_users : SessionData → Bool
unfolding role_at_least
can_manage_users s = role_at_least s.role enterprise_admin

unfoldable pub scope_enterprise_id : SessionData → String
unfolding tenant_scope
scope_enterprise_id s =
    if (tenant_scope s).global_access then "" else (tenant_scope s).home_enterprise_id

-- the last check of sessionManager.parse, on the decoded session
unfoldable pub session_refused : ℕ → SessionData → Bool
unfolding role_at_least
session_refused now s =
    s.user_id == ""
    || s.username == ""
    || s.csrf == ""
    || s.credential_tag == ""
    || not (role_at_least s.role enterprise_user)
    || leb s.expires_at now

-- For a session whose actual role is the system administrator or whose role is not: in the enterprise
-- console, whatever enterprise a request names, reading and changing go to the session's own
-- enterprise, and the right to manage the system is neither won nor lost.
pub enterprise_console_confined :
    (s : SessionData) (requested : String)
    → (effective_role s ≡ system_admin) ⊎ (s.role ≢ system_admin)
    → (read_enterprise_id (tenant_scope (as_enterprise_console s)) requested ≡ s.enterprise_id)
      × (mutation_enterprise_id (tenant_scope (as_enterprise_console s)) requested
          ≡ s.enterprise_id)
      × (scope_enterprise_id (as_enterprise_console s) ≡ s.enterprise_id)
      × (can_access_system_management (as_enterprise_console s) ≡ can_access_system_management s)
unfolding read_enterprise_id mutation_enterprise_id scope_enterprise_id tenant_scope
    as_enterprise_console can_access_system_management
enterprise_console_confined s requested h = (ground arith, ground arith, ground arith, ground arith)

-- Going to the enterprise console and on to the system console gives the session that going to the
-- system console directly gives.
pub system-enterprise_console :
    (s : SessionData) → as_system_console (as_enterprise_console s) ≡ as_system_console s
unfolding as_system_console as_enterprise_console
system-enterprise_console s = ground arith
