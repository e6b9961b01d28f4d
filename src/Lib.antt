-- ===== src/Lib.antt =====
-- M-WAF: the Manager builds and signs policies for a web application firewall, and an Agent beside each
-- web server verifies them, puts them in force and reports what the firewall has logged.
--
-- The parts and how they interact. The Manager validates what operators write
-- (internal/manager/policy_configuration.go, policy_config.go) on top of a system policy
-- (internal/systempolicy/catalog.go), and packs both into bundles (internal/policybundle/bundle.go).
-- The Agent checks the signature of a bundle, parses it with the same package, stages its files as a
-- revision, switches the link of the active directory, and has the web server test and load it
-- (internal/agent/policy.go). It reads the audit log in batches from a checkpoint
-- (internal/agent/audit.go) and sends them over files of a spool (internal/agent/spool.go, agent.go); its
-- control cycle applies and reports policies, installs and reports packages, and runs the Manager's
-- commands (internal/agent/agent.go, operations.go). Sessions of the Manager's console carry a role and an
-- enterprise (internal/manager/session.go, identity.go).
--
-- The files:
--   Common       tests, lists, texts, maps, results and integers that all parts share.
--   Bundle       internal/policybundle/bundle.go. Types and Render have its data and the text of the
--                configuration files; Build has Build, BuildWithCRS, BuildBaseWithCRS, BuildOverride and
--                buildArchive; Parse has Parse, its loops as recursions over the entries and the listed
--                files; RoundTrip has Parse on what Build and BuildOverride return. Codec is what it
--                takes from the standard library: SHA-256, JSON, tar under gzip.
--   Agent        Host is the host of the applier: the node at the active path, the directories under
--                revisions/, the commands that were run, and which of the next system calls fail.
--                A method is a function from a World to a result and a World (Host/Exec), so what was
--                done before an error stays done. Verify has verifyArtifact, Policy has Apply,
--                Policy/Revision applyBundleFiles and applyBundle, Policy/Split ApplySplit, Policy/Links
--                the links, Policy/Server testAndReload, Policy/Conf the first format, Audit ReadBatch.
--                Action is what all methods share: actions on a state that may fail, and triples about
--                them. Spool has EventSpool, Spool/Flushing flushAudit, the rest of Spool its invariant;
--                Deployment has the package deployment of runControlCycle, Deployment/Install
--                applyPackageDeployment; Cycle has the policy part of runControlCycle, with
--                EnsurePolicyPublicKey of the client, and Commands
--                executeNextCommand. A call of these may fail, or do its work and lose its answer.
--   SystemPolicy internal/systempolicy/catalog.go: Template.Validate and Load.
--   PolicyConfig Types, Validate (ValidateAt, validatePolicyExclusion), Rules (safeCustomRules) and
--                Generated (nextGeneratedPolicyRuleID of internal/manager/policy_mutation.go).
--   Session      the consoles, scopes and roles of a session, and the limiters of requests and logins.
--   Tests        the theorems at concrete inputs.
--
-- Bounds and fuel. All loops of the source run over finite data and are structural recursions; the search
-- for a rule id counts down the 5000 ids of its namespace. Sizes are natural numbers and never wrap: they
-- are compared with 1, 4, 8 and 64 MiB, far below 2^63. The `int` fields of decoded JSON are integers with
-- a sign. `len` of a text of hexadecimal digits or of a digest counts characters, of which each is a byte.
-- A Go map is an association list; a loop over a map goes through it in one of its orders.
--
-- What is a parameter: the standard library's cryptography, JSON, tar, gzip, address parsing and regular
-- expressions, and what web server commands and system calls answer (by the list of faults).
-- What is not modelled: contexts and their timeouts, file modes and modification times, the removal of a
-- staging directory, the texts of error messages, HTTP, the database and the handlers of the Manager, the
-- rest of the Agent's control cycle, its client and inventory, the CRS index and sources. In a package
-- deployment the downloads, apt, the unpacking of a module archive and the restart are calls that may fail,
-- and web servers found on the host are a parameter.
-- The control cycles and the event loop, which run beside one another, are modelled apart. What changes in
-- the audit log while one flush reads it is not modelled: each flush finds one state of it, and in the theorem
-- on the event loop the log is neither rotated nor truncated. Of the key that verifies policies its download and its file are
-- modelled; the other identities of the client are not.
-- The order of the catalog's items is left out of Load.
pub mod Common
pub mod Bundle
pub mod Agent
pub mod SystemPolicy
pub mod PolicyConfig
pub mod Session
pub mod Tests
