-- ===== src/Tests.antt =====
-- The theorems at concrete inputs, for the code under internal/policybundle, internal/agent,
-- internal/systempolicy and internal/manager.
mod Bundles
mod Builders
mod Codecs
mod Commands
mod Cycles
mod Deployments
mod Feeds
mod Hosts
mod Limits
mod Managers
mod Servers
