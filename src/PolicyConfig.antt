-- ===== src/PolicyConfig.antt =====
-- internal/manager/policy_configuration.go and policy_config.go: the policy that operators write.
pub mod Types
pub mod Rules
pub mod Validate
pub mod Generated
pub mod Reserved
