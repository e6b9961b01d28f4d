-- ===== src/Bundle.antt =====
-- internal/policybundle/bundle.go: signed policy bundles, built by the Manager and read by the Agent.
pub mod Types
pub mod Render
pub mod Keys
pub mod Codec
pub mod Build
pub mod Parse
pub mod RoundTrip
