-- ===== src/Risk.antt =====
-- core/risk: position sizing and the guardrails that every order passes.
pub mod Clock
pub mod Sizing
pub mod Guardrails
