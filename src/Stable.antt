-- ===== src/Stable.antt =====
-- Stable views of unordered arrays: `stable_integer_component`, `stable_string_component`,
-- `derive_stable_array_view` and `require_stable_array_order` of
-- scripts/validate_governance_state.py.
pub mod Component
pub mod View
mod Identity
pub mod Rounds
pub mod Reorder
