-- ===== src/Evidence.antt =====
-- The documents of an evidence package, as scripts/validate_governance_state.py checks them one by
-- one: requests, human bodies, attestations and manifests.
pub mod Inventory
pub mod Request
pub mod Attestation
pub mod Manifest
pub mod Bodies
pub mod Hashes
pub mod Bundle
pub mod Access
pub mod Responses
pub mod Publication
pub mod Bindings
pub mod Ledger
pub mod Sequence
