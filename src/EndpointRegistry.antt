-- ===== src/EndpointRegistry.antt =====
-- The registry of logical phones, custom_components/voip_stack/endpoint_registry.py: its state and
-- the rebuilding of its indexes stand in State, the checks in Validation, the mutations in Operations
-- and Calls, and the lookups in Lookup.
pub mod State
pub mod Validation
pub mod Operations
pub mod Calls
pub mod Lookup
pub mod Index
pub mod Passed
pub mod Indexed
pub mod Stored
mod Named
pub mod Runs
pub mod Recalled
pub mod Effects
pub mod Invariant
mod Kept
mod Found
pub mod Lifecycle
pub mod Examples
mod Rejected
mod Registration
