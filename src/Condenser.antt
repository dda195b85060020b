-- ===== src/Condenser.antt =====
-- openhands-sdk/openhands/sdk/context/condenser: when a view is condensed, and what is forgotten.
pub mod Tokens
pub mod Rolling
pub mod Summarizing
pub mod Pipeline
