-- ===== src/View.antt =====
-- openhands-sdk/openhands/sdk/context/view.py: the view of the history that the LLM is given.
pub mod Batch
pub mod Filter
pub mod Indices
pub mod Build
