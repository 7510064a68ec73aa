-- ===== src/LocalStore.antt =====
-- v2/src/footballai_v2/storage/local_analysis_runs.py: the runs of one machine, in directories.
pub mod Tree
pub mod Runs
pub mod Files
pub mod Lists
pub mod Rules
pub mod Growth
pub mod Steps
pub mod Objects
pub mod History
pub mod RoundTrip
pub mod Listing
