-- ===== src/Effects.antt =====
-- What the operations do to the tables when they succeed, and what is left when they fail.
pub mod Replace
pub mod Merge
pub mod Choice
pub mod Growth
pub mod Create
pub mod Returns
pub mod Opening
pub mod Grouping
pub mod Reading
pub mod Takeover
pub mod Reassign
pub mod Deactivate
pub mod Partial
pub mod Handover
pub mod Relieved
pub mod Release
pub mod Report
pub mod Targets
pub mod MassDeactivate
pub mod Team
pub mod Statistics
