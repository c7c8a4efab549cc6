-- ===== src/Entities.antt =====
-- backend/app/entities: the authority file of the names that articles mention.
pub mod Mentions
pub mod Store
pub mod Changes
pub mod Edits
pub mod Runs
pub mod Flat
pub mod Merging
pub mod Merged
pub mod Histories
pub mod Reach
pub mod Unchanged
pub mod Invariant
pub mod GivenBack
pub mod Labels
pub mod Normal
pub mod SplitBack
pub mod Finishing
pub mod Tests
