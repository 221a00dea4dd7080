-- ===== src/Community.antt =====
-- backend/app/modules/community
pub mod Event
pub mod Registration
pub mod EventService
pub mod Moderated
pub mod Post
pub mod Reaction
pub mod Claim
pub mod Reach
mod Tests
