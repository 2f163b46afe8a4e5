-- ===== src/Draft.antt =====
-- Draft proposals and the comments on them (libs/draft-proposal, libs/draft-comment): the services
-- behind the draft API, over MongoDB repositories.
pub mod Entities
pub mod Proposals
pub mod Comments
pub mod Replies
pub mod Steps
