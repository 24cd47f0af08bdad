-- ===== src/Domain.antt =====
-- The entities and value objects of internal/domain.
pub mod Statement
pub mod Account
pub mod Labels
pub mod Paging
pub mod Pages
