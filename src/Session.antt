-- ===== src/Session.antt =====
-- The RDP session: harmony/app/common/src/main/cpp/session/.
pub mod Input
pub mod Graphics
pub mod Core
