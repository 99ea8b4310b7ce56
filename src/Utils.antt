-- ===== src/Utils.antt =====
-- utils/src/utils.{hpp,cpp}
pub mod Split
pub mod Case
pub mod Base64
pub mod Tests
