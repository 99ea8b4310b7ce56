-- ===== src/Protocol.antt =====
-- The protocols: protocol/detector, protocol/ftp and protocol/http.
pub mod Detector
pub mod FtpRequest
pub mod FtpResponse
pub mod HttpRequest
pub mod HttpResponse
pub mod Tests
