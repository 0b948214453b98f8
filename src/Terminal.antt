-- ===== src/Terminal.antt =====
-- backend/src/terminal: the terminal sessions.
pub mod SshGateway
pub mod Guac
pub mod RdpGateway
pub mod RecordingCleanup
