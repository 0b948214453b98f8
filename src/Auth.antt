-- ===== src/Auth.antt =====
-- backend/src/auth: the authentication services.
pub mod OtpLockout
pub mod Jwt
pub mod Totp
pub mod AuthService
pub mod RefreshToken
pub mod TokenBlacklist
pub mod Guards
pub mod Identity
pub mod Login
pub mod Controller
