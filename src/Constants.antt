-- ===== src/Constants.antt =====
-- backend/src/common/constants/security.constants.ts
use open_bastion.Base.{ℕ, ◌*◌}

abbrev pub jwt_expiration_seconds : ℕ
jwt_expiration_seconds = 900

abbrev pub jwt_refresh_expiration_seconds : ℕ
jwt_refresh_expiration_seconds = 7 * 24 * 3600

abbrev pub otp_max_attempts : ℕ
otp_max_attempts = 5

abbrev pub otp_backoff_base_ms : ℕ
otp_backoff_base_ms = 30_000

abbrev pub otp_backoff_max_ms : ℕ
otp_backoff_max_ms = 30 * 60 * 1000
