-- ===== src/Tests.antt =====
-- The theorems at concrete inputs.
mod Sessions
mod Access
mod Terminal
mod Trail
mod Grants
mod Codes
mod Preferences
mod Fleet
mod Logins
mod Wire
mod Desktop
mod Secrets
