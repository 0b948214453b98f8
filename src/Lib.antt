-- ===== src/Lib.antt =====
-- OpenBastion, a bastion through which users reach machines over SSH and RDP from the browser.
--
-- The server (backend/src) lets a user in by password, one-time code or identity provider, gives
-- out an access token and a rotating refresh token, decides by roles and permissions which machine
-- a user may reach, and carries the terminal's traffic over a socket. This development is about
-- that decision-making core. Prisma, the JWT library, HMAC and node:crypto are parameters:
-- the records Database, Jwt, Crypto, Argon2, Ldap and Oidc and the type Hmac say what the code
-- relies on, and `memory` and `plain_jwt` show that this can be had. The record Vault is the
-- interface between the vault and its clients.
--
-- Base: tests, lists, maps and exceptions that all parts share. Exceptions are the values of
--   Result; their messages are left out.
-- Constants: backend/src/common/constants/security.constants.ts. Schema: the columns of
--   backend/prisma/schema.prisma that modelled code reads.
-- Database: the Prisma client. A table maps the unique column that rows are looked up by to the
--   row; every call is one atomic SQL statement. Vault: what the
--   clients of backend/src/vault/vault.service.ts rely on. Vault.Service: that service, over the
--   record Crypto for node:crypto; Segments is about what it decrypts, RoundTrip about what it
--   encrypts, Refinement fills the interface.
-- Auth.OtpLockout: backend/src/auth/otp-lockout.service.ts; `consume_attempt` is `consumeAttempt`,
--   of which `check_gate`, `increment` and `settle` are the three statements. Backoff is about the
--   lengths of the windows, Sequence about calls one after the other, Concurrent about calls whose
--   statements interleave (`advance` is one statement of one call).
-- Auth.Totp: backend/src/auth/totp.ts; Window is about the counters that are accepted.
-- Auth.AuthService: backend/src/auth/auth.service.ts, one-time codes (`verify_otp`, `enable_otp`,
--   `disable_otp`, `generate_otp`). Outcomes and Replay are about the replay cache, Enrolment is
--   about turning codes on.
-- Auth.Login: `validateUser`, `login` and the passwords of that service. Auth.Identity: what it
--   asks of argon2, and the interfaces of backend/src/auth/ldap.service.ts and oidc.service.ts.
-- Auth.Controller: backend/src/auth/auth.controller.ts. A route takes the tables (World) and what
--   the call draws, and gives the new tables and an answer; `guarded` puts the guard before it.
--   Sudo is the step up to the admin mode, SingleSignOn the routes through an OIDC provider.
--   Trace has the routes as calls, the runs of them and what proves an identity; Sessions,
--   Unprivileged, StepUp, Confirmation and Steps lead to Elevation. Entry is about logins, Exit
--   about the logout.
-- Auth.RefreshToken: backend/src/auth/refresh-token.service.ts; `rotate` is the rotation, with the
--   statements `claim`, `kill_family` and `create` in it. Claim is about the atomic claim, Reuse
--   about the two outcomes of a rotation.
-- Auth.TokenBlacklist: backend/src/auth/token-blacklist.service.ts. Auth.Jwt: the library
--   @nestjs/jwt and the payloads that the server signs.
-- Auth.Guards: backend/src/auth/guards/jwt-auth.guard.ts,
--   backend/src/common/guards/roles.guard.ts, `shouldSkip` of
--   backend/src/common/guards/user-throttler.guard.ts and `revokeAllTokens` of
--   backend/src/users/users.service.ts. OpenRoutes is about the routes that a pending password
--   change leaves open, Admission about whom the guard lets in, Revocation about later requests.
-- Rbac: backend/src/rbac/rbac.service.ts and backend/src/rbac/rbac.guard.ts; Spec says who is
--   authorised, Access and Guard compare. Rbac.Permissions: `create` and `remove` of
--   backend/src/rbac/permissions.controller.ts.
-- Terminal.SshGateway: backend/src/terminal/ssh.gateway.ts. A handler takes the maps of the
--   gateway and gives the new ones and the effects on the socket, the stream and the audit log;
--   Traffic has the messages and the interval, Events the step relation; Changes and Ownership
--   lead to Invariant, Confirmation is about what the cached answers come from, Keystrokes about
--   single messages, Kills about the ends of sessions.
-- Terminal.Guac: backend/src/terminal/guac-protocol.ts. Digits is about the length prefixes,
--   Prefixes and Streaming about chunks, RoundTrip about what is written and read back.
-- Terminal.RdpGateway: backend/src/terminal/rdp.gateway.ts, in the same manner; `authenticate` is
--   `authenticateSocket`, `start_tunnel` is `handleStartSession`, `poll_tunnel` the interval.
--   Events has the step relation, Kept and Messages what a step does to the sessions; Frames is about single
--   frames, Confirmation about frames after a run, Slots about the sockets counted per user.
-- Terminal.RecordingCleanup: backend/src/terminal/recording/recording-cleanup.service.ts; Spared is
--   about the recordings that a sweep leaves alone. The sweep is one step, while the code awaits
--   each unlink between its query and its deletions.
-- Audit: backend/src/common/interceptors/audit.interceptor.ts; Routes is about the requests
--   that it leaves to others, Redaction about what its rows keep of a body.
-- Machines: backend/src/machines/machines.service.ts; Credentials is about the secrets, Visibility
--   about the level that a user is shown against what Rbac grants, Listing about the list.
-- Settings: backend/src/settings/settings.service.ts; Coherence is about the cache, Retention
--   about the retention of recordings.
-- Users: backend/src/users/users.service.ts, the accounts of external identities.
-- Tests: the theorems at concrete inputs.
--
-- Times are in milliseconds, but for a token's issue and expiry, which are whole seconds, and the clock's readings are arguments, as are random draws (ids,
-- initialisation vectors). Numbers are natural; where the source subtracts, the difference is of a
-- later and an earlier time, or the model says what happens below zero. Loops run over a
-- list or a width, but for the two of the Guacamole parser and the one that prints a number, on
-- fuel: `parse_parts` has the length of the buffer, of which a round takes two units or more,
-- `feed_loop` one more than that (Streaming.Runs is the loop without a bound), and `emit` the
-- number itself, which a round divides by ten. The 32-bit accumulator of the base32 decoder wraps at
-- 2 ^ 32.
--
-- Not modelled: the frontend (client); the other controllers; the handshake with guacd; the exchange with
-- the directory or the OIDC provider, and what it does to groups; the audit log's queries and the metrics;
-- the recorder. The handlers of the
-- gateways are steps of their own: what a database call lets in between is left out there, as are
-- the timers of inactivity and of the longest session, which disconnect the socket.
pub mod Base
pub mod Database
pub mod Constants
pub mod Schema
pub mod Vault
pub mod Auth
pub mod Rbac
pub mod Terminal
pub mod Settings
pub mod Machines
pub mod Users
pub mod Audit
mod Tests
