-- ===== src/Lib.antt =====
-- A model of the API of intern.logenhelfer.de, the intranet of a lodge: who may sign in, with which
-- proofs, for how long, and what a signed-in user may do. The program is a TypeScript service
-- (api/src) with a PostgreSQL database behind Prisma and a React client; modelled is the service's
-- own logic of authentication, second factors and authorisation, its accounts and their roles, its
-- events, its mails, and its import of calendars from other servers.
--
-- Parts, and where they are modelled:
-- - Store: the tables of api/prisma/schema.prisma that this logic uses, the in-memory challenge
--   maps of the passkey routes, and the mails sent, as one record. A table is a list of rows.
-- - External: what packages and Node.js do (SHA-256, bcrypt, JWT, one-time codes, WebAuthn, Unicode
--   case and space), as the fields of one record that all definitions take, with the laws that
--   their documentation states. Random draws and the clock are arguments.
-- - Http: api/src/lib/errors.ts, the error codes and the reply to what a handler throws.
-- - Auth: api/src/auth. Lockout is loginLockout.ts and mfaLockout.ts, RefreshToken is
--   refreshToken.ts (its child Race cuts a rotation into its database calls, so that requests
--   interleave), Jwt, TokenConfig, DeviceTrust (with signInTracking.ts) and Middleware are the
--   files of that name.
-- - Authz: api/src/authz/ability.ts. Rules and Grants are the rules that each role registers,
--   Ability is buildAbility, Visibility the predicates beside it. The decision of @casl/ability is
--   a record of its documented laws (Casl in Authz/Rules).
-- - Mfa: api/src/lib/mfaSettings.ts, mfaStatus.ts, mfaBackupCodes.ts and mfaEmailOtp.ts.
-- - Routes: the handlers of api/src/routes/session.ts, mfaChallenge.ts, mfa.ts (the proof of an
--   existing factor, the set-up and the removal of factors, trusted devices), passwordReset.ts and
--   me.ts. A handler is a function from a request, what it draws, the time and the store to the reply and
--   the new store; it calls the functions of Auth and Mfa as the code does.
-- - Calendar: the import of calendars. Address and Fetch are api/src/lib/safeIcsFetch.ts, with the
--   name servers, the other servers and the URL parser as a record (Network) whose answers may
--   differ from call to call; Sync is syncExternalEventIcsSource of
--   api/src/lib/externalEventIcsSync.ts, from the parsed feed on, and Schedule is its loop over all
--   sources with the timer of icsSyncScheduler.ts.
-- - Helpers: api/src/lib/pagination.ts, slug.ts and uuid.ts, with the decimal numbers that they read
--   and write.
-- - Members: userMobile.ts and adminAccount.ts of api/src/lib (Mobile, AdminAccount), and of
--   api/src/routes/members.ts the roles and degrees of a member (Roles), the rights on a row
--   (Access), and the routes that remove a member, reset the factors and act as a member (Accounts).
-- - Mailing: mailQueue.ts (Queue), mailWorker.ts (Worker) and eventRegistrationDigest.ts (Digest) of
--   api/src/lib. What Redis and the mail server answer are arguments.
-- - Events: api/src/routes/events.ts and externalEvents.ts. Registration is the registration for
--   events of both kinds, Times the dates and times, Lodge the lodge's own events, Foreign those of
--   other lodges, which a calendar may have brought in.
-- - Lodges: the removal of a district (api/src/routes/districts.ts) and of a lodge (lodges.ts), with
--   what belongs to them. The id in the path is what parseIdParam makes of it, or nothing.
-- - Base: tests on numbers and texts, lists as tables, maps, results.
-- - Tests: an instance of the packages, a small database, and the theorems applied to them.
--
-- Conventions: a time is in milliseconds, a native natural number; a handler reads the clock once,
-- where the code reads it at each step. Loops over rows are structural recursion, so that no fuel
-- is needed; the loop over redirects counts down the redirects that are left, as many as the code
-- allows, and the search for a free slug counts down its look-ups, of which one more than the
-- table has rows are enough. A sequence of requests is a list, an interleaving a list of which
-- request takes its next step; a registration for an event takes the rows that its look-up has
-- seen apart from the tables at its creation. Rate limiting by address, the wording of mails, the
-- Host header in a reset link, cookie attributes other than the name, the value and the life, and
-- the dummy comparison of the login (it costs time and decides nothing), the QR code of a secret
-- and the name of a passkey are not modelled. Not modelled are also the lists of members and of
-- events, the update of a member, the other routes of lodges, those for files, seekers,
-- configuration and public pages, the parsing of calendars, and the client. A request's date is
-- kept as the number of its day, which replies do not write out.
pub mod Base
pub mod Store
pub mod External
pub mod Http
pub mod Auth
pub mod Authz
pub mod Mfa
pub mod Routes
pub mod Calendar
pub mod Helpers
pub mod Members
pub mod Mailing
pub mod Events
pub mod Lodges
pub mod Tests
