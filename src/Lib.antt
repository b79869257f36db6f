-- ===== src/Lib.antt =====
-- The accreditation backend: a person files requests for accreditation to matches, the staff decides
-- on them within quotas, a validated request gets a badge, and gates scan badges.
--
-- The parts, and the files that model them. Paths are those of the repository.
-- - The tables of prisma/schema.prisma, the events of src/modules/*/events and the calls of the Prisma
--   client: Store. A call of a service is an action: a function from the database to a result, or an
--   exception, and the database afterwards (Store/Monad). What was written before an exception stays
--   written, as in the source, where only `$transaction` blocks are atomic. The client is a parameter
--   of every operation (Store/Client), with the documented meaning of each query as its laws; the
--   tables kept as lists are an instance of it. The foreign keys and unique columns of an insert are
--   tested in the operation that inserts for the rows of the history of scans, the badges and their
--   zones; every other insert takes its row, also one that the database would refuse. Store/Rules
--   and Store/Steps reason about actions, by what holds on each branch or by the branch that is
--   taken.
-- - src/shared/kernel and src/shared/guards: Kernel (errors and their status codes, permissions,
--   pages; Duties says which roles may do what).
-- - src/modules/competitions: Competitions. Matches has the service (`get` is get_match, `create` is
--   create_match, `update` is update_match, `assertAcceptingRequests` and `closeExpiredMatches` keep
--   their names); Window and Closing have the laws.
-- - src/modules/quotas: Quotas. Service has `setQuota`, `reserveSlot` and `releaseSlot`; Laws, Invariant
--   and Setting are about them; Race has the queries of concurrent reservations as steps, in any
--   order.
-- - src/modules/accreditations: Accreditations. Service has the operations, Numbering the numbers,
--   Issue the badge that is written, Draws which number it gets.
-- - src/modules/requests: Requests. Status is the table of transitions, Machine the paths in it; one
--   file for each use case (Draft, Submit, Transition, Complement, Cancel, Decide); Rows, Effects and
--   Decision say what each does to the table of requests, Counters what it does to the quotas; History
--   is any sequence of calls, with Capacity for the quotas along it; Submission, Verdicts,
--   Validation, Unfinished, Cancellation and Balance say what calls return and write. Queries has the
--   reads, Tracking what the public one tells; Http has the two controllers, and Ownership, Isolation
--   and Http/Isolation say whose requests a call can change.
-- - src/modules/access-control: AccessControl. Service has the scans, Devices those made
--   offline; Scans is about which badges are admissible, Entry about the answer to a scan and its
--   record, Revoked about revocations and cancellations, Offline about uploads.
--   Gate says what a gate promises, Refinement that the service keeps it.
-- - src/modules/iam: Iam (Users, Auth, Duration, and Register for the registration of the controller;
--   Listings the reads; Lockouts, Sessions, OwnAccount and Registration have the laws).
-- - src/modules/media and src/modules/media-desk: Media (Service, Profiles, Desk; Editors has the laws).
-- - src/modules/documents: Documents (Service; Versions has the laws).
-- - src/modules/accreditation-config: Configuration.
-- - src/modules/notifications and src/infrastructure/mail/template-renderer.service.ts: Notifications.
--   Renderer has the regular expression as a scan, Rendering and Pieces what it does; Templates and
--   Service the two services, Listener the handlers, Delivery what becomes of a mail.
-- - src/modules/audit: Audit.
-- - src/modules/reporting: Reporting. Dashboard has the figures, Figures how they agree; Labels has the
--   names on the reports, Scope what a report says about itself, Reports its rows, Partition which
--   scans they list; Search is the search.
-- - The other controllers of the staff: Staff (Settings, Field and Exports have the handlers, each
--   behind the guard of permissions, Routes every route that demands a permission, Supervision what a
--   supervisor can change). The controller of accounts is Iam/Desk, its calls as data are Iam/Calls.
-- - Tests: the theorems at concrete databases.
--
-- The parts call each other as in the source: a submission asks Competitions, a decision asks Quotas
-- and then Accreditations, a cancellation asks Quotas, a scan asks Accreditations for the badge of a
-- token. A registration opens an account in Iam and a profile in Media. The notifications read the events
-- that the others publish. They share the database.
--
-- Bounds and fuel. Numbers are natural numbers; the one subtraction on a counter runs only where the
-- counter is above 0. A number has no more digits than its value and one, which is the fuel of the
-- decimal printing. The loops of the draws run five times, as in the source.
--
-- The renderer is given as many steps as the template has characters; each step consumes one or more.
--
-- Not modelled: the drawing and storing of files, the transport of mails, the order of
-- lists (a page of a list is a parameter, Kernel/Listing), the initial data, adapters and wiring. The
-- guard of permissions stands in front of the handlers of the staff and of the requests; the checks of
-- the bodies, the routes of the session, the change of the own display name and the routes open to the
-- public are left out. The keyed hash of tokens, the hash of passwords, signatures,
-- the clock, identifiers and random draws are parameters. Calls run one after the other, except in
-- Quotas/Race. The clock is read once for a call.
pub mod Base
pub mod Store
pub mod Kernel
pub mod Media
pub mod Notifications
pub mod Audit
pub mod Configuration
pub mod Reporting
pub mod Competitions
pub mod Quotas
pub mod Accreditations
pub mod Requests
pub mod AccessControl
pub mod Iam
pub mod Documents
pub mod Staff
pub mod Tests
