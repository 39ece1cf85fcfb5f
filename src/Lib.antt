-- ===== src/Lib.antt =====
-- LanQin Email is a self-hosted mail service. This library models the core logic of its Go
-- server, apps/api/internal/app: what the handlers and workers compute and how they change the
-- database tables, as functions on records and lists.
--
-- The SQL statements of the source are modelled as functions on lists of rows: a condition is a
-- Boolean test on a row, an UPDATE maps the rows that meet it, and the number of affected rows
-- decides as in the source. A handler that runs several statements is one function. In Queue the
-- outcome of each database or file call is an argument (the field io of Env), so that these error
-- paths are part of the model; in the other parts a failing call, which ends the function with
-- its error and, where it runs in a transaction, with a rollback, is left out. Two handlers
-- interleave as a sequence of such functions; statements of different handlers are not
-- interleaved within one of them.
--
-- * Prelude, Prelude/Text, FilePath: numbers, lists and texts. A text is the list of its code
--   points, and TrimSpace and the like follow the Go library. FilePath is filepath.Base on slash
--   paths.
-- * Std, Std/Ascii: what is taken from the Go library as a parameter (case folding, net/mail,
--   base64), and an ASCII instance for the tests. LoginRateLimit and TwoFactor have records of
--   the same kind, NetLib and TotpLib.
-- * Address (util.go, cleanIDList of settings_handlers.go, uniqueNonEmpty of mailbox_sharing.go):
--   normalizeEmail, validRecipientAddress, dedupeEmails, requireCleanLocalPart.
-- * Queue (send_queue.go, queue_leases.go, delivery_queue_handlers.go, the queue handlers of
--   mail_handlers.go, cleanupExpiredRows of session.go): the table send_queue as a list of Row,
--   with audits, marker files and the accepted SMTP calls in Store. Queue/Worker is
--   claimSendQueueItem, processSendQueueItem, markSendQueueDelivered, markSendQueueFailed and
--   recoverStaleSendQueueItems; Queue/Enqueue is enqueueSend; Queue/Control is the retry, cancel
--   and cleanup statements; Queue/Actions is any sequence of these; the deletion of a user or a
--   mailbox, which removes rows by the foreign keys, is not among them.
-- * Permissions (Permissions.antt with Permissions/): permissions.go. Keys holds the catalogue of
--   permission keys, Catalog the functions on lists of keys, Permissions.antt the limits and the
--   checks on a user, Groups the tables permission_groups and user_permission_groups with the
--   functions that read and write them, and authorizationForUser. The groups of an authorisation
--   stay in the order of the query's rows, as their sorting is for display only. Groups are read
--   from and written to one database state: the transaction of the callers is not modelled.
-- * LoginRateLimit (LoginRateLimit.antt with LoginRateLimit/): login_rate_limit.go. The table
--   login_rate_limits is a list of rows whose key is scope and hash. The MySQL statement is
--   modelled assignment by assignment, as MySQL evaluates it, and the statement of the other
--   databases at once. Table has what an upsert and a deletion do to the row of a key.
-- * TwoFactor (TwoFactor.antt with TwoFactor/): the one-time codes of two_factor.go,
--   matchTOTPCounter and consumeTOTP. HMAC-SHA-1, base32 and unicode.ToUpper are parameters.
--   Replay has sequences of attempts, Codes the codes that are generated.
-- * Invite (Invite.antt with Invite/): registration_invite_handlers.go. A row of
--   registration_invites is an Invite; consumeRegistrationInviteTx runs in the transaction of the
--   registration, whose rollback is the function commit. Spending counts grants, Validity has the
--   invariant of the table.
-- * MaildirFlags (MaildirFlags.antt with MaildirFlags/): maildirPathWithFlags of maildir_write.go
--   and maildirFlagsFromPath of maildir_sync.go, on a path that is split into its last two parts
--   and what stands before them, with the separator of systems other than Windows.
-- * Instant (Instant.antt): the texts in the format RFC3339Nano in which instants are stored, and
--   their order, which is that of time in different seconds and not within one.
-- * Sharing (Sharing.antt with Sharing/): mailbox_sharing.go, with mailboxForUser,
--   mailboxForCurrentUserWithID, userByID and the handlers of mail_handlers.go that list messages
--   of a mailbox. The tables are lists of rows of a record Db, and a handler takes the database
--   to its answer and the database behind it. Requests has the checks of a request, Create and
--   Edit the handlers that write, Access the access to a mailbox and to a message, Lists the rows
--   that a list selects; the search text, the cursor and the page of a list, which select from
--   these, are left out. Outcomes and Writes say what each handler may write, Reading and MayRead
--   when an access is given and what it shows. The columns that hold times are texts in the
--   format RFC3339Nano, which the database compares as texts and the program parses. They are
--   instants here, and where an expiry or an access is compared with now, stored_before of
--   Instant.antt writes the fraction of a second out and compares the texts; other comparisons,
--   those of the queue, the webhooks and the limits included, are of the instants, whose order
--   the texts follow up to the second.
-- * Rebind (Rebind.antt with Rebind/): rebindPostgres and postgresDollarDelimiter of database.go.
--   Each inner loop is a function that splits the text behind an opening into what it consumes
--   and the rest; a turn of the outer loop is turn, and the outer loop runs on fuel, for which
--   the length of the query is taken: Fuel compares it with more. Pieces has queries by their
--   pieces, with what may follow each, and Swallowed what a literal of a single backslash takes
--   with it.
-- * Login (Login.antt with Login/): handleLogin and handleLogout of auth_handlers.go, the
--   challenges and the load of secrets of two_factor.go, issueSession of session.go and
--   authenticateRequest of router_auth.go, on a state with the rows of users, sessions,
--   login_challenges and login_rate_limits that they use. Stages composes LoginRateLimit and
--   TwoFactor the way the handler does. bcrypt, SHA-256, AES-GCM and the answer of the Turnstile
--   service are parameters.
-- * Webhook (Webhook.antt with Webhook/): status_webhook.go. An Outbox is the table
--   status_webhook_outbox with the posts that were made. A turn of the worker is cut into the
--   claim with its post and the UPDATE behind it, so that steps of other workers stand between
--   them; Steps has sequences of such steps, with the retries and cancellations of
--   delivery_queue_handlers.go; Bounded, Posts and Final are about them. The deletion of a
--   mailbox, whose trigger removes its events, is a step too.
--
-- Instants are numbers of nanoseconds, and one operation reads the clock once. The source stores
-- them as RFC 3339 text and lets SQL compare the text, which agrees with the order of the
-- instants except within one second, where a fraction with fewer digits may compare wrongly.
-- Database uniqueness, foreign keys and transactions are taken as the schema states them; random
-- parts of ids are arguments.
pub mod Address
pub mod FilePath
pub mod Instant
pub mod Invite
pub mod Login
pub mod LoginRateLimit
pub mod MaildirFlags
pub mod Permissions
pub mod Prelude
pub mod Queue
pub mod Rebind
pub mod Sharing
pub mod Std
pub mod TwoFactor
pub mod Webhook
