-- ===== src/Lib.antt =====
-- A model of MailWisp, a server for temporary mail: mail comes in by LMTP, is stored, and is read
-- through an HTTP API with credentials. This library models the way of a message from the socket of
-- the LMTP server to the durable store, and the credentials.
--
-- The parts, and the files that model them (paths from the root of the repository):
--   Common      text as lists of bytes, results, the sentinel errors of all packages, and lemmas.
--   Lmtp.Line, Lmtp.DataReader
--               internal/lmtp/data_reader.go. `read_limited_line` is readLimitedLine over
--               bufio.Reader.ReadLine with a buffer of 32 KiB; `DataReader`, `read` and `drain` are
--               dataReader and its methods.
--   Lmtp.Command, Lmtp.Session
--               internal/lmtp/session.go. `Session` is the session with its connection: what the
--               peer still sends, the error behind that, and how many writes and deadlines still
--               succeed. `on_lhlo`, `on_mail`, `on_rcpt` and `on_data` are the cases of run, `round`
--               is one turn of its loop, `receive_data` is receiveData.
--   Lmtp.Server internal/lmtp/server.go: NewServer, and Serve as the steps of the accept loop and of the
--               deferred calls of its goroutines, in any order.
--   Lmtp.Delivery
--               the server with the receiver, as internal/app/app.go composes them.
--   Message     internal/message: ValidInboxLocalPart, the validation of a delivery, and Receive, over
--               a content store, a repository and a clock that are a record of functions.
--   Encoding    encoding/base64 (RawURLEncoding, strict and not), encoding/base32 and encoding/hex of Go's standard
--               library, as tokens, cursors and addresses use them.
--   Auth        internal/auth: tokens (token.go), scope sets (scope.go) and capabilities (capability.go).
--   Postgres.Delivery
--               internal/postgres/delivery_repository.go over tables that are lists: an address is
--               resolved with the quotas of its inbox, and a delivery is committed. What the tables
--               do not determine (the time, failures, new ids) is an `Engine`; a transaction works on
--               a copy, which an error throws away.
--   Postgres.Capability
--               internal/postgres/inbox_capability_repository.go: credentials are created, found, rotated and
--               revoked; `service_of` is the repository of Auth.Capability over these tables. A statement
--               runs at a tick, which decides its clock, its random bytes and its failure (`Backend`).
--   Postgres.Mailbox
--               CreateInbox and DeleteInbox of internal/postgres/mailbox_repository.go over tables that are lists;
--               `mailbox_calls` is the repository of Mailbox.Create over them.
--   Contentstore
--               internal/contentstore/store.go. `Capacity` has the reservations, `Store` the objects, as a
--               list from relative paths to bytes; `put` is put, its copy loop is `copy_limited`, and an
--               `Os` says which call of the operating system fails. The steps of References take the
--               lifecycle lock into account: a put is one step, since no deletion runs within it.
--   Abuse, Postgres.CreateQuota
--               internal/abuse/create_quota.go and internal/postgres/create_quota_repository.go: Consume
--               over a table of daily counts.
--   Mailbox.Messages
--               the message lists of internal/mailbox/service.go, over a repository.
--   Mailbox.Create
--               NewService and Create of internal/mailbox/service.go, over the repository, the issuer of
--               capabilities, a clock and random bytes; the base32 of the addresses is Encoding.Base32.
--   HttpApi     the message cursors of internal/httpapi/message_cursor.go.
--   App         the receiver over the content store and the delivery repository, as internal/app/app.go
--               composes them, with the read locks that PutLeased takes and its caller gives back.
--   Tests       the theorems at concrete inputs.
--
-- Conventions. A string is a list of bytes. An error is the sentinel that errors.Is finds in it, and
-- wrapping keeps it; the texts of replies that reach the peer are kept. A time is a number of
-- nanoseconds since the zero time, which is 0. `W` is the state behind an interface of the source
-- (stores, resolver, repository), which its functions take and return. Not under internal/, and so
-- parameters: SHA-256, HMAC, uuid.Parse and net.ParseIP. White space is trimmed as strings.TrimSpace does it, Unicode's included; upper case is exact as far as the result is ASCII, which is what is compared.
--
-- Fuel. readLimitedLine, drain and the loop of run have fuel one more than the length of the
-- input; the copy loop of put has one more than its limit. Each round takes something off the input, which is proved, so the fuel is enough; the results
-- that stand for its end (`stuck`, `still_draining`, `hangs`, `out_of_fuel`) are never reached.
--
-- Not modelled: the other operations of the mailbox service, the other repositories and operations of the mailbox repository, the directories of the content
-- store and its archive, the MIME parser, the HTTP handlers, jobs, backup, configuration and telemetry.
pub mod Common
pub mod Encoding
pub mod Auth
pub mod Lmtp
pub mod Message
pub mod Postgres
pub mod Contentstore
pub mod Abuse
pub mod Mailbox
pub mod HttpApi
pub mod App
pub mod Tests
