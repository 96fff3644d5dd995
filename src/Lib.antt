-- ===== src/Lib.antt =====
-- Seatkey, a license server in Go: its store, license service, signing, web handlers and start, and its
-- reference client.
--
-- Parts and their files. Paths are from the repository's root.
--   internal/store: Store and the modules below it. Store.Models and Store.Schema are models.go and
--     schema.go; Store.Open, Store.Settings, Store.Admins, Store.Products, Store.Licenses and
--     Store.Devices are the files of those names. A table is a list of rows in the order of
--     insertion, a SELECT is a function on the tables, and a statement that writes gives the tables
--     after it or the constraint that it violates. Store.Valid is the well-formedness
--     of the tables. The modules below a file's module say what its statements guarantee.
--   internal/license: License is service.go and token.go, one definition for each method and for
--     each case of the switch of activate. License.Outcome, License.Renewal and License.Release
--     follow activate, Validate and Deactivate on every path; License.Deadline and License.Verified
--     are about the token; License.History is about sequences of calls, and License.Race about
--     activations whose statements come between one another's. Store.Devices.Bag is the abstract
--     view of the seats, a bag of pairs of a license and a device, and License.Seats and
--     License.History.Refinement follow the calls on it. License.Live and License.Again are about
--     success.
--   internal/crypto: Crypto is envelope.go and keys.go. Base64 is written out in Crypto.Base64,
--     with the padding and the line ends that Go's decoder takes.
--   internal/web: Web.Http has requests and responses, Web.Api is api.go, Web.Auth is auth.go with
--     renderSettings of admin.go, Web.Admin and Web.Admin.Pages are the other handlers of admin.go,
--     Web.Forms is what they read forms and write addresses with, and Web.Routes is server.go: the
--     routing table and the multiplexer. A handler takes the world to a response and the next world.
--   internal/webhook: Webhook is webhook.go, on a state of its own: the requests made so far.
--   cmd/seatkeyd: Seatkeyd is loadOrCreateKeypair of main.go, and Seatkeyd.Start is what main puts
--     together: the settings, the service, the server and the webhook's lookup.
--   cmd/democli: Client is main.go of the client. Client.Machine is the customer's machine, with the
--     two files of the state directory, on which a command runs as a function.
--     Client.Run, Client.Import, Client.Leave and Client.Overwrite are about run,
--     offline-activate, deactivate and validate; Client.Issued and Client.Served are about
--     activate, with the service and with its handlers.
--   Toys and Tests run the theorems at a small shop.
--
-- How the parts interact. World has the one state that all calls run in: the tables, the calls of
-- the notifier, and the answers of the outside (clock, random bytes, UUIDs, failures of the SQL
-- driver), which are functions of the number of the interaction and of which nothing is assumed. A
-- theorem names the reading of the clock that it is about by that number: of a world w the next is
-- w.outside.clock w.calls, and the one after a query has been made is w.outside.clock (suc w.calls).
-- A method is a Call: a function from a world to a result or an error and the world after. Its do
-- block has the source's statements in their order, and a statement that fails changes nothing.
-- World.Rules is how a call's guarantees are composed.
--
-- The client has a state of its own. The answers that it gets, its clock and the faults of its files
-- are functions of the number of the interaction; a write that fails may leave anything in the file.
--
-- Choices. Instants are nanoseconds from a common origin, and time zones are left out. A seat limit
-- is an integer that may be negative, a count is a natural number. Machine bounds of the row ids
-- and of the instants are not reached. Ed25519, JSON, bcrypt, HMAC
-- and the network are parameters, with what documentation promises of the first three in
-- Ed25519Laws, JsonLaws and BcryptLaws. Every recursion is structural; no fuel is used.
--
-- Not modelled: the templates (a page is the data that it is given), the wording of what the client
-- prints, the path of its state directory, the parsing of flags, logging, the version flag and the
-- listener, which are input and output only. The embedded files are a function of the request.
pub mod Common
pub mod Store
pub mod World
pub mod Crypto
pub mod License
pub mod Web
pub mod Toys
pub mod Tests
pub mod Seatkeyd
pub mod Webhook
pub mod Client
