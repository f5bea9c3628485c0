-- ===== src/Lib.antt =====
-- Sesfikile, a booking and fare system for minibus taxis: the core of its Go backend.
--
-- The program has a ledger (backend/internal/wallet), live vehicle state and its fan-out
-- (backend/internal/telemetry), boarding passes that a driver scans (backend/internal/boarding),
-- routes and fares (backend/internal/routing), stop requests (backend/internal/stops), fuel quotas
-- (backend/internal/fuel), and users' profiles (backend/internal/identity).
-- A scan verifies a pass, looks the driver's vehicle up in the vehicle state, charges the fare
-- through the ledger under the pass's nonce, and takes a seat if the charge was fresh.
--
-- Database models Postgres: Schema holds the tables of backend/migrations that are used, and
-- Session the statements, as actions on the committed tables and those of an open transaction.
-- An action returns a result or an error, as the Go functions do. An Env says which call fails,
-- which ids are drawn, what the server's clock reads and how texts are collated, so a theorem
-- about every Env is about every placement of failures. Ensures states what an action does by how
-- it ends, and Healthy what it does while no call fails. Http models a handler: it replies or
-- refuses with a status, and attempt and parsed are its early returns; Runs, Outcome and Yields
-- follow a handler by what its calls return. Base holds lists, integers, wrapped words, maps,
-- byte strings and the order of ORDER BY (Base.Sort).
--
-- Wallet.Models, Wallet.Accounts, Wallet.Split, Wallet.Repo and Wallet.Listing are
-- wallet/models.go and wallet/repo.go: get_or_create_account is GetOrCreateAccount,
-- account_balance is AccountBalance, top_up is Topup, internal_transfer is InternalTransfer,
-- split_fare is splitFare, charge_fare is ChargeFare and list_transactions_for_account is
-- ListTransactionsForAccount. Wallet.Handlers is handlers.go. The other modules of Wallet hold the
-- proofs: Effects and Staging by statement, Transfers and Charges by operation, Invariant and
-- History over all of them. What is said of a charge is for percentages and fares within bounds
-- (Wallet.Split.Shares.Priced).
--
-- Telemetry.Store is telemetry/store.go (go_online is GoOnline, and so on), Telemetry.Hub hub.go
-- with view.go, Telemetry.Alerts alerts.go, and Telemetry.Mailbox what the two hubs share.
--
-- Routing.Models and Routing.Graph are routing/models.go and routing/graph.go: route_stop_order,
-- direct_segment, fare_for_segment and search, whose loops are try_first, try_second and via.
-- Routing.Repo, Routing.Geometry and Routing.Clearing are repo.go: the stops, routes and legs, the
-- polylines, and DeleteCatalogueData. Routing.Handlers is handlers.go, and Routing.Decimate its
-- decimatePoints.
--
-- Boarding.Code, Limiter, Token, PassStore, Issue and Scan are boarding/code.go, ratelimit.go,
-- token.go, passstore.go, and IssuePass and ScanPass of handlers.go. Identity.Models and
-- Identity.Repo are identity/models.go and repo.go, Identity.Tokens jwt.go and password.go,
-- Identity.Middleware middleware.go and Identity.Handlers handlers.go.
--
-- Stops.Match is stops/match.go and geo.go, Stops.Store store.go, Stops.Loading and Stops.Handlers
-- handlers.go: load_route_stops is loadRouteStops, serve_request_stop is RequestStop, whose checks
-- are prepare and whose match is request_stop, and ack_request is AckRequest. Fuel.Repo, Fuel.Pump
-- and Fuel.Handlers are fuel/repo.go, viu_mock.go and handlers.go; the CHECKs of their tables
-- refuse a statement that breaks them.
--
-- Code of other parties is an argument: HMAC, base64, JSON and the random bytes of the passes
-- (Boarding.Token.IsCodec says what is relied on, for ASCII nonces, since encoding/json replaces
-- bytes that are not UTF-8), golang-jwt and bcrypt (Identity.Tokens), the parser and the printer of
-- uuids (Http.Uuid, Telemetry.Hub.Render), the layouts of times, strconv.Atoi and
-- strings.TrimSpace, encoding/json with the JSONB column of polylines, and the operations on floats
-- (Stops.Models.Floats, Fuel.Handlers.Litres and those of Routing.Decimate). A body is what
-- encoding/json decodes.
--
-- How the code is read: an id is a number, since it is only compared; a time is a number; an
-- int64 is an integer that is wrapped after each operation (Base.Word.i64); a float64 that is only
-- stored is its 64 bits; a string is the list of its bytes; a Go map is an association list. A sum
-- in SQL is exact, and an error if it does not fit the int64 that it is read into. Every loop is
-- recursion on a list, but for the retries of IssuePass, which are recursion on the five attempts
-- of the source. Requests to the database run one after the other: the row locks that order them
-- in the program are taken but have nothing to wait for. A commit that reports an error is taken
-- not to have committed. A reference to a missing row is among the calls that an Env lets fail,
-- but the removal of a row that is referred to is refused (Routing.Clearing).
--
-- Not modelled: the websocket loops of telemetry/handlers.go, the wiring of the server
-- (internal/server, config, db) and the commands, which are input and output; the reports of
-- analytics and the import of internal/catalogue; seed data; the web applications.
pub mod Base
pub mod Identity
pub mod Wallet
pub mod Fuel
pub mod Boarding
pub mod Database
pub mod Http
pub mod Telemetry
pub mod Routing
pub mod Stops
