-- ===== src/Lib.antt =====
-- Alkasir is a client that gets around censorship, with transport processes that it starts, and a
-- central server that collects and checks suggestions of blocked hosts. This library models the core
-- logic of the Go packages under pkg/ and proves what makes it correct.
--
-- The parts and how they interact. The client's configuration (Client) holds connections; those that
-- are not disabled are shuffled and given to the connection manager (Service.Manager), which tries
-- them one after the other. For each it makes a transport service (Service.Registry.Transports), an
-- entry of the list of managed services (Service.Registry), whose settings reach the process through
-- its environment (Service.Environment); the process answers with lines (Service.Server) which the
-- client reads (Service.Protocol). Users suggest hosts, which are checked (Shared.Validator), get a
-- token (Central.Tokens), and are judged from the samples of their session (Central.Analysis). The
-- browser extension edits the connections and makes suggestions through the client's own API (Client.Api);
-- a suggestion is kept with its samples by one goroutine of the central client (Central.Suggestions), which
-- sends them to the handlers of the central server (Central.Api). The server measures a suggested URL itself
-- (Central.Measurements) before the session is judged (Central.Publication has the whole
-- way). The list of blocked hosts is fetched when an update checker asks for it (Client.Updates). New versions
-- of the program are made into signed patches, put into a table of the server, and taken by the client
-- (Binary). Client and server ask other services for their own address (Shared.PublicIp).
--
-- Files and code:
--   Base.Text, Dict, Scan, Trim, Decimal: byte strings, maps, bufio.Scanner and fmt.Fprintln,
--     strings.TrimSpace and the verb %d of Go, as the program uses them.
--   Service.Manager, with Reach, History, Rotation, Notices: pkg/service/connectionmanager.go, the loop of
--     StartConnectionManager. Manager is its variables, Message what its channels deliver, step one
--     round, and Action what a round sets off.
--   Service.Connect: connect and testConn of the same file, as the events that an attempt sends.
--   Service.Enabled: UpdateConnections and shuffleConnections of the same file.
--   Service.Protocol, with Lines, Handshake: pkg/service/service.go, initService and its regular
--     expressions. Service.Server.Lines: pkg/service/server/server.go, the Print methods.
--   Service.Server.Tracking: TrackOpenConn and TrackCloseConn of that file.
--   Service.Environment: initEnv of pkg/service/service.go, Option and Handles of server.go.
--   Service.Registry, with Laws, Orderly, Runs, Transports: Service, NewService, Start, Stop and
--     Remove of pkg/service/service.go, Services of pkg/service/misc.go, and NewTransportService.
--   Shared.Connection, Codec: pkg/shared/connection.go. Shared.Transport: pkg/shared/transport.go.
--   Shared.Validator: pkg/shared/urlvalidator.go. Shared.Ids: idGen of pkg/shared/utils.go.
--   Client.Hosts: pkg/client/internal/config/hostsfile.go.
--   Client.Config.Settings: the records of pkg/client/internal/config/config.go.
--   Client.Config.Reading: Read, readSettings, parseConfig and readHostFiles of the same file.
--   Client.Config.Connections, Upgrade: pkg/client/internal/config/updates.go, modifyConnections and
--     UpgradeConfig.
--   Client.Api.Connections, with Enabled, Protected, Answers, Restart: pkg/client/api.go, ToggleConnection,
--     DeleteConnection and PostConnection, and how UpdateConnections and the manager take their result.
--   Client.Api.Suggestions, with Creation, Resent: CreateSuggestion, GetSuggestions and the loop of
--     SubmitSuggestion of the same file.
--   Client.Updates, with Deadlock, Schedule, Times: pkg/client/updatechecker.go and StartBlocklistUpgrader of
--     pkg/client/upgradeblocklist.go. State is both goroutines, move an event of one or a meeting of both.
--   Client.Updates.Blocklist: upgradeBlockList of the same file, and UpdateBlockedList of pkg/pac/pac.go.
--   Client.Auth, with Keys: the single use keys and Auth of pkg/client/http.go.
--   Client.Debug, with Laws: pkg/debugexport/debug.go.
--   Client.BrowserCode: pkg/browsercode/browsercode.go.
--   Central.Suggestions: the goroutine of pkg/central/client/client.go and its messages.
--     Central.Suggestions.Sending, with Kept, Versions: the requests of the same file. Shared.Version: what
--     is used of versions.
--   Central.Api, with Hosts, Samples, Upgrade: pkg/central/api.go.
--   Central.Measure: pkg/measure/measure.go, httpheader.go and dns.go. Central.Measurements, with Stored:
--     pkg/central/measurements.go; work is a round of a measuring goroutine.
--   Central.Publication, with Arrives, Late: GetSessionSamples of pkg/central/db/postgres.go, between the API and the
--     analysis.
--   Central.Exchange: SendSamples of the client against StoreSample of the server.
--   Central.Export, with Paging: GetExportBlockedHosts of pkg/central/db/postgres.go and GetBlockedHostsExport
--     of pkg/central/export-api.go.
--   Binary.Keys, Options: pkg/upgradebin/upgradebin.go and ed25519Verifier.go. Binary.Patch, with Jobs, Newest:
--     pkg/upgradebin/makepatch/makepatch.go and the artifacts of pkg/nexus. Binary.Import, with Unique:
--     insertUpgrades of cmd/alkasir-admin/alkasir-admin.go, GetUpgrade and InsertUpgrades of postgres.go.
--     Binary.Check, with Arrival, Delivery: pkg/client/upgradebin.go.
--   Shared.PublicIp, with Shuffle, Loop: pkg/shared/publicip.go.
--   Central.Tokens: pkg/central/db/sessionstoken.go. Central.Credentials: apicredentials.go beside it.
--   Central.Analysis.Score: pkg/central/analysis/score.go. Central.Analysis.Session, Tick:
--     pkg/central/analysis/analysis.go.
--
-- State is passed explicitly. Pointers to services are places in a heap, so that the list of managed
-- services and its users see the same object. Go's maps are association lists; the order of a range
-- loop is a parameter where the result depends on it. Words of 64 bits wrap.
--
-- Parameters, with what is assumed of them: the random draws of the shuffle, Base64, JSON and SHA-256
-- of the connection format, the readers of hosts and addresses of package net, MD5 and the new key of an
-- upgrade, the parser of measured results, PBKDF2, random tokens and ids, the order of versions, sort.Sort, the
-- databases of the central server, PEM, Ed25519, the patches of go-update and binarydist, hexadecimal text, the
-- boxes of sodiumbox, the file system, and what the network answers. Each assumption is the documented
-- behaviour of its package and is a named hypothesis.
--
-- Fuel: the digits of a number n are computed with fuel n + 1, which is enough since each step divides by
-- ten; white space is trimmed with the length of the text. The loop that sends
-- samples later has fuel 31, the ticks of 30 seconds in 15 minutes and one more. All other loops are structural.
--
-- Not modelled: processes, pipes and channels as such (a process is its output, the loop of the
-- manager is its rounds); the goroutines of connect and testConn, whose events are messages and may
-- come between those of others; that the histories sent to listeners share an array with those that are
-- kept; logging and metrics other than
-- the two numbers of the token store; the capacity of the queue of measurements; the routing of HTTP, SQL
-- other than the few queries that are read as tables, user interface, build and third-party copies.
pub mod Base
pub mod Binary
pub mod Central
pub mod Client
pub mod Service
pub mod Shared
