-- ===== src/Lib.antt =====
-- ddns-updater: the program that keeps DNS records at the public IP address of its network.
--
-- Once per period, or when it is forced to, the service (internal/update/service.go) fetches the
-- public addresses, decides for each record whether the DNS provider is to be called, sets the first
-- status of the records that need no call, and calls the provider for the others. The records live in
-- memory (internal/data) before a JSON file of their histories (internal/persistence/json).
--
-- The files, and the code that they model:
--   Common, Net, Clock    what the program uses of Go: lists, byte strings, errors, net and net/netip,
--                         time.Time and time.Duration (an int64, where Sub stays within its bounds)
--   IpVersion             pkg/publicip/ipversion/ipversion.go: IpVersion, show (String), parse
--   Domain                internal/provider/utils/domain.go: check_domain (CheckDomain) and the builders
--   Records               internal/records/records.go, internal/models/history.go
--   Records/Since         GetDurationSinceSuccess of internal/models/history.go
--   Persistence           internal/persistence/json: new_database, store_new_ip, get_events, write
--   Database              internal/data: select, update_record (Update)
--   Update/GetIp          internal/update/getip.go and joinedErrors of helpers.go
--   Update/Tries          theorems on these tries
--   Update/Suffix         internal/update/ipv6.go
--   Update/Lookup         lookupIPs and lookupIPsResilient of internal/update/service.go
--   Update/Decision       doIPVersion and the functions shouldUpdateRecord... of service.go
--   Update/Exact          when exactly shouldUpdateRecord asks for an update
--   Update/Updater        internal/update/update.go: update (Updater.Update)
--   Update/Cycle          updateNecessary of service.go, with its specification in Update/Cycle/Spec
--   Update/Service        the goroutine of service.go: Start, run, Stop and ForceUpdate as steps
--   Extract               pkg/ipextract/ipextract.go: extract, with netip.ParseAddr as a parameter
--   PublicIp/Urls         pkg/publicip/http/providers.go: the echo providers and their URLs
--   PublicIp/Http         pkg/publicip/http: fetch.go, and the ring of URLs of http.go and ip.go
--   PublicIp/Dns          pkg/publicip/dns: providers.go, fetch.go and ip.go
--   PublicIp/Cycling      pkg/publicip/publicip.go and subfetcher.go
--   PublicIp/Info         pkg/publicip/info/info.go: the loop of Info.Get
--   Beget                 internal/provider/providers/beget/provider.go: Update and apiCall
--   Beget/Updating        that provider called by Updater.Update
--   Providers/<Name>      internal/provider/providers/<name>/provider.go for the 25 providers that
--                         answer by one request: new (New), validate_settings, describe (String to
--                         HTML), request, interpret and update (the three parts of Update)
--   Providers/Errors      internal/provider/errors; Providers/Client, Providers/Settings and
--                         Providers/Texts are what those files share
--   Providers/Any, New    the interface Provider and New of internal/provider/provider.go, for the 25
--   Providers/Confirm and the modules beside it are the theorems on all of them; Providers/Updating
--                         puts them behind Updater.Update
--   Providers/Custom      internal/provider/providers/custom/provider.go, where an update changes the URL
--   Params                internal/params/json.go: extract_from_domain_field
--   Params/Settings       makeSettingsFromObject, extractAllSettings, and retro.go; Params/Settings/Config
--                         is JSONProviders
--   Health                internal/health/check.go: isHealthy
--   Config                internal/config/pubip.go: the names that the provider settings stand for
--   Tests                 the theorems at concrete inputs
--
-- State is passed explicitly: `World` holds the database and the messages sent, `Database` the records
-- in memory and the store behind them, `Store` the entries and the content of the file. What the
-- outside answers (the fetchers of the public address, the resolver, the providers, the clock, the
-- file system, the order in which Go iterates over a map) is an argument: `Env`, `Inputs`, `Call`,
-- `WriteOutcome` and `Opened`. A panic is the `none` of an Option; an error is a value.
-- A `Call` says what the provider of a record answers, and whether it panics instead; run_update is
-- Updater.Update with both.
--
-- Loops are structural recursion, over the list that the code ranges over, or over the tries that are
-- left (three for the public address, five for a resolution, as in the code; for a ring as many as it
-- has URLs). The loop of the extraction has as many rounds as the text has bytes, and one more, since
-- each round but the last passes a byte. The loop of Info.Get, which need not end, is a number of steps.
--
-- The 25 providers have an HTTP client as a parameter, a function from a request to how it ends: the
-- request stands before net/url encodes it. Their switches are lists of a test with an outcome. The
-- texts of errors are kept but for those of net/netip, and %q quotes a text as it is.
--
-- Not modelled: logging, the texts of errors that are only printed, the DNS providers but Beget, custom
-- and the 25, the other settings, the web page, backups and notifications beyond the messages sent. A
-- provider that is not modelled is the `none` of New.
pub mod Common
pub mod Net
pub mod IpVersion
pub mod Domain
pub mod Clock
pub mod Records
pub mod Persistence
pub mod Database
pub mod Update
pub mod Extract
pub mod Params
pub mod Providers
pub mod PublicIp
pub mod Beget
pub mod Health
pub mod Config
pub mod Tests
