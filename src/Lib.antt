-- ===== src/Lib.antt =====
-- LOD, a caching proxy for map tiles: its tile packets, tiles, configuration and caches, the handlers of
-- requests and of the administration, and how an instance starts.
--
-- The program's parts. A request for a tile names a proxy of the configuration (config/config.go). Its
-- tile (tile/tile.go) gives the cache key, under which the cache of that proxy (cache/cache.go) looks
-- the tile up: in memory first, then in Redis. What the stores hold are tile packets
-- (packet/packet.go): a checksum, sizes, headers and the tile's bytes. A tile that no level holds is
-- fetched from the tile server by the handler of tiles (www/handlers/proxy), with the helpers
-- (helpers/helpers.go) that name the tile and process the response; it goes into the cache with
-- `EncodeSet`. The handlers of the administration (www/handlers/admin) invalidate, prime and flush the
-- caches and reload the configuration. The routes of both stand behind the middleware
-- (www/middleware), and the command (cmd/lod) puts the parts together.
--
-- Prelude.antt and its children have what the parts share: Boolean tests, lists over the native
-- numbers, results with a panic, signed 64-bit integers (Int), texts as lists of bytes (Text), Go maps
-- as lists of entries (Dict), and the functions of `strings` and `strconv` that are called (Strings).
--
-- Packet.antt is packet/packet.go, packet/encode.go and packet/errors.go. `encode` is `Encode`,
-- `from_bytes` is `FromBytes`, and `validate`, `decode`, `tile_data`, `tile_data_size`, `headers` and
-- `len_headers` are the methods. The three size fields keep the wrap-around of their conversions. A
-- slice expression out of range is the result `panic`. The map of headers is the list of its entries
-- in the order of the iteration, whichever that is. SHA-256 is the parameter `sum256`, of which only the
-- length of its digests is used.
--
-- Tile.antt is tile/tile.go. An `int` wraps at 64 bits. `DeepChildren` is the relation `Step` on the
-- goroutines that have not returned, the tile in the hand of the collecting goroutine and the slice of
-- results; `Returns` is the moment at which the wait group lets it return, whatever the collecting
-- goroutine still holds. `descendants` lists what it means to return. `DeepIntersect` recurses on fuel,
-- the depth of its calls, and is `none` where a run goes deeper: the code has no bound of its own for
-- a tile deeper than zoom 16. Its calls are run depth-first here, and are goroutines in the source.
-- Tile/Bounds.antt has the corners and boxes, over the record `Floats` of what is used of float64 and math.
--
-- Config.antt is the validation in config/config.go, with the errors of config/errors.go, and
-- Config/Load.antt is `setDefaults`, `readHttp`, `Load` and the accessors; the global `capabilities` is
-- passed in and out. The libraries that the code calls (TOML, HTTP, files, the environment, durations,
-- Redis URLs) are the record `Libraries`, of which nothing is assumed, but in one place that no
-- response has the status 0. Config/Messages.antt has the `Error` methods as `message`, and
-- `DoPullHeaders` and `DoDeleteHeaders` over the response's `Peek` and `Del`.
--
-- Cache.antt is `Fetch`, `EncodeSet`, `Set`, `Invalidate` and `FlushInternal` of cache/cache.go. The two
-- clients are the record `Stores` of Cache/Backends.antt, and `StoresLaws` is what the theorems on
-- writing assume of them. A goroutine that a call starts is a task in the state's list `background`,
-- which `run_background` runs later. Cache/Registry.antt is the map of all caches with `Init`, `Get`,
-- `BuildInstance` and `WipeOldCaches`; making the clients of a proxy is the record `Builders`, and
-- registering metrics twice panics. Cache/Clients.antt fills that record with `initInternal` and
-- `initExternal`, over the record `ClientLibraries`, and has `initMetrics` and `StatsInternal`.
-- Cache/Messages.antt has the texts of the errors.
--
-- Web.antt is what the handlers use of the fiber library, the record `Fiber`, and the reply of a request:
-- its status, body and headers.
--
-- Helpers.antt is `FillParamsMap` and `BuildCacheKey` of helpers/helpers.go. A request is what they read
-- of fiber's context; the map of parameters is again a list in the order of the iteration.
-- Helpers/Urls.antt is `BuildTileUrl`, with the encoding of a query; the parsing and the printing of a URL
-- are the parameter `with_query`. Helpers/Upstream.antt is `FetchUpstream` and `ProcessResponse`: the
-- agent that makes a request is the record `Agent`.
--
-- Handlers/Proxy.antt is www/handlers/proxy/proxy.go: `handle` runs from the request to the reply, the
-- cache and the local "lod-cache". What `singleflight` decides for a request, to make the fetch or to
-- wait for that of another, is its value `Flight`. In Handlers/Proxy/Transparent.antt the requests, the
-- goroutines of the caches, invalidations and flushes are events of a sequence, each of which runs to
-- its end. In Handlers/Proxy/Flights.antt the requests are handled at the same time: a `Server` has the
-- caches of all proxies and the stage of each request, and a `Turn` takes one request from a stage to the
-- next, where `flightGroup.Do`, the fetch in it and `flightGroup.Forget` divide `handle`. The library
-- `singleflight` is the record `FlightGroup` with the laws that its documentation states. Each `Fetch`, and
-- each call from the result of the flight to the return, is one turn, and each proxy has a Redis of its own.
--
-- Handlers/Admin is www/handlers/admin. Workers.antt is `tileWorker`: the relation `Step` on the queue, the
-- workers that wait, the tiles at work and the count; a turn of a worker is one step, and a panic in a
-- worker, which has no handler to recover it, sets `down`. Tiles.antt is `InvalidateAndPrime` as the
-- relation `Serves` on top of `Returns` and of the workers, with the four endpoints as its payloads.
-- Endpoints.antt is `Flush`, `Stats` and `ReloadCapabilities`, and Status.antt is `Status` and
-- `Capabilities`, with the JSON of the structs by their tags.
--
-- Environment.antt is env/env.go, util/debug.go, util/log.go, `IsUrl` and `parseFlags`. Middleware.antt is
-- www/middleware/middleware.go: the checks of the tokens as functions, and the rest as the list of what is
-- put in front of a group. Server.antt is the routes of www/handlers/handlers.go, admin/wire.go and
-- proxy/wire.go, in the order in which they are registered, and the error handler of www/www.go.
-- Server/Dispatch.antt is the way of a request through these routes, over the record `Routing` of fiber's
-- matching. Server/Serve.antt is `Serve`, and Server/Boot.antt is `main` of cmd/lod/main.go.
--
-- Numbers are printed by `digits_loop`, on fuel n + 1 for the number n: it has at most n + 1 digits.
--
-- Not modelled: the texts of most log lines, and their formatting; the clock and the reading of a metric in
-- util/tool.go; the encoding of JSON; how the goroutines of `DeepIntersect` interleave; a fetch that never
-- ends; and what the fiber library does of its own: the matching of paths, CORS, compression and the
-- server.

pub mod Prelude
pub mod Packet
pub mod Tile
pub mod Config
pub mod Cache
pub mod Web
pub mod Helpers
pub mod Handlers
pub mod Environment
pub mod Middleware
pub mod Server
