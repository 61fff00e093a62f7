-- ===== src/Lib.antt =====
-- The Cossacks game server: the GSC wire protocol, the in-memory rooms and the life of a room and
-- of a game.
--
-- A client sends frames over TCP. internal/transport/gsc takes a frame apart into a command set;
-- internal/app/gsc dispatches its first command; the commands and routes read and change the store
-- of internal/adapter/rooms, rooms through the service of internal/app/lobby, and answer with
-- commands that go back as a frame.
--
-- Base holds what the other modules share: tests and lists over the native numbers, texts as lists
-- of bytes, Go's maps as association lists, `(T, error)` results, the parts of `strings`,
-- `strconv`, `fmt` and `encoding/binary` that the server calls.
--
-- Wire is internal/transport/gsc. Wire/Escape is `encodeArg` and `decodeArg`; Wire/Command is
-- `CommandFromString`, `Command.String`, `CommandSetFromString` and `CommandSet.String`;
-- Wire/Binary is `CommandSet.MarshalBinary` and `UnmarshalBinary` over a `bytes.Reader`, a list of
-- the bytes not yet read; Wire/Stream is `Stream.MarshalBinary`, `UnmarshalBinary` and `ReadFrom`.
-- zlib is the parameter `Zlib`, a pair of functions of which the second undoes the first. The loops
-- over counts recur on the count, so they need no fuel.
--
-- Rooms is internal/adapter/rooms/state.go with the domain types: pointers are numbers, and two
-- heaps hold the rooms and the players that they point to, so a change through one pointer is seen
-- through all indexes. Rooms/ControlSum is the checksum of a row in uint32 arithmetic; the rounds
-- of its outer loop are bounded by the length of the text, since a round takes at least one byte.
--
-- Lobby is internal/app/lobby: `Create`, `RegisterNew`, `Join`, `Leave` and `MarkStarted`, with the
-- time of the call as an argument. Lobby/Row is the text of a room's row, Lobby/Sav the `sav:[N]`
-- token. Go's `int` is an unbounded integer, which the counters of the server never leave.
--
-- Lobby/Title is title.go and level.go of the same package; Lobby/Steady is what `Leave` keeps.
--
-- Match is internal/app/match. Match/IntArg is `IntArg`; Match/Endgame is `ParseEndgame`;
-- Match/StartedUsers is `ApplyStartedUsers` and Match/StartPayload `BuildStartAccountPayload`;
-- Match/Stat is the decoding of a STAT sample, Match/Rolling the series of its rates, and
-- Match/UpdateStat `UpdateStat`, on a player together with its STAT fields. float64 is a type with
-- the operations of the record `Floats`. The loops recur on the list of arguments.
--
-- Config is internal/platform/config/config.go: the legacy file, the YAML values and the
-- environment, and the providers of accounts under their keys. Config/Loading has what stands
-- between a file and the settings; the packages that parse YAML and read the environment are
-- arguments.
--
-- Identity is internal/app/identity. Identity/Nick is nick.go; Identity/Service is `Authenticate`
-- and the request of `PostAccountAction`, with the HTTP client as a function from a request to an
-- answer; Identity/EnterFlow is `ParseEnterRequest` and `TryEnterDecide`.
--
-- KvMemory is internal/adapter/kvmemory, the texts under keys with an expiry. Stun is
-- internal/adapter/stun: the packets by which a host shows its address, which is stored there; the
-- loop recurs on the list of datagrams.
--
-- Render is internal/render: the views, Render/Rooms and Render/UserDetails the views of rooms and
-- players, Render/GgCup the page of supporters, Render/TimeInterval intervals and dates,
-- Render/IntervalText their reading, Render/Filters the escapes, Render/Functions the functions
-- that the templates call and Render/Sums their sums, Render/JoiningOrder the order of the names in
-- the view of a room, and Render/Templates the lookup of a template, with the files and the engine
-- of `text/template` as arguments.
--
-- Ranking is internal/app/ranking, the caches of two JSON files, and Ranking/FileProvider is
-- internal/adapter/rankingfile. A file is its time and what a read of it gives; a JSON value is the
-- type `Json`, over any type of numbers with the operations of the record `Numbers`.
--
-- Gsc is internal/app/gsc and internal/app/connectivity. Gsc/Connectivity is the manager of alive
-- timers and connections; Gsc/Params reads the parameters of `open` and `go`, where the loop of
-- `ParseOpenParams` has the length of its text as fuel, since a turn drops a byte at least;
-- Gsc/Gettbl is the answer of GETTBL; Gsc/Commands, Gsc/GameCommands and Gsc/ProxyCommand have the
-- handlers of the commands over the store, the timers and the posts to the account service;
-- Gsc/Dispatch is the registry, `HandleWithMeta` and `dispatchOpen`, with the table of routes, the
-- alert page, the proxy command and the update of a sample as arguments, and Gsc/OpenRoutes is that
-- table. Gsc/Dispatch/Silence has the runs in which timers fire: a timer is the time it fires at,
-- and the time passes no timer that is due.
--
-- Gsc/Routes is internal/app/gsc/routes, with the templates as an argument: Routes/Enter and
-- Routes/TryEnter the ways in, Routes/RegNewRoom and Routes/JoinGame the ways into a room,
-- Routes/RoomPages and Routes/Pages the other pages, and Routes/Endpoint the address of a host in
-- the key-value storage. The routes over the ranking have its cache as a state of their own.
--
-- Tcp is internal/transport/tcp/server.go: the loop of one connection, for any handler. Its fuel is
-- one more than the bytes that the socket will yield, since a frame takes twelve of them at least.
-- Tcp/Exchange is a request and its answer over the bytes of both ways.
--
-- Not modelled: locks (a call is one step), logging, metrics, health probes and the start of the
-- server; sockets, which are lists of what they yield; the engine of the templates; the IRC proxy,
-- which copies bytes; the older account provider of internal/adapter/accountprovider; the memory
-- that a declared length makes the server allocate.
pub mod Base
pub mod Config
pub mod Wire
pub mod Rooms
pub mod Lobby
pub mod Match
pub mod KvMemory
pub mod Stun
pub mod Render
pub mod Ranking
pub mod Identity
pub mod Gsc
pub mod Tcp
