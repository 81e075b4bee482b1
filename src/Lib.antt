-- ===== src/Lib.antt =====
-- matrisea: Android virtual devices (cuttlefish VMs), each in a Docker container, with a web API.
--
-- The program's parts. Package vmm is the manager: it creates, starts, stops, lists and removes the
-- containers of VMs through the Docker Engine, keeps a folder for each on the host, and keeps their
-- configuration in an embedded database (vmm/kvstore.go). Package main of api/ serves its clients: HTTP
-- handlers, one WebSocket for creation and listing (api/api.go), and a WebSocket for each terminal
-- (api/terminal.go) and each log (api/logstream.go). tools/cli.go removes all VMs of a developer's host.
-- Handlers call the manager; the manager calls the engine, the database and the host's files.
--
-- How it is modelled. Every method is a function on an explicit state that returns a value, an error or a
-- panic beside the new state (Common/Effect), so that what was done before a failure stays done. What is
-- not part of the repository is an interface that the model takes as a parameter: the Docker client
-- (Docker, record Engine), bbolt (Kvstore/Bolt, records Database and IsLawful), the host's files
-- (Vmm/Host, record Files) and a WebSocket connection (Api/Socket). Vmm/Tests/Sample and Kvstore/Memory
-- have small instances of them, on which the code runs.
--
-- Which file models what:
--   Common, Go       shared helpers, 64-bit integers, and what the code uses of Go's library: strings,
--                    strconv, path, bufio.Scanner, and the two patterns of vmm/vmm.go and api/api.go.
--   Instance         vmm/vmm.go getNextCFInstanceNumber (next_number); Creation is the part of VMCreate
--                    under createMu as a step relation of many calls; Ports the two ports of an instance.
--   Kvstore          vmm/kvstore.go: put_container_value, get_container_value,
--                    get_container_value_or_empty, remove_container_configs.
--   Vmm/Host         the fields, constants and configuration keys of vmm/vmm.go; Vmm/Setup: NewVMM and
--                    Close. Vmm/Frames: what calls that go only to the engine leave alone.
--   Vmm/Find         listCuttlefishContainers, getContainerIDByName, isManagedContainer and their kin;
--                    Vmm/Refused: the methods on a name that they do not find.
--   Vmm/Exec         containerExec and the commands and daemons that are run by it.
--   Vmm/Create       VMCreate (vm_create). Vmm/Remove: VMRemove, VMPrune. Vmm/List: VMList, getVMStatus.
--   Vmm/Start        VMStart (vm_start, with the wait for the launcher in await_boot), VMStop.
--   Vmm/Sheriff      the rounds of diskSheriff; its children: whom they stop, and whose volume they
--                    look at. Vmm/Transfer: files in and out.
--   Api/Session      the messages of the main connection, in the order in which they are sent.
--   Api/CreateVm     api/api.go wsCreateVM; Protocol is the order of messages that a client may rely on.
--   Api/Messages     wsMainPageHandler, wsListVM, wsInstallAPK, on decoded requests.
--   Api/Handlers     the HTTP handlers of api/api.go; Api/Network: getConnectionIPs.
--   Api/Routes       the routes of main in api/api.go (serve), with Api/Env: CFPrefix and getenv.
--   Api/Websocket    the pumps of api/websocket.go as a step relation, and wsHandler.
--   Api/Logstream    api/logstream.go. Api/Terminal: api/terminal.go. Tools: tools/cli.go.
--
-- Concurrency. Calls of VMCreate are interleaved in Instance/Creation, whose steps vm_create refines
-- (Vmm/Create/Refines), and the goroutines of a connection in Api/Websocket. Elsewhere a goroutine's work is
-- an explicit sequence of events: the lines of the launcher and the deadline (BootLog), the reads and timer expiries of a log (LogEvent), the messages of
-- a client.
--
-- Bounds and fuel. An int has 64 bits and wraps (Common/Int). A number is printed on fuel one above it
-- (decimal_fuel), which Go/Strconv/RoundTrip shows to be enough; diskSheriff's endless loop is given a
-- number of rounds; nothing else runs on fuel. Lines of a scanner end at 64 KiB, as in Go. Strings are
-- lists of bytes.
--
-- Not modelled: the times of deadlines and pings, the match of a path with a route, the decoding of JSON
-- and of archives, the opening of the Docker client and of WebSockets, which are third-party code; the
-- web front end, and the scripts and images of the deployment. Log texts and time measurements are left
-- out.
pub mod Common
pub mod Go
pub mod Docker
pub mod Instance
pub mod Kvstore
pub mod Vmm
pub mod Api
pub mod Tools
