-- ===== src/Lib.antt =====
-- The runtime of a proxy node that a panel controls (runtime/, written in Go). A controller for each
-- node polls the panel, installs nodes and users in a core, keeps the limiter of the node in step
-- with the users, and reports traffic and devices. The cores ask the limiter for each connection.
--
-- Parts and files
--   Panel: the data that panel and node exchange, from runtime/api/panel/user.go and node.go, and
--     UserTag of runtime/common/format/user.go; Panel/UserList says what lists the panel sends;
--     Panel/Vless is the decryption setting of runtime/api/panel/vless.go; Panel/Routes reads the
--     routes and intervals of a node. Fetch: GetNodeInfo of node.go, from the response of the panel
--     to the node that a controller gets.
--   Limiter: runtime/limiter/. Limiter/Check is CheckLimit, in the steps of its body; Limiter/Users
--     is AddLimiter, UpdateUser and the dynamic limits; Limiter/Rules is rule.go; Limiter/Online is
--     GetOnlineDevice; Limiter/Speed is determineSpeedLimit; Limiter/Registry is the table of
--     limiters by tag, over a heap, since a controller keeps a reference to its limiter.
--   Node: runtime/node/. Node/Users is compareUserList and Node/Devices the report of devices, both
--     of user.go; Node/Traffic is mergeUserTraffic and flushUserTraffic of reload.go;
--     Node/Controller is the state of a controller, with replaceVLESSNode of reload.go in
--     Node/Controller/Replace, nodeInfoMonitor of task.go in Node/Controller/Monitor, and Start, Close
--     and startTasks in Node/Controller/Start; Node/Nodes is node.go, all nodes of a process.
--   Task: the periodic task of runtime/common/task/task.go that runs the rounds of a controller.
--   Counter: the traffic counters of runtime/common/counter/traffic.go; Counter/Conn is conn.go and
--     xraytraffic.go, which add to them. Xray: how the Xray core hands
--     traffic over and keeps that of deleted users, GetUserTrafficSlice and DelUsers of
--     runtime/core/xray/user.go; Xray/Users is AddUsers, and Xray/Users/Build the users that vmess.go,
--     trojan.go and ss.go build. Xray/Links is who may keep a link open, in steps that interleave:
--     app/dispatcher/linkmanager.go and the parts of app/dispatcher/default.go and user.go that use
--     it; Xray/Dispatch is getLink and DispatchLink of default.go, call by call, up to the routing;
--     Xray/Nodes is ValidateNode, AddNode and DelNode of node.go, with retireNodeUsers of user.go and
--     the DNS file of dns.go.
--   Sing: the sing-box core, runtime/core/sing/. Sing/Hook is hook.go and connections.go, call by
--     call; Sing/Race is the same in steps that interleave; Sing/Users is AddUsers and DelUsers of
--     user.go, with setUsers in Sing/Users/Accounts; Sing/Traffic is its traffic, Sing/Nodes AddNode
--     and DelNode of node.go, and Sing/Legacy normalizeLegacyConfig of config_compat.go.
--   Hy2: the users and the traffic hook of the Hysteria core, user.go and hook.go of
--     runtime/core/hy2/.
--   Core: runtime/core/. Core/Selector is selector.go, several cores behind one interface; Core/Check
--     is CheckConfig of check.go and NewCore of core.go. Conf: the options of a node and
--     Options.UnmarshalJSON of runtime/conf/node.go; Conf/Watch is when watch.go starts a reload.
--   Json5: the scan of runtime/common/json5/json5.go that blanks comments and trailing commas.
--   Base: tests, words, texts, and maps as association lists. The modules named Tests run the
--     definitions on small inputs.
--
-- How the code is modelled
--   A method that changes its receiver takes the state and returns the new one. An `int` or `int64`
--   is a word of 64 bits in two's complement, with wrap-around written out (Base/Word). A map is an
--   association list; a range over it goes by the list, which stands for any order. A nil and an
--   empty map are the same list where the code treats them alike. Time is an argument. Calls are
--   atomic: the locks of the code are not modelled, and two calls do not interleave, but for the
--   periodic task, the hook of the sing-box core and the links of the Xray core, whose steps
--   interleave in Task, Sing/Race and Xray/Links.
--
-- What is not under runtime/'s own code is a parameter: buckets of the ratelimit package (a type and
--   a constructor from a rate), compiled expressions (a type, a compiler that may fail and a
--   matcher), the panel's answers, the outcome of a certificate request, and the core behind the
--   interface of runtime/core/interface.go, whose methods are functions on a state of its own. The
--   options of a node are fixed for a controller, so that the core's functions do not take them.
--   For the Xray core the managers of users and of handlers are interfaces with laws, and what builds
--   the configuration of a handler, and the file system under the DNS file, are arguments. For GetNodeInfo the hash of a body and
--   json.Unmarshal are, and netip.ParseAddr for an old configuration. For the sing-box core the
--   inbounds of the library are a state that its calls change, and base64, the length of a text in
--   bytes and the options of an inbound are functions; for the selector the factories, the
--   validators and what encoding/json does are.
--
-- Bounds and fuel
--   Each loop of the JSON5 scan has the length of the text as fuel, one unit for each round, and a
--   round goes forward by a byte at least. All other loops are recursions on lists, texts and JSON values.
--
-- Not modelled
--   HTTP, decoding and logging; of the cores (runtime/core/) what builds the configuration of a
--   library or runs it, and the sniffing and routing of the dispatcher of Xray; SpeedChecker, whose
--   task nothing starts; certificates; reading of configuration files; the command line; and the
--   copies of other projects' files under runtime/patches/.
pub mod Base
pub mod Panel
pub mod Limiter
pub mod Task
pub mod Counter
pub mod Xray
pub mod Sing
pub mod Hy2
pub mod Node
pub mod Fetch
pub mod Conf
pub mod Core
pub mod Json5
