-- ===== src/Lib.antt =====
-- WireGuard for Windows: the configuration of tunnels, the firewall around a tunnel, the log that
-- the processes share, and the choice of an update.
--
-- The manager reads the configuration of a tunnel in the wg-quick format (conf/parser.go), into the
-- data of conf/config.go, and writes it back (conf/writer.go); the service of a tunnel hands it to
-- the driver as a buffer of records, and reads one back (driver/configuration_windows.go). The
-- service adds filters to the system's filter engine, which keep traffic inside the tunnel
-- (tunnel/firewall), and while WebSocket connections run it keeps host routes to their servers
-- through the default gateway (tunnel/defaultroutemonitor.go), and the tunnel's MTU below that of
-- the default route (tunnel/mtumonitor.go). Names of tunnels are checked and ordered by
-- conf/name.go. All processes write to one log in shared memory (ringlogger/ringlogger.go), which
-- the user interface follows. The updater compares versions and chooses a file
-- (updater/versions.go). The editor colours the text of a configuration (ui/syntax/highlighter.go),
-- with tests of its own for the values.
--
--   Base                 shared helpers: lists, results, texts as lists of bytes, decimal numbers
--   Conf.Types           conf/config.go: the data, with addresses and prefixes of net/netip as data
--   Conf.Values          conf/parser.go: a parser for each kind of value
--   Conf.Keys            conf/parser.go, conf/writer.go: the names of the settings
--   Conf.Settings        conf/parser.go: the two switches of `FromWgQuick`, `validateWebSocketPeer`
--   Conf.Comment         conf/parser.go: which comments belong to which line
--   Conf.Parser          conf/parser.go: `FromWgQuick`; `exec` is one round of its loop
--   Conf.Config          conf/config.go: the operations on a configuration
--   Conf.Writer          conf/writer.go: `ToWgQuick`
--   Conf.Name            conf/name.go
--   Conf.Driver          conf/writer.go: `ToDriverConfiguration`; conf/parser.go:
--                        `FromDriverConfiguration`
--   Conf.Uapi            conf/uapi.go: `ToUAPI` and `FromUAPI`
--   Driver               driver/configuration_windows.go, and the socket address of
--                        tunnel/winipcfg/types.go
--   Firewall             tunnel/firewall: filters, and the calls of the filter engine as a trace
--   Firewall.Rules       tunnel/firewall/rules.go: the tunnel, the service, loopback, everything else
--   Firewall.Narrow      tunnel/firewall/rules.go: DHCP and neighbour discovery
--   Firewall.Dns         tunnel/firewall/rules.go: `blockDNS`
--   Firewall.Blocker     tunnel/firewall/blocker.go, and `runTransaction` of helpers.go
--   Firewall.Platform    the documented meaning of filters, which the theorems speak of: which
--                        filters match, which decides, and what a transaction leaves in force; a
--                        filter that is added outside a transaction is in force at once
--   Tunnel               tunnel/defaultroutemonitor.go: the default gateway, the hosts of WebSocket
--                        servers, `hasDefaultRoute`; tunnel/mtumonitor.go: `findDefaultLUID`
--   Tunnel.Monitor       tunnel/defaultroutemonitor.go: the monitor, a call of it as a step
--   Tunnel.Mtu           tunnel/mtumonitor.go: `doIt` and `ForceMTU`
--   Tunnel.AddressConfig tunnel/addressconfig.go: the interface's configuration and its retries
--   Ring                 ringlogger/ringlogger.go
--   Updater              updater/versions.go
--   Updater.Signed       updater/signify.go, and `checkForUpdate` of updater/downloader.go
--   Syntax               ui/syntax/highlighter.go: spans and the tests of addresses and host names
--   Syntax.Accept        ui/syntax/highlighter.go: the tests of numbers, endpoints and networks
--   Syntax.Fields        ui/syntax/highlighter.go: names of settings and sections
--   Syntax.Highlight     ui/syntax/highlighter.go: the spans of a value
--   Syntax.Scan          ui/syntax/highlighter.go: `highlightConfig`
--   Tests                the theorems at concrete inputs
--
-- A text is the list of its bytes. `strings.ToLower`, `strings.TrimSpace` and `strings.EqualFold`
-- are defined for ASCII. An error is a value of `Result`, whose `panic` stands for a nil pointer
-- that is followed, an index or a slice out of range, or a write to a view mapped for reading. What the code takes from net/netip, net/url and
-- encoding/base64 is the record `Std`, an argument of the definitions that use it.
--
-- `configureInterface` has 16 attempts as its fuel: the code allows 15 retries after the first. The
-- loops are structural recursion on what is left of the lines, parts, files or rounds; a loop over
-- the log has `max_lines` rounds, as the code's has. The digits of a number are made with fuel
-- above the number, which has fewer digits. The loop over an IPv6 address has as many rounds as the
-- address has bytes, since each round moves on by one at least. The highlighter reads a byte at a
-- position of the text; behind the text it reads the NUL that the code appends.
--
-- The firewall's calls go to an argument that replies to each call, given the calls before it, and
-- the result holds the trace of calls and replies; the variable `wfpSession` is passed along. The
-- names shown to the user, the line numbers in its errors and the freeing of memory are left out.
-- The driver's buffer is a list of records, and a pointer into it the number of records before it.
-- A call of a route or MTU monitor has the system's replies as an argument, which may differ from
-- call to call, and the routes that it adds and deletes are a trace. A call holds the monitor's
-- lock, so calls are steps; when one is made is not modelled, and the timer behind it is left out.
-- For the updater, base64 and ed25519 are the record `Crypto`, and the answer of the server is an
-- argument.
--
-- Not modelled: the encodings other than bytes, the display of times and sizes, the registry, files
-- and services, the user interface, the network, two processes that write to the log at the same
-- time, the timers behind the monitors, and the stored TLS files of WebSocket peers (conf/wstls.go).
pub mod Base
pub mod Conf
pub mod Driver
pub mod Firewall
pub mod Ring
pub mod Syntax
pub mod Tests
pub mod Tunnel
pub mod Updater
