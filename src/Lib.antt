-- ===== src/Lib.antt =====
-- SDPGatewayVerification: a gateway of a software-defined perimeter. A client knocks on the
-- controller with a voucher (one UDP datagram), asks it over RPC for the applications that its
-- account may access, gets a ticket for each, and knocks with the ticket on the application's
-- gateway, which opens the application's port for the client's address by iptables. The application
-- limits its clients and notifies the gateway of the ones to shut out; the controller may black-list
-- an address at the gateway.
--
-- The files, and the sources that they model (paths from the root of the repository):
--   Prelude, Map       native numbers, integers, byte strings, outcomes, std::map
--   Tlog, CommDef      comm/tlog/tlog.h (iAssert), comm/commdef/comm_def.h, comm/ssltools/ssl_def.h
--   Messages           comm/proto/*.proto; the generated codecs are parameters
--   OpenSsl, Env       what the OpenSSL calls return, and all parameters together
--   Rsa, Tls           comm/ssltools/ssl_tool.cpp, classes SSLTools and SSLConnector
--   Spa                comm/spatools/spa_tool.cpp
--   Iptables           comm/iptools/iptables_tool.{h,cpp}; Iptables/Chain: what iptables documents of
--                      the commands
--   Packet, Io         the packing, reading and writing of comm/erpc/erpc_handler.cpp
--   Erpc               the server's entries and the dispatch of erpc_handler.cpp, erpc_service;
--                      Erpc/Client: ErpcClient; Erpc/Services: the service classes of the modules
--   Dispatcher         comm/erpc/epoll_dispatcher.{h,cpp}
--   Gateway, Controller, Application, Client
--                      the directories of the same names under modules/
--   Gateway/Perimeter  what the gateway promises for one address, as a step relation
--   Server             comm/erpc/erpc_server, comm/erpc/erpc_config, and the servers that the modules
--                      start; Erpc/Within and Dispatcher/Within carry what a service's methods may do
--                      to its state up to the loop
--   Runners            modules/controller/sdp_controller_runner.cpp, modules/client/client_test.cpp,
--                      comm/erpc/erpc_test_{server,client}.cpp, comm/spatools/spa_test.cpp,
--                      comm/ssltools/ssl_test.cpp, comm/commdef/comm_tool.cpp
--   EndToEnd           the parts together: a gateway's registration, a client's run up to the page,
--                      the application's notice, the scans; EndToEnd/System: from the start to the
--                      open port
--   Tests              stand-in keys and codecs, and the theorems at concrete inputs
--
-- How code becomes definitions. A singleton configuration object is a record, and a method is a
-- function from the record to its result and the record afterwards. A function keeps its name in
-- snake case. What a call of the kernel, of OpenSSL or of a generated class returns is an argument:
-- the clock, random numbers, one script of results for a socket, the record OpenSsl, the codecs. An
-- Outcome is the value of a call, or a fault that ends the process: an exception that nothing
-- catches, a call on a null pointer, a read or a write behind a buffer. Where a function ends without
-- a return statement, its result is an argument.
--
-- Fuel. The loops of Rsa have the length of their text, and one, as fuel, which is enough as every
-- round takes at least one byte off a text. The loop of HandleWrite goes along the script of write
-- results. ErpcServer::Run goes along a list of rounds, one for each return of epoll_wait, and is in
-- epoll_wait again at the list's end.
--
-- Not modelled: log output, the JSON text of messages, the socket loops of the test programs that
-- nothing calls, and the vendored OpenSSL headers. Within one round of epoll_wait the clock stands
-- still, and the network to the gateway behaves in the same way. A message comes in one read, of
-- RD_BUF_SIZE bytes at most, as the code reads once. A UDP datagram is shorter than that buffer.
-- Counters of visits do not wrap. The descriptors and the memory that an early return leaks are
-- tracked for a TLS connection only. Every iptables command is taken to do its work where the chain
-- is looked at.
pub mod Prelude
pub mod Map
pub mod Tlog
pub mod Iptables
pub mod OpenSsl
pub mod Rsa
pub mod Tls
pub mod Messages
pub mod Spa
pub mod CommDef
pub mod Env
pub mod Gateway
pub mod Controller
pub mod Application
pub mod Packet
pub mod Io
pub mod Erpc
pub mod Dispatcher
pub mod Server
pub mod Client
pub mod Runners
pub mod EndToEnd
pub mod Tests
