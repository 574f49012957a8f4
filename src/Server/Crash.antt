-- ===== src/Server/Crash.antt =====
-- What ends the process of a server, in the endless loop of comm/erpc/erpc_server.cpp.
use sdpgateway_verification.Env.{Env}
