-- ===== src/CommDef.antt =====
-- comm/commdef/comm_def.h (the online environment) and comm/ssltools/ssl_def.h: addresses, ports
-- and key files.
use sdpgateway_verification.Prelude.{ℤ, pos, Bytes, txt}

unfoldable pub ip_controller_in : Bytes
ip_controller_in = txt "10.0.20.9"

unfoldable pub ip_controller_pb : Bytes
ip_controller_pb = txt "43.138.134.77"

unfoldable pub ip_client_pb : Bytes
ip_client_pb = txt "47.111.5.82"

unfoldable pub ip_appgateway_in : Bytes
ip_appgateway_in = txt "192.168.0.4"

unfoldable pub ip_appgateway_pb : Bytes
ip_appgateway_pb = txt "106.13.211.246"

unfoldable pub ip_application_in : Bytes
ip_application_in = txt "192.168.0.4"

unfoldable pub ip_application_pb : Bytes
ip_application_pb = txt "106.13.211.246"

abbrev pub udp_port_controller : ℤ
udp_port_controller = pos 6000

abbrev pub udp_port_appgateway : ℤ
udp_port_appgateway = pos 6001

abbrev pub tcp_port_controller : ℤ
tcp_port_controller = pos 6002

abbrev pub tcp_port_appgateway : ℤ
tcp_port_appgateway = pos 6003

abbrev pub tcp_port_application : ℤ
tcp_port_application = pos 6004

unfoldable pub rsa_pub_key_controller : Bytes
rsa_pub_key_controller = txt "/etc/sdp/keys/rsa/controller_pubkey.pem"

unfoldable pub rsa_pri_key_controller : Bytes
rsa_pri_key_controller = txt "/etc/sdp/keys/rsa/controller_key.pem"

unfoldable pub rsa_pub_key_gateway : Bytes
rsa_pub_key_gateway = txt "/etc/sdp/keys/rsa/gateway_pubkey.pem"

unfoldable pub rsa_pri_key_gateway : Bytes
rsa_pri_key_gateway = txt "/etc/sdp/keys/rsa/gateway_key.pem"

unfoldable pub ssl_crt_controller : Bytes
ssl_crt_controller = txt "/etc/sdp/keys/controller/controller.crt"

unfoldable pub ssl_key_controller : Bytes
ssl_key_controller = txt "/etc/sdp/keys/controller/controller.key"

unfoldable pub ssl_crt_gateway : Bytes
ssl_crt_gateway = txt "/etc/sdp/keys/gateway/gateway.crt"

unfoldable pub ssl_key_gateway : Bytes
ssl_key_gateway = txt "/etc/sdp/keys/gateway/gateway.key"

unfoldable pub ssl_crt_application : Bytes
ssl_crt_application = txt "/etc/sdp/keys/application/application.crt"

unfoldable pub ssl_key_application : Bytes
ssl_key_application = txt "/etc/sdp/keys/application/application.key"
