-- ===== src/Tls.antt =====
-- SSLConnector of comm/ssltools/ssl_tool.cpp: the OpenSSL calls that a TLS connection makes, in
-- their order. What each call returns is given; a pointer is `true` where it is not null.
pub mod Lifetime
use sdpgateway_verification.Prelude.{
  ◌≡◌, Bool, true, false, not, List, [], ◌∷◌, if◌then◌else◌, ℤ, pos, minus_one, int_eq, Bytes, txt,
  Outcome, done, fault, null_pointer, ◌>>=◌,
}

-- SSL_CRT_CA
unfoldable pub ssl_crt_ca : Bytes
ssl_crt_ca = txt "/etc/sdp/keys/certs/ca.crt"

-- The calls, with their arguments but for the context and the connection.
pub data Call : Type 0 where
  ctx_new : Bool → Call
  set_verify : Call
  load_verify_locations : Bytes → Call
  use_certificate_file : Bytes → Call
  use_private_key_file : Bytes → Call
  check_private_key : Call
  ssl_new : Call
  set_fd : ℤ → Call
  connect : Call
  accept : Call
  shutdown : Call
  ssl_free : Call
  ctx_free : Call

-- What OpenSSL returns to one connector: SSL_CTX_new, the loading of files and their check, and for
-- each connection SSL_new, SSL_set_fd, and SSL_connect or SSL_accept.
pub record Library : Type 0 where
  pub ctx : Bool
  pub certificate : Bytes → ℤ
  pub private_key : Bytes → ℤ
  pub checked : ℤ

pub record Handshake : Type 0 where
  pub ssl : Bool
  pub set_fd_ret : ℤ
  pub shaken : ℤ

-- SSLConnector, with the calls that it has made, the newest first.
pub record Connector : Type 0 where
  pub ctx : Bool
  pub conn_status : ℤ
  pub is_server : ℤ
  pub calls : List Call

-- SSL_iAssert_NE1
abbrev assert_ne1 : {A : Type 0} → ℤ → A → A → A
assert_ne1 ret failed rest = if int_eq ret (pos 1) then rest else failed

abbrev called : Call → Connector → Connector
called call c = record c { calls = call ∷ c.calls }

-- _SSL_Init
unfoldable pub ssl_init : Library → Connector → ℤ × Connector
ssl_init lib c =
    let c' = record (called (ctx_new (not (int_eq c.is_server (pos 0)))) c) { ctx = lib.ctx } in
    if lib.ctx then (pos 0, c') else (minus_one, c')

-- _SSL_LoadCertificate: SSL_CTX_set_verify writes into the context, null or not.
unfoldable pub ssl_load_certificate :
    Library → Bytes → Bytes → Bytes → Connector → Outcome (ℤ × Connector)
ssl_load_certificate lib cert ca_cert pri_key c =
    if not c.ctx
    then fault null_pointer
    else (let c1 = called (load_verify_locations ca_cert) (called set_verify c) in
        let c2 = called (use_certificate_file cert) c1 in
        let c3 = called (use_private_key_file pri_key) c2 in
        let c4 = called check_private_key c3 in
        done (
          assert_ne1 (lib.certificate cert) (minus_one, c2)
            (assert_ne1 (lib.private_key pri_key) (minus_one, c3)
              (assert_ne1 lib.checked (minus_one, c4) (pos 0, c4)))))

-- SSLConnector(): neither result is looked at but for the log.
unfoldable pub ssl_connector : Library → Bytes → Bytes → ℤ → Outcome Connector
unfolding ssl_init ssl_load_certificate
ssl_connector lib cert pri_key is_server = do
  let c : Connector = record { ctx = false; conn_status = pos 0; is_server = is_server; calls = [] }
  (ret, c') ← ssl_load_certificate lib cert ssl_crt_ca pri_key (ssl_init lib c).1
  done c'

-- The common body of SSLConnect and SSLAccept, with the handshake's call.
shake : Call → Handshake → ℤ → Connector → ℤ × Connector
shake call h fd c =
    let c1 = called ssl_new c in
    let c2 = called (set_fd fd) c1 in
    let c3 = called call c2 in
    if not h.ssl
    then (minus_one, c1)
    else (assert_ne1 h.set_fd_ret (minus_one, c2)
        (assert_ne1 h.shaken (minus_one, c3) (pos 0, record c3 { conn_status = pos 1 })))

-- SSLConnect
unfoldable pub ssl_connect : Handshake → ℤ → Connector → ℤ × Connector
unfolding shake
ssl_connect h fd c = shake connect h fd c

-- SSLAccept
unfoldable pub ssl_accept : Handshake → ℤ → Connector → ℤ × Connector
unfolding shake
ssl_accept h fd c = shake accept h fd c

-- ~SSLConnector()
unfoldable pub destroy : Connector → Connector
destroy c =
    let c1 = if int_eq c.conn_status (pos 0) then c else called ssl_free (called shutdown c) in
    if c1.ctx then called ctx_free c1 else c1
