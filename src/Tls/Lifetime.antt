-- ===== src/Tls/Lifetime.antt =====
-- What SSLConnector of comm/ssltools/ssl_tool.cpp takes and gives back, from its constructor to its
-- destructor.
use sdpgateway_verification.Prelude.{
  ℕ, ◌+◌, ◌≡◌, refl, Bool, true, ◌&&◌, List, [], ◌∷◌, arith, if◌then◌else◌, ℤ, pos, minus_one,
  int_eq, Bytes, done, Bool-cases, inl, inr,
}
use sdpgateway_verification.Tls.{
  Call, ssl_free, ctx_free, Library, Handshake, Connector, ssl_connector, ssl_connect, ssl_accept,
  destroy,
}

-- How many connections the calls give back, and how many contexts.
unfoldable pub ssl_frees : List Call → ℕ
ssl_frees [] = 0
ssl_frees (ssl_free ∷ cs) = 1 + ssl_frees cs
ssl_frees (_ ∷ cs) = ssl_frees cs

unfoldable pub ctx_frees : List Call → ℕ
ctx_frees [] = 0
ctx_frees (ctx_free ∷ cs) = 1 + ctx_frees cs
ctx_frees (_ ∷ cs) = ctx_frees cs

-- A connector that has been built and has shaken no hands.
record IsFresh (c : Connector) : Type 0 where
  ctx : c.ctx ≡ true
  status : c.conn_status ≡ pos 0
  no_ssl_free : ssl_frees c.calls ≡ 0
  no_ctx_free : ctx_frees c.calls ≡ 0

ssl_connector-IsFresh :
    (lib : Library) (cert pri_key : Bytes) (is_server : ℤ)
    → lib.ctx ≡ true
    → (c : Connector) × (ssl_connector lib cert pri_key is_server ≡ done c) × IsFresh c
unfolding ssl_connector ssl_frees ctx_frees
ssl_connector-IsFresh lib cert pri_key is_server made =
    elim (Bool-cases (int_eq (lib.certificate cert) (pos 1))) [
      | inr bad ↦
          rw (made, bad)
            (_, refl, record { ctx = refl; status = refl; no_ssl_free = refl; no_ctx_free = refl })
      | inl cert_ok ↦ elim (Bool-cases (int_eq (lib.private_key pri_key) (pos 1))) [
        | inr bad ↦
            rw (made, cert_ok, bad)
              (
                _,
                refl,
                record { ctx = refl; status = refl; no_ssl_free = refl; no_ctx_free = refl },
              )
        | inl key_ok ↦ elim (Bool-cases (int_eq lib.checked (pos 1))) [
          | inr bad ↦
              rw (made, cert_ok, key_ok, bad)
                (
                  _,
                  refl,
                  record { ctx = refl; status = refl; no_ssl_free = refl; no_ctx_free = refl },
                )
          | inl fits ↦
              rw (made, cert_ok, key_ok, fits)
                (
                  _,
                  refl,
                  record { ctx = refl; status = refl; no_ssl_free = refl; no_ctx_free = refl },
                )
        ]
      ]
    ]

-- The handshake went through.
abbrev pub shaken_hands : Handshake → Bool
shaken_hands h = h.ssl && (int_eq h.set_fd_ret (pos 1) && int_eq h.shaken (pos 1))

-- What a handshake has returned, and what the destructor gives back after it.
abbrev Life : Handshake → ℤ × Connector → Type 0
Life h r =
    (r.0 ≡ (if shaken_hands h then pos 0 else minus_one))
    × (ssl_frees (destroy r.1).calls ≡ (if shaken_hands h then 1 else 0))
    × (ctx_frees (destroy r.1).calls ≡ 1)

connect-Life : (h : Handshake) (fd : ℤ) (c : Connector) → IsFresh c → Life h (ssl_connect h fd c)
unfolding ssl_connect ssl_frees ctx_frees destroy
connect-Life h fd c f = (
  ground arith,
  ground (arith, f.ctx, f.status, f.no_ssl_free),
  ground (arith, f.ctx, f.status, f.no_ctx_free),
)

accept-Life : (h : Handshake) (fd : ℤ) (c : Connector) → IsFresh c → Life h (ssl_accept h fd c)
unfolding ssl_accept ssl_frees ctx_frees destroy
accept-Life h fd c f = (
  ground arith,
  ground (arith, f.ctx, f.status, f.no_ssl_free),
  ground (arith, f.ctx, f.status, f.no_ctx_free),
)

-- Where SSL_CTX_new gives a context, the constructor returns, whatever the files and their check
-- return. One SSLConnect or SSLAccept of the connector then returns 0 if SSL_new gives a connection
-- and both calls on it return 1, and -1 if not. The destructor frees the context once; it frees the
-- connection once after a 0, and not at all after a -1, also where SSL_new gave one.
pub connector-Life :
    (lib : Library) (cert pri_key : Bytes) (is_server : ℤ) (h : Handshake) (fd : ℤ)
    → lib.ctx ≡ true
    → (c : Connector) × (ssl_connector lib cert pri_key is_server ≡ done c)
      × Life h (ssl_connect h fd c)
      × Life h (ssl_accept h fd c)
connector-Life lib cert pri_key is_server h fd made =
    let (c, built, f) = ssl_connector-IsFresh lib cert pri_key is_server made in
    (c, built, connect-Life h fd c f, accept-Life h fd c f)
