-- ===== src/Tlog.antt =====
-- comm/tlog/tlog.h: the assertion that returns -1 early. Log lines themselves are output only.
use sdpgateway_verification.Prelude.{ℤ, is_neg, if◌then◌else◌}

-- iAssert: `failed` is what the caller returns on a negative `ret`, `rest` is what follows.
abbrev pub i_assert {ℓ} : {A : Type ℓ} → ℤ → A → A → A
i_assert ret failed rest = if is_neg ret then failed else rest
