-- ===== src/Router/Ids.antt =====
-- The macros of tools/pwrdaemon/router/router.h: an `AppID` is a router and a server, 32 bits each.
use pwrapi.Prelude.{ℕ, ◌+◌, ◌-◌, ◌*◌, ◌/◌, ◌%◌, ◌^◌, ◌<◌, ◌≡◌, ◌∙◌, ap, bit_or, arith}
use pwrapi.Prelude.Bits.{bit_or-fields}

-- `(AppID) (unsigned)rtr << 32 | (unsigned)server`
unfoldable pub app_id : ℕ → ℕ → ℕ
app_id rtr server = bit_or (rtr % 2 ^ 32 * 2 ^ 32 % 2 ^ 64) (server % 2 ^ 32)

-- `(RouterID)(x >> 32)`
unfoldable pub rtr_id : ℕ → ℕ
rtr_id x = x / 2 ^ 32 % 2 ^ 32

-- `(ServerID) (x & 0xffffffff)`
unfoldable pub server_id : ℕ → ℕ
server_id x = x % 2 ^ 32

-- `(unsigned) -1`: no server, or no router.
abbrev pub no_id : ℕ
no_id = 2 ^ 32 - 1

-- `AppID retval = -1`.
abbrev pub no_app : ℕ
no_app = 2 ^ 64 - 1

pub app_id-sum : (r s : ℕ) → app_id r s ≡ r % 2 ^ 32 * 2 ^ 32 + s % 2 ^ 32
unfolding app_id
app_id-sum r s =
    ap (λ (x : ℕ). bit_or x (s % 2 ^ 32)) (omega arith)
    ∙ bit_or-fields 32 (r % 2 ^ 32) (s % 2 ^ 32) (omega arith)

-- The router and the server of an `AppID` are those that it was made of, as 32-bit numbers.
pub app_id_parts :
    (r s : ℕ) → (rtr_id (app_id r s) ≡ r % 2 ^ 32) × (server_id (app_id r s) ≡ s % 2 ^ 32)
unfolding rtr_id server_id
app_id_parts r s = (omega (arith, app_id-sum r s), omega (arith, app_id-sum r s))

-- A 64-bit `AppID` is made of its router and its server.
pub app_id_whole : (x : ℕ) → x < 2 ^ 64 → app_id (rtr_id x) (server_id x) ≡ x
unfolding rtr_id server_id
app_id_whole x h = omega (arith, app_id-sum (x / 2 ^ 32 % 2 ^ 32) (x % 2 ^ 32))
