-- ===== src/Chain/Amount.antt =====
-- `StringToBigInt` of internal/worker/util.go, which the pool workers call to approve an amount
-- with 5% more than what the pool then draws.
use eth_custodial.Prelude.{ℕ, ◌+◌, ◌*◌, ◌/◌, ◌≤◌, ◌<◌, ◌≡◌, refl, String, true, false, some, arith}
use eth_custodial.Prelude.Int.{pos}
use eth_custodial.Store.Results.{ok}
use eth_custodial.Runtime.{Env}
use eth_custodial.Chain.{string_to_big_int}

-- For a text of a natural number `n`, the amount is `n`, and the approval `b` is the whole part of
-- 105% of it, hence at least the amount.
pub string_to_big_int_bump :
    (env : Env) (s : String) (n : ℕ)
    → env.set_string s ≡ some (pos n)
    → (b : ℕ) × (string_to_big_int env s true ≡ ok (pos b))
      × (string_to_big_int env s false ≡ ok (pos n))
      × (n ≤ b)
      × (b * 100 ≤ n * 105)
      × (n * 105 < b * 100 + 100)
unfolding string_to_big_int
string_to_big_int_bump env s n h = (
  n * 105 / 100,
  rw (string_to_big_int, h) refl,
  rw (string_to_big_int, h) refl,
  omega arith,
  omega arith,
  omega arith,
)
