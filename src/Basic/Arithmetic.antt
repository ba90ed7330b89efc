-- ===== src/Basic/Arithmetic.antt =====
-- `add`, `subtract`, `multiply` and `divide` of code-experiments/basic-enclave/Enclave/Enclave.cpp. An
-- `int` has 32 bits, and a result that does not fit, or a division by zero, is undefined: `none`.
use sgx_experiments.Prelude.{
  ℕ, zero, suc, ◌+◌, ◌/◌, ◌^◌, ◌≡◌, Bool, true, Option, none, some, ltb, if◌then◌else◌, arith,
}
use sgx_experiments.Prelude.Int.{ℤ, pos, negsuc, ◌+ℤ◌, ◌-ℤ◌, ◌*ℤ◌}

-- What an `int` can hold.
abbrev pub fits : ℤ → Bool
fits (pos n) = ltb n (2 ^ 31)
fits (negsuc n) = ltb n (2 ^ 31)

abbrev pub checked : ℤ → Option ℤ
checked r = if fits r then some r else none

-- The values behind the two pointers.
unfoldable pub add : ℤ → ℤ → Option ℤ
unfolding ◌+ℤ◌
add a b = checked (a +ℤ b)

unfoldable pub subtract : ℤ → ℤ → Option ℤ
unfolding ◌-ℤ◌
subtract a b = checked (a -ℤ b)

unfoldable pub multiply : ℤ → ℤ → Option ℤ
unfolding ◌*ℤ◌
multiply a b = checked (a *ℤ b)

-- The negative of a number.
abbrev negative : ℕ → ℤ
negative zero = pos 0
negative (suc n) = negsuc n

-- The quotient, rounded towards zero.
abbrev pub quotient : ℤ → ℤ → Option ℤ
quotient a (pos zero) = none
quotient (pos m) (pos (suc n)) = checked (pos (m / (n + 1)))
quotient (pos m) (negsuc n) = checked (negative (m / (n + 1)))
quotient (negsuc m) (pos (suc n)) = checked (negative ((m + 1) / (n + 1)))
quotient (negsuc m) (negsuc n) = checked (pos ((m + 1) / (n + 1)))

-- The test is on the pointer `b`, `none` for NULL.
unfoldable pub divide : ℤ → Option ℤ → Option ℤ
divide a none = some (negsuc 0)
divide a (some b) = quotient a b

-- For an int a, when add of a and b is defined, subtract of its result and b is defined and gives
-- a back.
pub subtract-add : (a b c : ℤ) → fits a ≡ true → add a b ≡ some c → subtract c b ≡ some a
unfolding add subtract ◌+ℤ◌ ◌-ℤ◌
subtract-add a b c h e = ground arith
