-- ===== src/Str/Decimal.antt =====
-- `'%d' % n`.
use core_arbiter.Prelude.{ℕ, zero, suc, ◌+◌, ◌/◌, ◌%◌, [], ◌∷◌, ltb, if◌then◌else◌}
use core_arbiter.Str.{Str}

-- The last digits, on fuel; a number has at most as many digits as its value plus one.
decimal_digits : ℕ → ℕ → Str → Str
decimal_digits zero n tail = tail
decimal_digits (suc fuel) n tail =
    let rest = decimal_digits fuel (n / 10) ((b'0' + n % 10) ∷ tail) in
    if ltb n 10 then (b'0' + n) ∷ tail else rest

unfoldable pub decimal : ℕ → Str
unfolding decimal_digits
decimal n = decimal_digits (n + 1) n []
