-- ===== src/Validation/Numbers.antt =====
-- The numeric fields of frontend/src/validation.ts: ports, TTLs and VLAN IDs.
pub mod Accepts
use vantric.Prelude.{
  ℕ, zero, suc, ◌*◌, Bool, true, false, not, ◌||◌, Option, none, some, [], ◌∷◌, ltb, leb, ◌==◌,
  if◌then◌else◌, length, ◌&&◌, every,
}
use vantric.Prelude.Text.{Text, text, is_empty, trim, is_digit, number}
use vantric.Regex.{Regex, cls, test, seq, up_to}

-- A value of type `number`: NaN, the infinities, n, -(n + 1), a fraction between n and n + 1, and
-- a fraction between -(n + 1) and -n.
pub data Number : Type 0 where
  nan infinity minus_infinity : Number
  whole minus above below : ℕ → Number

-- `!value`
abbrev pub is_falsy : Number → Bool
is_falsy nan = true
is_falsy (whole n) = n == 0
is_falsy _ = false

-- `Number.isInteger(value)`
abbrev pub is_integer : Number → Bool
is_integer (whole n) = true
is_integer (minus n) = true
is_integer _ = false

-- `value < k` and `value > k`, for a positive numeral `k`
abbrev pub lt_num : Number → ℕ → Bool
lt_num nan k = false
lt_num infinity k = false
lt_num minus_infinity k = true
lt_num (whole n) k = ltb n k
lt_num (minus n) k = true
lt_num (above n) k = ltb n k
lt_num (below n) k = true

abbrev pub gt_num : Number → ℕ → Bool
gt_num infinity k = true
gt_num (whole n) k = ltb k n
gt_num (above n) k = leb k n
gt_num _ k = false

pub port_error : Number → Option Text
port_error value =
    if is_falsy value
    then none
    else if not (is_integer value) || lt_num value 1 || gt_num value 65535
    then some (text "Ports run from 1 to 65535")
    else none

pub ttl_error : Number → Option Text
ttl_error seconds =
    if is_falsy seconds
    then none
    else if lt_num seconds 60
    then some (text "Use at least 60 seconds, or switch to automatic")
    else if gt_num seconds 86400
    then some (text "Use at most 1 day (86,400 seconds)")
    else none

-- `/^\d{1,k}$/` with `k = n + 1`: a digit, then at most `n` more
unfoldable pub digits_re : ℕ → Regex
digits_re n = seq (cls is_digit) (up_to n (cls is_digit))

pub vlan_id_error : Text → Option Text
unfolding digits_re
vlan_id_error value =
    let trimmed = trim value in
    let id = number trimmed in
    if is_empty trimmed
    then none
    else if not (test (digits_re 3) trimmed)
    then some (text "VLAN must be a number")
    else if ltb id 1 || ltb 4094 id
    then some (text "VLAN must be between 1 and 4094")
    else none
