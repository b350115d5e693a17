-- ===== src/Types/Ids/Text.antt =====
-- Ids written as text.
use jsonrpseex.Prelude.{ℕ, ◌<◌, ◌≡◌, arith}
use jsonrpseex.Prelude.Decimal.{u64_mod}
use jsonrpseex.Prelude.Decimal.RoundTrip.{parse-show}
use jsonrpseex.Types.Result.{ok}
use jsonrpseex.Types.Ids.{RequestId, number, try_parse_inner_as_number, display}

-- A number below 2^64 that is written as a text id, as `display` writes it, is parsed back.
pub try_parse_inner_as_number-display :
    (n : ℕ) → n < u64_mod → try_parse_inner_as_number (RequestId.str (display (number n))) ≡ ok n
unfolding try_parse_inner_as_number display
try_parse_inner_as_number-display n h = ground (arith, parse-show n h)
