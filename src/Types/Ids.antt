-- ===== src/Types/Ids.antt =====
-- types/src/params.rs: request ids and subscription ids.
pub mod Text
use jsonrpseex.Prelude.{ℕ, String, Option, none, some, String-discrete, ℕ_discrete}
use jsonrpseex.Prelude.Decimal
use jsonrpseex.Types.Result.{Result, ok, err}

-- `Cow` and the lifetimes are forgotten: `into_owned` is the identity.
pub data RequestId : Type 0 where
  null : RequestId
  number : ℕ → RequestId
  str : String → RequestId

unfoldable pub RequestId-discrete : Discrete RequestId
RequestId-discrete = hlevel (ℕ_discrete, String-discrete)

pub data SubscriptionId : Type 0 where
  num : ℕ → SubscriptionId
  str : String → SubscriptionId

unfoldable pub SubscriptionId-discrete : Discrete SubscriptionId
SubscriptionId-discrete = hlevel (ℕ_discrete, String-discrete)

pub data InvalidRequestId : Type 0 where
  not_pending_request : String → InvalidRequestId
  occupied : String → InvalidRequestId
  invalid : String → InvalidRequestId

unfoldable pub as_number : RequestId → Option ℕ
as_number null = none
as_number (number n) = some n
as_number (str s) = none

unfoldable pub as_str : RequestId → Option String
as_str null = none
as_str (number n) = none
as_str (RequestId.str s) = some s

or_invalid : String → Option ℕ → Result InvalidRequestId ℕ
or_invalid s none = err (invalid s)
or_invalid s (some n) = ok n

unfoldable pub try_parse_inner_as_number : RequestId → Result InvalidRequestId ℕ
unfolding or_invalid
try_parse_inner_as_number null = err (invalid "null")
try_parse_inner_as_number (number n) = ok n
try_parse_inner_as_number (RequestId.str s) = or_invalid s (Decimal.parse s)

-- `Display`, and so `to_string`.
unfoldable pub display : RequestId → String
display null = "null"
display (number n) = Decimal.show n
display (RequestId.str s) = s
