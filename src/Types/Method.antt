-- ===== src/Types/Method.antt =====
-- core/src/error.rs: the errors of registering a method.
use jsonrpseex.Prelude.{String}

pub data RegisterMethodError : Type 0 where
  already_registered : String → RegisterMethodError
  subscription_name_conflict : String → RegisterMethodError
  method_not_found : String → RegisterMethodError
