-- ===== src/Server/Methods.antt =====
-- core/src/server/rpc_module.rs: the table of registered methods. `C` is the type of callbacks.
pub mod Merge
use jsonrpseex.Prelude.{
  String, Option, none, some, List, [], ◌∷◌, Bool, true, false, ite, String-discrete,
}
use jsonrpseex.Prelude.Map
use jsonrpseex.Prelude.Map.{Map}
use jsonrpseex.Types.Result.{Result, ok, err}
use jsonrpseex.Types.Method.{
  RegisterMethodError, already_registered, subscription_name_conflict, method_not_found,
}

module _ {C : Type 0} where
  -- `method`, and `method_with_name`, which gives the name too.
  abbrev pub method : Map String C → String → Option C
  method = Map.get String-discrete

  verify : String → Option C → Result RegisterMethodError (Unit {0})
  verify name none = ok tt
  verify name (some _) = err (already_registered name)

  unfoldable pub verify_method_name : Map String C → String → Result RegisterMethodError (Unit {0})
  unfolding verify
  verify_method_name m name = verify name (method m name)

  insert_if :
      Map String C → String → C → Option C → Result RegisterMethodError (Unit {0}) × Map String C
  insert_if m name callback none = (ok tt, Map.insert String-discrete m name callback)
  insert_if m name callback (some _) = (err (already_registered name), m)

  unfoldable pub verify_and_insert :
      Map String C → String → C → Result RegisterMethodError (Unit {0}) × Map String C
  unfolding insert_if
  verify_and_insert m name callback = insert_if m name callback (method m name)

  -- The loop over the names of the other table.
  verify_all : Map String C → List (String × C) → Result RegisterMethodError (Unit {0})
  unfolding verify_method_name
  verify_all m [] = ok tt
  verify_all m ((name, _) ∷ rest) = elim (verify_method_name m name) [
    | ok _ ↦ verify_all m rest
    | err e ↦ err e
  ]

  insert_all : List (String × C) → Map String C → Map String C
  insert_all [] m = m
  insert_all ((name, callback) ∷ rest) m =
      Map.insert String-discrete (insert_all rest m) name callback

  after_verify :
      Map String C
      → Map String C
      → Result RegisterMethodError (Unit {0})
      → Result RegisterMethodError (Unit {0}) × Map String C
  unfolding insert_all
  after_verify m other (ok _) = (ok tt, insert_all other.entries m)
  after_verify m other (err e) = (err e, m)

  -- The names of a table are distinct and in no order: the one that a look-up finds is inserted last.
  unfoldable pub merge :
      Map String C → Map String C → Result RegisterMethodError (Unit {0}) × Map String C
  unfolding verify_all after_verify
  merge m other = after_verify m other (verify_all m other.entries)

  alias_of :
      Map String C
      → String
      → String
      → Option C
      → Result RegisterMethodError (Unit {0}) × Map String C
  alias_of m alias existing none = (err (method_not_found existing), m)
  alias_of m alias existing (some callback) = (ok tt, Map.insert String-discrete m alias callback)

  unfoldable pub register_alias :
      Map String C → String → String → Result RegisterMethodError (Unit {0}) × Map String C
  unfolding alias_of verify_method_name
  register_alias m alias existing = elim (verify_method_name m alias) [
    | err e ↦ (err e, m)
    | ok _ ↦ alias_of m alias existing (method m existing)
  ]

  -- `verify_and_register_unsubscribe`, given the callback that it makes.
  unfoldable pub verify_and_register_unsubscribe :
      Map String C → String → String → C → Result RegisterMethodError (Unit {0}) × Map String C
  unfolding verify_method_name
  verify_and_register_unsubscribe m subscribe_name unsubscribe_name callback =
      ite (String-discrete subscribe_name unsubscribe_name)
        (err (subscription_name_conflict subscribe_name), m)
        (elim (verify_method_name m subscribe_name) [
          | err e ↦ (err e, m)
          | ok _ ↦ elim (verify_method_name m unsubscribe_name) [
            | err e ↦ (err e, m)
            | ok _ ↦ (ok tt, Map.insert String-discrete m unsubscribe_name callback)
          ]
        ])
