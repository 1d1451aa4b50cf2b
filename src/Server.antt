-- ===== src/Server.antt =====
-- rpc/server.go and rpc/util.go: the registry of a TServer.
-- What package reflect says of a type is data here; `is_upper` stands for the test of package
-- unicode on a name's first character.
pub mod Registry
pub mod State
pub mod Life
pub mod Conns
mod Tests
use Prim.Native.Char.{code}
use Prim.Native.String.{◌++◌ as text_append}
use text.Mathlib.Text.{◌==◌ as text_beq}
use gopl.Prelude.{
  ℕ, zero, suc, ◌+◌, ◌-◌, Bool, true, false, not, ◌&&◌, ◌||◌, Option, none, some, String, List, [],
  ◌∷◌, ◌++◌, ◌==◌, if◌then◌else◌,
}
use gopl.Prelude.Run.{Run, finished, panics, out_of_fuel}
use gopl.Keys.{text_eq}
use gopl.GoMap.{GoMap, lookup, assign}
use gopl.RpcError.{GoError, other, Result, ok, err}
use gopl.Client.Choose.{remove_first}

-- A type: a pointer to another one, or one with its name and package path.
pub data GoType : Type 0 where
  ptr : GoType → GoType
  named : String → String → GoType

-- The predeclared type `error`: its package path is empty.
unfoldable pub is_error_type : GoType → Bool
is_error_type (ptr t) = false
is_error_type (named name pkg_path) = text_beq name "error" && text_beq pkg_path ""

unfoldable pub is_pointer : GoType → Bool
is_pointer (ptr t) = true
is_pointer (named name pkg_path) = false

-- reflect.Method; the first of `ins` is the receiver.
pub record Method : Type 0 where
  pub name : String
  pub pkg_path : String
  pub ins : List GoType
  pub outs : List GoType

pub record TMethodType : Type 0 where
  pub method : Method
  pub arg_type : GoType
  pub reply_type : GoType

pub record TService : Type 0 where
  pub name : String
  pub typ : GoType
  pub method : GoMap String TMethodType

abbrev pub Services : Type 0
Services = GoMap String TService

-- Indirect(rcvr).Type().Name(): a pointer has no name.
unfoldable pub type_name : GoType → String
type_name (ptr t) = ""
type_name (named name pkg_path) = name

unfoldable pub indirect : GoType → GoType
indirect (ptr t) = t
indirect (named name pkg_path) = named name pkg_path

-- The text before the first dot and the text after it.
unfoldable pub split_dot : String → Option (String × String)
split_dot String.[] = none
split_dot (String.◌∷◌ c s) =
    let rest = split_dot s in
    if code c == b'.'
    then some ("", s)
    else elim rest [ none ↦ none | some (a, b) ↦ some (String.◌∷◌ c a, b) ]

unfoldable pub find_method : Option TService → String → String → Result (TService × TMethodType)
find_method none method_name service_method =
    err (other (text_append "rpc: can't find service " service_method))
find_method (some s) method_name service_method = elim (lookup method_name s.method) [
  | none ↦ err (other (text_append "rpc: can't find method " service_method))
  | some mtype ↦ ok (s, mtype)
]

unfoldable pub get_service_method : Services → String → Result (TService × TMethodType)
unfolding find_method split_dot
get_service_method services service_method = elim (split_dot service_method) [
  | none ↦ err (other (text_append "rpc: service/method request ill-formed: " service_method))
  | some (service_name, method_name) ↦
      find_method (lookup service_name services) method_name service_method
]

module _ (is_upper : String → Bool) where
  abbrev pub is_exported : String → Bool
  is_exported = is_upper

  unfoldable pub is_exported_or_builtin_type : GoType → Bool
  is_exported_or_builtin_type (ptr t) = is_exported_or_builtin_type t
  is_exported_or_builtin_type (named name pkg_path) = is_exported name || text_beq pkg_path ""

  -- The tests of the loop of suitableMethods; a method that fails one of them is skipped.
  unfoldable pub check_method : Method → List GoType → List GoType → Option TMethodType
  unfolding is_exported_or_builtin_type is_pointer is_error_type
  check_method m (rcvr ∷ arg ∷ reply ∷ []) (out ∷ []) =
      if text_beq m.pkg_path ""
        && is_exported_or_builtin_type arg
        && is_pointer reply
        && is_exported_or_builtin_type reply
        && is_error_type out
      then some (record { method = m; arg_type = arg; reply_type = reply })
      else none
  check_method m ins outs = none

  abbrev pub add_method :
      String → Option TMethodType → GoMap String TMethodType → GoMap String TMethodType
  add_method name none methods = methods
  add_method name (some mtype) methods = assign name mtype methods

  -- The loop of suitableMethods, with the methods found so far.
  unfoldable pub suitable_methods :
      List Method → GoMap String TMethodType → GoMap String TMethodType
  unfolding check_method
  suitable_methods [] found = found
  suitable_methods (m ∷ rest) found =
      suitable_methods rest (add_method m.name (check_method m m.ins m.outs) found)

  abbrev pub no_methods : String → GoMap String TMethodType → GoError
  no_methods sname [] = other (
      text_append "rpc.Register: type "
        (text_append sname " has no exported methods of suitable type"))
  no_methods sname (p ∷ rest) = other (
      text_append "rpc.Register: type " (
        text_append sname
          " has no exported methods of suitable type (hint: pass a pointer to value of that type)"))

  -- The end of register, once the name is known to be free.
  unfoldable pub install :
      GoMap String TMethodType
      → (GoType → List Method)
      → String
      → GoType
      → Services
      → Services × Option GoError
  unfolding suitable_methods
  install [] methods sname typ services =
      (services, some (no_methods sname (suitable_methods (methods (ptr typ)) [])))
  install (p ∷ rest) methods sname typ services =
      (assign sname (record { name = sname; typ = typ; method = p ∷ rest }) services, none)

  unfoldable pub if_free :
      Option TService
      → (GoType → List Method)
      → String
      → GoType
      → Services
      → Services × Option GoError
  unfolding install
  if_free (some s) methods sname typ services =
      (services, some (other (text_append "rpc: service already defined: " sname)))
  if_free none methods sname typ services =
      install (suitable_methods (methods typ) []) methods sname typ services

  -- The checks of the name, of which the first two log and fail.
  unfoldable pub register_as :
      (GoType → List Method)
      → (GoType → String)
      → GoType
      → String
      → Bool
      → Services
      → Services × Option GoError
  unfolding if_free
  register_as methods string_of typ sname use_name services =
      if text_beq sname ""
      then (
        services,
        some (other (text_append "rpc.Register: no service name for type " (string_of typ))),
      )
      else if not (is_exported sname) && not use_name
      then (
        services,
        some (other (text_append "rpc.Register: type " (text_append sname " is not exported"))),
      )
      else if_free (lookup sname services) methods sname typ services

  -- `methods` are the methods of a type, `typ` is the type of the receiver, `string_of` its text;
  -- `given` is the name where RegisterName gives one.
  unfoldable pub register :
      (GoType → List Method)
      → (GoType → String)
      → GoType
      → Option String
      → Services
      → Services × Option GoError
  unfolding register_as type_name indirect
  register methods string_of typ none services =
      register_as methods string_of typ (type_name (indirect typ)) false services
  register methods string_of typ (some name) services =
      register_as methods string_of typ name true services
