-- ===== src/Serialization/Reading.antt =====
-- `unserialize` and `get_alignak_class` of alignak/misc/serialization.py, and `__init__` of the
-- classes `DependencyNode` and `ExternalCommand`.
--
-- The recursion has fuel for its depth. The classes that Python has loaded (`sys.modules`) and
-- the time are in `Loaded`. A class that is not one of the two is the end of the model: the
-- answer `other_class` says which class would be called with what.
use Prim.Native.String.{String}
use text.Mathlib.Text.{◌==◌ as str_eq, starts_with, find?}
use alignak.Prelude.{ℕ, zero, suc, Bool, true, false, not, ◌||◌, Option, none, some, if◌then◌else◌}
use alignak.Serialization.Values.{
  Value, py_none, boolean, str, list, tuple, dict, dependency_node, external_command, Values, nil,
  cons, Fields, end, field, sys_python_module, dependency_node_class, external_command_class,
  is_falsy, get,
}

pub data Result {ℓ} (A : Type ℓ) : Type ℓ where
  done : A → Result A
  lookup_exception : Result A
  value_error : Result A
  type_error : Result A
  attribute_error : Result A
  key_error : Result A
  other_class : String → Value → Result A
  out_of_fuel : Result A

infixl 20 ◌>>=◌
abbrev pub ◌>>=◌ {ℓ κ} : {A : Type ℓ} {B : Type κ} → Result A → (A → Result B) → Result B
done a >>= f = f a
lookup_exception >>= f = lookup_exception
value_error >>= f = value_error
type_error >>= f = type_error
attribute_error >>= f = attribute_error
key_error >>= f = key_error
other_class c v >>= f = other_class c v
out_of_fuel >>= f = out_of_fuel

-- The attributes of the loaded modules: whether each is a class.
pub record Loaded : Type 0 where
  pub modules : String → Option (String → Option Bool)
  pub now : Value

-- `python_path.rsplit('.', 1)`: the texts around the last dot, none where there is no dot.
unfoldable pub rsplit : String → Option (String × String)
rsplit String.[] = none
rsplit (String.◌∷◌ c s) = elim (rsplit s) [
  | some (a, b) ↦ some (String.◌∷◌ c a, b)
  | none ↦ if str_eq (String.◌∷◌ c String.[]) "." then some ("", s) else none
]

-- A class is known by its path.
unfoldable pub get_alignak_class : Loaded → String → Result String
get_alignak_class loaded python_path = elim (rsplit python_path) [
  | none ↦ value_error
  | some (a_module, a_class) ↦
      if not (starts_with a_module "alignak")
      then lookup_exception
      else elim (loaded.modules a_module) [
        | none ↦ lookup_exception
        | some pymodule ↦ elim (pymodule a_class) [
          | none ↦ lookup_exception
          | some is_type ↦
              if is_type || str_eq a_class "ExternalCommand"
              then done python_path
              else lookup_exception
        ]
      ]
]

abbrev pub item : String → Value → Result Value
item key (dict fs) = elim (get key fs) [ none ↦ key_error | some v ↦ done v ]
item key _ = type_error

unfoldable pub has_text : String → Values → Bool
has_text key nil = false
has_text key (cons (str s) xs) = str_eq s key || has_text key xs
has_text key (cons x xs) = has_text key xs

-- `key in params`
unfoldable pub contains : String → Value → Result Bool
contains key (dict fs) = elim (get key fs) [ none ↦ done false | some v ↦ done true ]
contains key (list xs) = done (has_text key xs)
contains key (tuple xs) = done (has_text key xs)
contains key (str s) = elim (find? s key) [ none ↦ done false | some i ↦ done true ]
contains key _ = type_error

-- `if key in params: self.key = params[key]`
unfoldable pub param : String → Value → Value → Result Value
param key default params = do
  is_given ← contains key params
  if is_given then item key params else done default

abbrev pub characters : String → Values
characters String.[] = nil
characters (String.◌∷◌ c s) = cons (str (String.◌∷◌ c String.[])) (characters s)

abbrev pub keys : Fields → Values
keys end = nil
keys (field key x fs) = cons (str key) (keys fs)

-- What a loop over the value goes through.
abbrev pub iterate : Value → Result Values
iterate (list xs) = done xs
iterate (tuple xs) = done xs
iterate (str s) = done (characters s)
iterate (dict fs) = done (keys fs)
iterate _ = type_error

unfoldable pub unserialize_all : (Value → Result Value) → Values → Result Values
unserialize_all read nil = done nil
unserialize_all read (cons x xs) = do y ← read x; ys ← unserialize_all read xs; done (cons y ys)

unfoldable pub unserialize_fields : (Value → Result Value) → Fields → Result Fields
unserialize_fields read end = done end
unserialize_fields read (field key x fs) = do
  y ← read x
  gs ← unserialize_fields read fs
  done (field key y gs)

abbrev pub zeros : Values
zeros = cons (str "0") (cons (str "0") (cons (str "0") nil))

-- `DependencyNode(params)`
unfoldable pub new_dependency_node : (Value → Result Value) → Value → Result Value
new_dependency_node read py_none =
    done (dependency_node py_none nil zeros (boolean false) (boolean false) nil)
new_dependency_node read params = do
  operand ← param "operand" py_none params
  sons ← param "sons" (list nil) params >>= iterate >>= unserialize_all read
  of_values ← param "of_values" (tuple zeros) params >>= iterate
  is_of_mul ← param "is_of_mul" (boolean false) params
  not_value ← param "not_value" (boolean false) params
  done (dependency_node operand sons of_values is_of_mul not_value nil)

-- `ExternalCommand(cmd_line, timestamp)`
unfoldable pub new_external_command : Loaded → Value → Value → Value
new_external_command loaded cmd_line timestamp =
    external_command cmd_line (if is_falsy timestamp then loaded.now else timestamp)

-- `cls(data['content']['cmd_line'], data['content']['creation_timestamp'])`
unfoldable pub restore_external_command : Loaded → Value → Result Value
restore_external_command loaded content = do
  cmd_line ← item "cmd_line" content
  timestamp ← item "creation_timestamp" content
  done (new_external_command loaded cmd_line timestamp)

-- `cls(content, parsing=False)`
unfoldable pub instantiate : (Value → Result Value) → String → Value → Result Value
instantiate read path content =
    if str_eq path dependency_node_class
    then new_dependency_node read content
    else other_class path content

-- The branch of `unserialize` for a dictionary that names a class.
unfoldable pub restore_object : Loaded → (Value → Result Value) → Value → Value → Result Value
restore_object loaded read (str path) obj = do
  cls ← get_alignak_class loaded path
  content ← item "content" obj
  let restored = read content in
      if str_eq path external_command_class
      then restore_external_command loaded content
      else (restored >>= instantiate read cls)
restore_object loaded read _ obj = attribute_error

unfoldable pub restore : Loaded → (Value → Result Value) → Value → Result Value
restore loaded read (dict fs) = elim (get sys_python_module fs) [
  | some path ↦ restore_object loaded read path (dict fs)
  | none ↦ unserialize_fields read fs >>= λ gs. done (dict gs)
]
restore loaded read (list xs) = unserialize_all read xs >>= λ ys. done (list ys)
restore loaded read v = done v

unfoldable pub unserialize : ℕ → Loaded → Value → Result Value
unserialize zero loaded v = out_of_fuel
unserialize (suc n) loaded v =
    let restored = restore loaded (unserialize n loaded) v in
    if is_falsy v then done v else restored
