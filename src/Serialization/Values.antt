-- ===== src/Serialization/Values.antt =====
-- `serialize` of alignak/misc/serialization.py, on Python's plain values and on objects of the
-- classes `DependencyNode` and `ExternalCommand`, with the `serialize` of each class.
--
-- `no_json` is true, and a dictionary is its items in order. The transport writes them as JSON,
-- which has lists but no tuples.
use Prim.Native.String.{String}
use text.Mathlib.Text.{◌==◌ as str_eq}
use alignak.Prelude.{zero, Bool, true, false, Option, none, some, if◌then◌else◌, ℤ, pos}

mutual
  pub data Value : Type 0 where
    py_none : Value
    boolean : Bool → Value
    number : ℤ → Value
    str : String → Value
    list : Values → Value
    tuple : Values → Value
    dict : Fields → Value
    dependency_node :
        (operand : Value) (sons of_values : Values) (is_of_mul not_value : Value)
        (configuration_errors : Values)
        → Value
    external_command : (cmd_line creation_timestamp : Value) → Value

  pub data Values : Type 0 where
    nil : Values
    cons : Value → Values → Values

  pub data Fields : Type 0 where
    end : Fields
    field : String → Value → Fields → Fields

abbrev pub sys_python_module : String
sys_python_module = "__sys_python_module__"

abbrev pub dependency_node_class : String
dependency_node_class = "alignak.dependencynode.DependencyNode"

abbrev pub external_command_class : String
external_command_class = "alignak.external_command.ExternalCommand"

-- What `serialize` writes for an object.
abbrev pub written : String → Fields → Value
written path content =
    dict (field sys_python_module (str path) (field "content" (dict content) end))

unfoldable mutual
  pub serialize : Value → Value
  serialize (list xs) = list (serialize_all xs)
  serialize (dict fs) = dict (serialize_fields fs)
  serialize (dependency_node operand sons of_values is_of_mul not_value configuration_errors) =
      written dependency_node_class (
        field "operand" operand (
          field "sons" (list (serialize_all sons)) (
            field "of_values" (tuple of_values)
              (field "is_of_mul" is_of_mul (field "not_value" not_value end)))))
  serialize (external_command cmd_line creation_timestamp) = written external_command_class (
      field "my_type" (str "externalcommand")
        (field "cmd_line" cmd_line (field "creation_timestamp" creation_timestamp end)))
  serialize v = v

  -- `[serialize(item) for item in obj]`
  pub serialize_all : Values → Values
  serialize_all nil = nil
  serialize_all (cons x xs) = cons (serialize x) (serialize_all xs)

  -- `for key in obj: res[key] = serialize(obj[key])`
  pub serialize_fields : Fields → Fields
  serialize_fields end = end
  serialize_fields (field key x fs) = field key (serialize x) (serialize_fields fs)

-- What arrives of a value that is sent as JSON: a tuple comes as a list.
unfoldable mutual
  pub transport : Value → Value
  transport (list xs) = list (transport_all xs)
  transport (tuple xs) = list (transport_all xs)
  transport (dict fs) = dict (transport_fields fs)
  transport v = v

  pub transport_all : Values → Values
  transport_all nil = nil
  transport_all (cons x xs) = cons (transport x) (transport_all xs)

  pub transport_fields : Fields → Fields
  transport_fields end = end
  transport_fields (field key x fs) = field key (transport x) (transport_fields fs)

-- `not v`
abbrev pub is_falsy : Value → Bool
is_falsy py_none = true
is_falsy (boolean false) = true
is_falsy (number (pos zero)) = true
is_falsy (str s) = str_eq s ""
is_falsy (list nil) = true
is_falsy (tuple nil) = true
is_falsy (dict end) = true
is_falsy _ = false

-- `d[key]` of a dictionary, none where there is no such key.
unfoldable pub get : String → Fields → Option Value
get key end = none
get key (field k x fs) = if str_eq k key then some x else get key fs
