-- ===== src/Serialization/Plain.antt =====
-- The values that are sent, what comes back of them and the fuel that their reading takes
-- (alignak/misc/serialization.py).
use alignak.Prelude.{ℕ, suc, max, ◌+◌, ◌≡◌, Bool, true, false, none, if◌then◌else◌}
use alignak.Serialization.Values.{
  Value, py_none, boolean, number, str, list, tuple, dict, dependency_node, external_command,
  Values, nil, cons, Fields, end, field, sys_python_module, dependency_node_class,
  external_command_class, is_falsy, get,
}
use alignak.Serialization.Reading.{done, Loaded, get_alignak_class}

abbrev pub IsAtom : Value → Type 0
IsAtom py_none = Unit
IsAtom (boolean b) = Unit
IsAtom (number n) = Unit
IsAtom (str s) = Unit
IsAtom _ = ⊥

abbrev pub AreAtoms : Values → Type 0
AreAtoms nil = Unit
AreAtoms (cons x xs) = IsAtom x × AreAtoms xs

abbrev pub is_son : Value → Bool
is_son py_none = true
is_son (boolean b) = true
is_son (number n) = true
is_son (str s) = true
is_son (dependency_node o ss v m n e) = true
is_son _ = false

-- What the code sends: rules over rules and texts, commands, and the plain values, no dictionary
-- of which has the key that stands for a class.
abbrev mutual
  pub IsPlain : Value → Type 0
  IsPlain py_none = Unit
  IsPlain (boolean b) = Unit
  IsPlain (number n) = Unit
  IsPlain (str s) = Unit
  IsPlain (list xs) = ArePlain xs
  IsPlain (tuple xs) = AreAtoms xs
  IsPlain (dict fs) = (get sys_python_module fs ≡ none) × ArePlainFields fs
  IsPlain (dependency_node operand sons of_values is_of_mul not_value errors) =
      IsAtom operand × AreSons sons × AreAtoms of_values × IsAtom is_of_mul × IsAtom not_value
  IsPlain (external_command cmd_line timestamp) = IsAtom cmd_line × IsAtom timestamp

  pub ArePlain : Values → Type 0
  ArePlain nil = Unit
  ArePlain (cons x xs) = IsPlain x × ArePlain xs

  pub ArePlainFields : Fields → Type 0
  ArePlainFields end = Unit
  ArePlainFields (field key x fs) = IsPlain x × ArePlainFields fs

  pub AreSons : Values → Type 0
  AreSons nil = Unit
  AreSons (cons x xs) = (is_son x ≡ true) × IsPlain x × AreSons xs

-- What comes back: no errors of the configuration, and lists for tuples.
unfoldable mutual
  pub image : Loaded → Value → Value
  image loaded (list xs) = list (image_all loaded xs)
  image loaded (tuple xs) = list xs
  image loaded (dict fs) = dict (image_fields loaded fs)
  image loaded (dependency_node operand sons of_values is_of_mul not_value errors) =
      dependency_node operand (image_all loaded sons) of_values is_of_mul not_value nil
  image loaded (external_command cmd_line timestamp) =
      external_command cmd_line (if is_falsy timestamp then loaded.now else timestamp)
  image loaded v = v

  pub image_all : Loaded → Values → Values
  image_all loaded nil = nil
  image_all loaded (cons x xs) = cons (image loaded x) (image_all loaded xs)

  pub image_fields : Loaded → Fields → Fields
  image_fields loaded end = end
  image_fields loaded (field key x fs) = field key (image loaded x) (image_fields loaded fs)

-- The fuel that the reading of a value takes.
unfoldable mutual
  pub cost : Value → ℕ
  cost (list xs) = suc (cost_all xs)
  cost (tuple xs) = 2
  cost (dict fs) = suc (cost_fields fs)
  cost (dependency_node operand sons of_values is_of_mul not_value errors) = 3 + cost_all sons
  cost v = 1

  pub cost_all : Values → ℕ
  cost_all nil = 1
  cost_all (cons x xs) = max (cost x) (cost_all xs)

  pub cost_fields : Fields → ℕ
  cost_fields end = 1
  cost_fields (field key x fs) = max (cost x) (cost_fields fs)

-- The two classes are loaded.
abbrev pub AreLoaded : Loaded → Type 0
AreLoaded loaded =
    (get_alignak_class loaded dependency_node_class ≡ done dependency_node_class)
    × (get_alignak_class loaded external_command_class ≡ done external_command_class)
