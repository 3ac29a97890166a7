-- ===== src/Serialization/Examples.antt =====
-- A rule and a command that are sent (alignak/misc/serialization.py), and what the theorems say.
use Prim.Native.String.{String}
use text.Mathlib.Text.{◌==◌ as str_eq}
use alignak.Prelude.{
  ◌≤◌, ◌≡◌, refl, Bool, true, false, Option, none, some, if◌then◌else◌, pos, arith,
}
use alignak.Serialization.Values.{
  Value, boolean, number, str, list, dict, dependency_node, external_command, nil, cons, end, field,
  dependency_node_class, serialize, transport, get,
}
use alignak.Serialization.Reading.{
  done, Loaded, lookup_exception, rsplit, get_alignak_class, unserialize, zeros,
}
use alignak.Serialization.Trip.{unserialize-serialize}
use alignak.Serialization.Plain.{IsPlain, AreLoaded, image, cost}
use alignak.Serialization.Relay.{unserialize-IsPlain}

abbrev one_class : String → String → Option Bool
one_class name key = if str_eq key name then some true else none

abbrev two_modules : Loaded
two_modules = record {
  modules = λ m.
      if str_eq m "alignak.dependencynode"
      then some (one_class "DependencyNode")
      else if str_eq m "alignak.external_command"
      then some (one_class "ExternalCommand")
      else none;
  now = number (pos 1500);
}

abbrev host_rule : Value
host_rule =
    dependency_node (str "host") (cons (str "uuid-1") nil) zeros (boolean false) (boolean false)
      (cons (str "unknown host") nil)

-- A rule `!(host-1)` under an "and", and a command without a time, in a message.
abbrev message : Value
message = dict (
    field "rule"
      (dependency_node (str "&") (cons host_rule nil) zeros (boolean false) (boolean true) nil)
      (field "commands"
        (list (cons (external_command (str "RESTART_PROGRAM") (number (pos 0))) nil)) end))

rsplit_example : rsplit dependency_node_class ≡ some ("alignak.dependencynode", "DependencyNode")
unfolding rsplit
rsplit_example = refl

two_modules-AreLoaded : AreLoaded two_modules
unfolding get_alignak_class rsplit
two_modules-AreLoaded = (refl, refl)

other_module : get_alignak_class two_modules "os.path" ≡ lookup_exception
unfolding get_alignak_class rsplit
other_module = refl

message-IsPlain : IsPlain message
unfolding get
message-IsPlain = ground arith

cost-message : cost message ≤ 9
unfolding cost
cost-message = omega arith

unserialize-serialize_example :
    unserialize 9 two_modules (transport (serialize message)) ≡ done (image two_modules message)
unserialize-serialize_example =
    unserialize-serialize two_modules message two_modules-AreLoaded message-IsPlain 9 cost-message

unserialize-IsPlain_example :
    (w : Value) × (unserialize 9 two_modules (transport (serialize message)) ≡ done w) × IsPlain w
unserialize-IsPlain_example =
    unserialize-IsPlain two_modules message two_modules-AreLoaded tt message-IsPlain 9 cost-message
