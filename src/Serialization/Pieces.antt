-- ===== src/Serialization/Pieces.antt =====
-- How `unserialize` of alignak/misc/serialization.py reads the pieces of a value.
use Prim.Native.String.{String}
use text.Mathlib.Text.{◌==◌ as str_eq}
use alignak.Prelude.{
  ℕ, zero, suc, ◌≤◌, ◌≡◌, refl, ap, sym, subst, Bool, true, false, Option, none, some,
  if◌then◌else◌, arith, pos, negsuc,
}
use alignak.Serialization.Values.{
  Value, py_none, boolean, number, str, list, tuple, dict, dependency_node, external_command,
  Values, nil, cons, Fields, end, field, sys_python_module, dependency_node_class,
  external_command_class, is_falsy, get, written, serialize, serialize_fields, transport,
  transport_all, transport_fields,
}
use alignak.Serialization.Reading.{
  Result, done, Loaded, unserialize, unserialize_all, unserialize_fields, ◌>>=◌, restore,
  restore_object, instantiate, new_dependency_node, new_external_command, restore_external_command,
  param, contains,
}
use alignak.Serialization.Plain.{
  IsAtom, AreAtoms, AreSons, is_son, AreLoaded, image, image_all, cost,
}

-- An atom is read as it is.
pub read_atom :
    (loaded : Loaded) (n : ℕ) (v : Value) → IsAtom v → unserialize (suc n) loaded v ≡ done v
unfolding unserialize restore
read_atom loaded n py_none a = refl
read_atom loaded n (boolean true) a = refl
read_atom loaded n (boolean false) a = refl
read_atom loaded n (number (pos zero)) a = refl
read_atom loaded n (number (pos (suc m))) a = refl
read_atom loaded n (number (negsuc m)) a = refl
read_atom loaded n (str s) a = ground arith
read_atom loaded n (list _) a = elim a [ ]
read_atom loaded n (tuple _) a = elim a [ ]
read_atom loaded n (dict _) a = elim a [ ]
read_atom loaded n (dependency_node _ _ _ _ _ _) a = elim a [ ]
read_atom loaded n (external_command _ _) a = elim a [ ]

pub transport_atom : (v : Value) → IsAtom v → transport v ≡ v
unfolding transport
transport_atom py_none a = refl
transport_atom (boolean b) a = refl
transport_atom (number n) a = refl
transport_atom (str s) a = refl
transport_atom (list _) a = elim a [ ]
transport_atom (tuple _) a = elim a [ ]
transport_atom (dict _) a = elim a [ ]
transport_atom (dependency_node _ _ _ _ _ _) a = elim a [ ]
transport_atom (external_command _ _) a = elim a [ ]

pub read_atoms :
    (loaded : Loaded) (n : ℕ) (xs : Values)
    → AreAtoms xs
    → unserialize_all (unserialize (suc n) loaded) (transport_all xs) ≡ done xs
unfolding unserialize_all transport_all
read_atoms loaded n nil a = refl
read_atoms loaded n (cons x xs) a =
    rw (transport_atom x a.0, read_atom loaded n x a.0, read_atoms loaded n xs a.1) refl

-- The sons of a rule are read once more by its class, which changes nothing.
read_son_again :
    (loaded : Loaded) (n : ℕ) (v : Value)
    → is_son v ≡ true
    → unserialize (suc n) loaded (image loaded v) ≡ done (image loaded v)
unfolding image unserialize restore
read_son_again loaded n (dependency_node o ss v m x e) b = refl
read_son_again loaded n py_none b = refl
read_son_again loaded n (boolean true) b = refl
read_son_again loaded n (boolean false) b = refl
read_son_again loaded n (number (pos zero)) b = refl
read_son_again loaded n (number (pos (suc m))) b = refl
read_son_again loaded n (number (negsuc m)) b = refl
read_son_again loaded n (str s) b = ground arith
read_son_again loaded n (list _) b = ground arith
read_son_again loaded n (tuple _) b = ground arith
read_son_again loaded n (dict _) b = ground arith
read_son_again loaded n (external_command _ _) b = ground arith

pub read_sons_again :
    (loaded : Loaded) (n : ℕ) (xs : Values)
    → AreSons xs
    → unserialize_all (unserialize (suc n) loaded) (image_all loaded xs)
      ≡ done (image_all loaded xs)
unfolding unserialize_all image_all
read_sons_again loaded n nil a = refl
read_sons_again loaded n (cons x xs) a =
    rw (read_son_again loaded n x a.0, read_sons_again loaded n xs a.2) refl

pub get_step :
    (b : Bool) (x y : Value) (o p : Option Value)
    → (if b then some x else o) ≡ none
    → (o ≡ none → p ≡ none)
    → (if b then some y else p) ≡ none
get_step true x y o p e f = ground arith
get_step false x y o p e f = f e

-- The keys of a dictionary stay.
pub get_transport :
    (key : String) (fs : Fields)
    → get key fs ≡ none
    → get key (transport_fields (serialize_fields fs)) ≡ none
unfolding get transport_fields serialize_fields
get_transport key end e = refl
get_transport key (field k x fs) e =
    get_step (str_eq k key) x (transport (serialize x)) (get key fs)
      (get key (transport_fields (serialize_fields fs))) e (get_transport key fs)

pub read_list :
    (loaded : Loaded) (n : ℕ) (xs ys : Values)
    → unserialize_all (unserialize n loaded) xs ≡ done ys
    → unserialize (suc n) loaded (list xs) ≡ done (list ys)
unfolding unserialize restore unserialize_all
read_list loaded n nil ys e = ap (λ r. r >>= λ zs. done (list zs)) e
read_list loaded n (cons x xs) ys e = ap (λ r. r >>= λ zs. done (list zs)) e

restore_dict :
    (loaded : Loaded) (read : Value → Result Value) (fs gs : Fields)
    → get sys_python_module fs ≡ none
    → unserialize_fields read fs ≡ done gs
    → restore loaded read (dict fs) ≡ done (dict gs)
unfolding restore
restore_dict loaded read fs gs k e =
    subst
      (λ o.
        (elim o [
          | some path ↦ restore_object loaded read path (dict fs)
          | none ↦ unserialize_fields read fs >>= λ hs. done (dict hs)
        ])
        ≡ done (dict gs))
      (sym k) (ap (λ r. r >>= λ hs. done (dict hs)) e)

pub read_dict :
    (loaded : Loaded) (n : ℕ) (fs gs : Fields)
    → get sys_python_module fs ≡ none
    → unserialize_fields (unserialize n loaded) fs ≡ done gs
    → unserialize (suc n) loaded (dict fs) ≡ done (dict gs)
unfolding unserialize unserialize_fields
read_dict loaded n end gs k e = ap (λ r. r >>= λ hs. done (dict hs)) e
read_dict loaded n (field j x fs) gs k e =
    restore_dict loaded (unserialize n loaded) (field j x fs) gs k e

-- The items that `serialize` writes for a rule.
abbrev rule : Value → Value → Value → Value → Value → Fields
rule o ss ov m x =
    field "operand" o
      (field "sons" ss (field "of_values" ov (field "is_of_mul" m (field "not_value" x end))))

read_content :
    (loaded : Loaded) (n : ℕ) (o ss ov m x ss' ov' : Value)
    → IsAtom o
    → IsAtom m
    → IsAtom x
    → unserialize (suc n) loaded ss ≡ done ss'
    → unserialize (suc n) loaded ov ≡ done ov'
    → unserialize (suc (suc n)) loaded (dict (rule o ss ov m x)) ≡ done (dict (rule o ss' ov' m x))
unfolding unserialize_fields get
read_content loaded n o ss ov m x ss' ov' ao am ax es eo =
    read_dict loaded (suc n) (rule o ss ov m x) (rule o ss' ov' m x) refl
      (rw (read_atom loaded n o ao, es, eo, read_atom loaded n m am, read_atom loaded n x ax) refl)

-- What the class makes of the items.
new_rule :
    (read : Value → Result Value) (o m x : Value) (ss ov : Values)
    → unserialize_all read ss ≡ done ss
    → new_dependency_node read (dict (rule o (list ss) (list ov) m x))
      ≡ done (dependency_node o ss ov m x nil)
unfolding new_dependency_node param contains get
new_rule read o m x ss ov e = rw e refl

pub read_rule :
    (loaded : Loaded) (n : ℕ) (o m x : Value) (ss ss' ov ov' : Values)
    → AreLoaded loaded
    → IsAtom o
    → IsAtom m
    → IsAtom x
    → unserialize_all (unserialize (suc n) loaded) ss ≡ done ss'
    → unserialize_all (unserialize (suc n) loaded) ov ≡ done ov'
    → unserialize_all (unserialize (suc (suc (suc n))) loaded) ss' ≡ done ss'
    → unserialize
        (suc (suc (suc (suc n))))
        loaded
        (written dependency_node_class (rule o (list ss) (list ov) m x))
      ≡ done (dependency_node o ss' ov' m x nil)
unfolding unserialize restore restore_object get instantiate
read_rule loaded n o m x ss ss' ov ov' l ao am ax es eo again =
    rw
      (
        l.0,
        read_content loaded (suc n) o (list ss) (list ov) m x (list ss') (list ov') ao am ax
            (read_list loaded (suc n) ss ss' es) (read_list loaded (suc n) ov ov' eo),
      )
      (new_rule (unserialize (suc (suc (suc n))) loaded) o m x ss' ov' again)

pub read_command :
    (loaded : Loaded) (n : ℕ) (c t : Value)
    → AreLoaded loaded
    → unserialize (suc n) loaded (
        written external_command_class (
          field "my_type"
            (str "externalcommand")
            (field "cmd_line" c (field "creation_timestamp" t end))))
      ≡ done (external_command c (if is_falsy t then loaded.now else t))
unfolding unserialize restore restore_object get restore_external_command new_external_command
read_command loaded n c t l = rw l.1 refl

pub not_free : (v : Value) → ¬ (cost v ≤ 0)
unfolding cost
not_free py_none h = omega arith
not_free (boolean b) h = omega arith
not_free (number n) h = omega arith
not_free (str s) h = omega arith
not_free (list xs) h = omega arith
not_free (tuple xs) h = omega arith
not_free (dict fs) h = omega arith
not_free (dependency_node o ss ov m x e) h = omega arith
not_free (external_command c t) h = omega arith
