-- ===== src/Serialization/Relay.antt =====
-- What was read can be sent on (alignak/misc/serialization.py).
use alignak.Prelude.{ℕ, ◌≤◌, ◌≡◌, refl, Bool, true, false, none, if◌then◌else◌, arith}
use Prim.Native.String.{String}
use text.Mathlib.Text.{◌==◌ as str_eq}
use alignak.Serialization.Values.{
  Value, py_none, boolean, number, str, list, tuple, dict, dependency_node, external_command,
  Values, nil, cons, Fields, end, field, sys_python_module, is_falsy, get, serialize, transport,
}
use alignak.Serialization.Reading.{done, Loaded, unserialize}
use alignak.Serialization.Trip.{unserialize-serialize}
use alignak.Serialization.Plain.{
  IsAtom, AreAtoms, IsPlain, ArePlain, ArePlainFields, AreSons, is_son, AreLoaded, image, image_all,
  image_fields, cost,
}
use alignak.Serialization.Pieces.{get_step}

atom-IsPlain : (v : Value) → IsAtom v → IsPlain v
atom-IsPlain py_none a = tt
atom-IsPlain (boolean b) a = tt
atom-IsPlain (number n) a = tt
atom-IsPlain (str s) a = tt
atom-IsPlain (list _) a = elim a [ ]
atom-IsPlain (tuple _) a = elim a [ ]
atom-IsPlain (dict _) a = elim a [ ]
atom-IsPlain (dependency_node _ _ _ _ _ _) a = elim a [ ]
atom-IsPlain (external_command _ _) a = elim a [ ]

atoms-ArePlain : (xs : Values) → AreAtoms xs → ArePlain xs
atoms-ArePlain nil a = tt
atoms-ArePlain (cons x xs) a = (atom-IsPlain x a.0, atoms-ArePlain xs a.1)

get-image :
    (loaded : Loaded) (key : String) (fs : Fields)
    → get key fs ≡ none
    → get key (image_fields loaded fs) ≡ none
unfolding get image_fields
get-image loaded key end e = refl
get-image loaded key (field k x fs) e =
    get_step (str_eq k key) x (image loaded x) (get key fs) (get key (image_fields loaded fs)) e
      (get-image loaded key fs)

image-is_son : (loaded : Loaded) (v : Value) → is_son v ≡ true → is_son (image loaded v) ≡ true
unfolding image
image-is_son loaded py_none e = refl
image-is_son loaded (boolean b) e = refl
image-is_son loaded (number n) e = refl
image-is_son loaded (str s) e = refl
image-is_son loaded (list _) e = ground arith
image-is_son loaded (tuple _) e = ground arith
image-is_son loaded (dict _) e = ground arith
image-is_son loaded (dependency_node _ _ _ _ _ _) e = refl
image-is_son loaded (external_command _ _) e = ground arith

one_of : (b : Bool) (v w : Value) → IsAtom v → IsAtom w → IsAtom (if b then v else w)
one_of true v w a c = a
one_of false v w a c = c

mutual
  unfolding image

  image-IsPlain :
      (loaded : Loaded) (v : Value) → IsAtom loaded.now → IsPlain v → IsPlain (image loaded v)
  image-IsPlain loaded py_none a p = tt
  image-IsPlain loaded (boolean b) a p = tt
  image-IsPlain loaded (number n) a p = tt
  image-IsPlain loaded (str s) a p = tt
  image-IsPlain loaded (list xs) a p = image_all-ArePlain loaded xs a p
  image-IsPlain loaded (tuple xs) a p = atoms-ArePlain xs p
  image-IsPlain loaded (dict fs) a p =
      (get-image loaded sys_python_module fs p.0, image_fields-ArePlain loaded fs a p.1)
  image-IsPlain loaded (dependency_node o ss ov m x e) a p =
      (p.0, image_all-AreSons loaded ss a p.1, p.2, p.3, p.4)
  image-IsPlain loaded (external_command c t) a p = (p.0, one_of (is_falsy t) loaded.now t a p.1)

  image_all-ArePlain :
      (loaded : Loaded) (xs : Values)
      → IsAtom loaded.now
      → ArePlain xs
      → ArePlain (image_all loaded xs)
  image_all-ArePlain loaded nil a p = tt
  image_all-ArePlain loaded (cons x xs) a p =
      (image-IsPlain loaded x a p.0, image_all-ArePlain loaded xs a p.1)

  image_all-AreSons :
      (loaded : Loaded) (xs : Values)
      → IsAtom loaded.now
      → AreSons xs
      → AreSons (image_all loaded xs)
  image_all-AreSons loaded nil a p = tt
  image_all-AreSons loaded (cons x xs) a p =
      (image-is_son loaded x p.0, image-IsPlain loaded x a p.1, image_all-AreSons loaded xs a p.2)

  image_fields-ArePlain :
      (loaded : Loaded) (fs : Fields)
      → IsAtom loaded.now
      → ArePlainFields fs
      → ArePlainFields (image_fields loaded fs)
  image_fields-ArePlain loaded end a p = tt
  image_fields-ArePlain loaded (field k x fs) a p =
      (image-IsPlain loaded x a p.0, image_fields-ArePlain loaded fs a p.1)

-- What is read of a value that was sent can be sent on: it is again rules over rules and texts,
-- commands, and plain values without the key that stands for a class, if the time is an atom.
pub unserialize-IsPlain :
    (loaded : Loaded) (v : Value)
    → AreLoaded loaded
    → IsAtom loaded.now
    → IsPlain v
    → (n : ℕ) → cost v ≤ n
    → (w : Value) × (unserialize n loaded (transport (serialize v)) ≡ done w) × IsPlain w
unserialize-IsPlain loaded v l a p n h =
    (image loaded v, unserialize-serialize loaded v l p n h, image-IsPlain loaded v a p)
