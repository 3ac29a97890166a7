-- ===== src/Serialization/Trip.antt =====
-- What comes back of a value that is serialized, sent and read (alignak/misc/serialization.py).
use alignak.Prelude.{ℕ, zero, suc, ◌≤◌, ◌+◌, ◌≡◌, refl, arith}
use alignak.Serialization.Values.{
  Value, py_none, boolean, number, str, list, tuple, dict, dependency_node, external_command,
  Values, nil, cons, Fields, end, field, sys_python_module, serialize, serialize_all,
  serialize_fields, transport, transport_all, transport_fields,
}
use alignak.Serialization.Reading.{
  done, Loaded, unserialize, unserialize_all, unserialize_fields, restore,
}
use alignak.Serialization.Plain.{
  IsPlain, ArePlain, ArePlainFields, AreSons, AreLoaded, image, image_all, image_fields, cost,
  cost_all, cost_fields,
}
use alignak.Serialization.Pieces.{
  read_atom, transport_atom, read_atoms, read_sons_again, get_transport, read_list, read_dict,
  read_rule, read_command, not_free,
}

cost_all-pos : (xs : Values) → 1 ≤ cost_all xs
unfolding cost_all
cost_all-pos nil = omega arith
cost_all-pos (cons x xs) = omega (arith, cost_all-pos xs)

too_little : (ss : Values) (k : ℕ) → 3 + cost_all ss ≤ k → ¬ (k ≤ 3)
too_little ss k h f = omega (arith, cost_all-pos ss)

not_one : ¬ (2 ≤ 1)
not_one h = omega arith

mutual
  unfolding serialize transport image cost unserialize unserialize_all unserialize_fields restore

  read :
      (loaded : Loaded) (v : Value)
      → AreLoaded loaded
      → IsPlain v
      → (n : ℕ) → cost v ≤ n
      → unserialize n loaded (transport (serialize v)) ≡ done (image loaded v)
  read loaded v l p zero h = absurd (not_free v h)
  read loaded py_none l p (suc n) h = read_atom loaded n py_none p
  read loaded (boolean b) l p (suc n) h = read_atom loaded n (boolean b) p
  read loaded (number m) l p (suc n) h = read_atom loaded n (number m) p
  read loaded (str s) l p (suc n) h = read_atom loaded n (str s) p
  read loaded (list xs) l p (suc n) h =
      read_list loaded n _ _ (read_all loaded xs l p n (omega arith))
  read loaded (tuple xs) l p (suc zero) h = absurd (not_one h)
  read loaded (tuple xs) l p (suc (suc n)) h =
      read_list loaded (suc n) (transport_all xs) xs (read_atoms loaded n xs p)
  read loaded (dict fs) l p (suc n) h =
      read_dict loaded n _ _ (get_transport sys_python_module fs p.0)
        (read_fields loaded fs l p.1 n (omega arith))
  read loaded (dependency_node o ss ov m x e) l p (suc (suc (suc (suc n)))) h =
      rw (transport_atom o p.0, transport_atom m p.3, transport_atom x p.4)
        (read_rule loaded n o m x (transport_all (serialize_all ss)) (image_all loaded ss)
          (transport_all ov) ov l p.0 p.3 p.4 (read_sons loaded ss l p.1 (suc n) (omega arith))
          (read_atoms loaded n ov p.2) (read_sons_again loaded (suc (suc n)) ss p.1))
  read loaded (dependency_node o ss ov m x e) l p (suc zero) h =
      absurd (too_little ss 1 h (omega arith))
  read loaded (dependency_node o ss ov m x e) l p (suc (suc zero)) h =
      absurd (too_little ss 2 h (omega arith))
  read loaded (dependency_node o ss ov m x e) l p (suc (suc (suc zero))) h =
      absurd (too_little ss 3 h (omega arith))
  read loaded (external_command c t) l p (suc n) h =
      rw (transport_atom c p.0, transport_atom t p.1) (read_command loaded n c t l)

  read_all :
      (loaded : Loaded) (xs : Values)
      → AreLoaded loaded
      → ArePlain xs
      → (n : ℕ) → cost_all xs ≤ n
      → unserialize_all (unserialize n loaded) (transport_all (serialize_all xs))
        ≡ done (image_all loaded xs)
  read_all loaded nil l p n h = refl
  read_all loaded (cons x xs) l p n h =
      rw (read loaded x l p.0 n (omega arith), read_all loaded xs l p.1 n (omega arith)) refl

  read_sons :
      (loaded : Loaded) (xs : Values)
      → AreLoaded loaded
      → AreSons xs
      → (n : ℕ) → cost_all xs ≤ n
      → unserialize_all (unserialize n loaded) (transport_all (serialize_all xs))
        ≡ done (image_all loaded xs)
  read_sons loaded nil l p n h = refl
  read_sons loaded (cons x xs) l p n h =
      rw (read loaded x l p.1 n (omega arith), read_sons loaded xs l p.2 n (omega arith)) refl

  read_fields :
      (loaded : Loaded) (fs : Fields)
      → AreLoaded loaded
      → ArePlainFields fs
      → (n : ℕ) → cost_fields fs ≤ n
      → unserialize_fields (unserialize n loaded) (transport_fields (serialize_fields fs))
        ≡ done (image_fields loaded fs)
  read_fields loaded end l p n h = refl
  read_fields loaded (field k x fs) l p n h =
      rw (read loaded x l p.0 n (omega arith), read_fields loaded fs l p.1 n (omega arith)) refl

-- What is serialized and sent comes back, with fuel for its depth: lists for tuples, and rules
-- without the errors of their configuration.
pub unserialize-serialize :
    (loaded : Loaded) (v : Value)
    → AreLoaded loaded
    → IsPlain v
    → (n : ℕ) → cost v ≤ n
    → unserialize n loaded (transport (serialize v)) ≡ done (image loaded v)
unserialize-serialize loaded v l p n h = read loaded v l p n h
