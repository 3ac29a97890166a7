-- ===== src/Graph/Tags.antt =====
-- How tags change in a search (alignak/graph.py), and how many nodes are left unchecked.
use alignak.Prelude.{
  ℕ, suc, ◌≤◌, ◌<◌, ◌≡◌, ◌≢◌, refl, Bool, true, false, List, [], ◌∷◌, if◌then◌else◌, arith,
}
use mathlib.Core.List.{Memᴰ}
use alignak.Graph.Nodes.{
  Tag, Tags, unchecked, temporary_checked, near_loop, loop_inside, checked_ok, put, is_unchecked,
  tag_child, tag_root,
}

-- Being searched, or near a loop or inside one.
abbrev pub is_open : Tag → Bool
is_open temporary_checked = true
is_open near_loop = true
is_open loop_inside = true
is_open _ = false

abbrev pub is_bad : Tag → Bool
is_bad near_loop = true
is_bad loop_inside = true
is_bad _ = false

-- What a search never undoes.
pub record Grows (t t' : Tags) : Type 0 where
  pub ok_stays : (v : ℕ) → t v ≡ checked_ok → t' v ≡ checked_ok
  pub inside_stays : (v : ℕ) → t v ≡ loop_inside → t' v ≡ loop_inside
  pub unchecked_was : (v : ℕ) → t' v ≡ unchecked → t v ≡ unchecked
  pub temporary_was : (v : ℕ) → t' v ≡ temporary_checked → t v ≡ temporary_checked
  pub open_stays : (v : ℕ) → is_open (t v) ≡ true → is_open (t' v) ≡ true

pub Grows-refl : (t : Tags) → Grows t t
Grows-refl t = record {
  ok_stays = λ v e. e;
  inside_stays = λ v e. e;
  unchecked_was = λ v e. e;
  temporary_was = λ v e. e;
  open_stays = λ v e. e;
}

pub Grows-trans : (a b c : Tags) → Grows a b → Grows b c → Grows a c
Grows-trans a b c g h = record {
  ok_stays = λ v e. h.ok_stays v (g.ok_stays v e);
  inside_stays = λ v e. h.inside_stays v (g.inside_stays v e);
  unchecked_was = λ v e. g.unchecked_was v (h.unchecked_was v e);
  temporary_was = λ v e. g.temporary_was v (h.temporary_was v e);
  open_stays = λ v e. h.open_stays v (g.open_stays v e);
}

tag_child-Grows_at :
    (root child : ℕ) (x : Tag) (t : Tags) (v : ℕ)
    → t child ≡ x
    → is_open (t root) ≡ true
    → let y = tag_child root child x t v in
      (t v ≡ checked_ok → y ≡ checked_ok)
      × (t v ≡ loop_inside → y ≡ loop_inside)
      × (y ≡ unchecked → t v ≡ unchecked)
      × (y ≡ temporary_checked → t v ≡ temporary_checked)
      × (is_open (t v) ≡ true → is_open y ≡ true)
tag_child-Grows_at root child unchecked t v e o = ground arith
tag_child-Grows_at root child temporary_checked t v e o = ground arith
tag_child-Grows_at root child near_loop t v e o = ground arith
tag_child-Grows_at root child loop_inside t v e o = ground arith
tag_child-Grows_at root child checked_ok t v e o = ground arith

pub tag_child-Grows :
    (root child : ℕ) (t : Tags)
    → is_open (t root) ≡ true
    → Grows t (tag_child root child (t child) t)
tag_child-Grows root child t o = record {
  ok_stays = λ v. (tag_child-Grows_at root child (t child) t v refl o).0;
  inside_stays = λ v. (tag_child-Grows_at root child (t child) t v refl o).1;
  unchecked_was = λ v. (tag_child-Grows_at root child (t child) t v refl o).2;
  temporary_was = λ v. (tag_child-Grows_at root child (t child) t v refl o).3;
  open_stays = λ v. (tag_child-Grows_at root child (t child) t v refl o).4;
}

pub put_other : (x : Tag) (u v : ℕ) (t : Tags) → v ≢ u → put x u t v ≡ t v
put_other x u v t n = ground arith

pub put_self : (x : Tag) (u : ℕ) (t : Tags) → put x u t u ≡ x
put_self x u t = ground arith

-- The end of a search, at each node.
tag_root-Grows_at :
    (root : ℕ) (t t' : Tags) (v : ℕ)
    → t root ≡ unchecked
    → Grows (put temporary_checked root t) t'
    → let y = tag_root root t' v in
      (t v ≡ checked_ok → y ≡ checked_ok)
      × (t v ≡ loop_inside → y ≡ loop_inside)
      × (y ≡ unchecked → t v ≡ unchecked)
      × (y ≡ temporary_checked → t v ≡ temporary_checked)
      × (is_open (t v) ≡ true → is_open y ≡ true)
tag_root-Grows_at root t t' v u g =
    let a = g.ok_stays v in
    let b = g.inside_stays v in
    let c = g.unchecked_was v in let d = g.temporary_was v in let e = g.open_stays v in ground arith

-- A search from a node that was not checked.
pub tag_root-Grows :
    (root : ℕ) (t t' : Tags)
    → t root ≡ unchecked
    → Grows (put temporary_checked root t) t'
    → Grows t (tag_root root t')
tag_root-Grows root t t' u g = record {
  ok_stays = λ v. (tag_root-Grows_at root t t' v u g).0;
  inside_stays = λ v. (tag_root-Grows_at root t t' v u g).1;
  unchecked_was = λ v. (tag_root-Grows_at root t t' v u g).2;
  temporary_was = λ v. (tag_root-Grows_at root t t' v u g).3;
  open_stays = λ v. (tag_root-Grows_at root t t' v u g).4;
}

-- The nodes that are left to check.
abbrev pub left_in : Tags → List ℕ → ℕ
left_in t [] = 0
left_in t (v ∷ vs) = let rest = left_in t vs in if is_unchecked (t v) then suc rest else rest

pub left_in_mono : (t t' : Tags) (vs : List ℕ) → Grows t t' → left_in t' vs ≤ left_in t vs
left_in_mono t t' [] g = omega arith
left_in_mono t t' (v ∷ vs) g =
    let rest = left_in_mono t t' vs g in let c = g.unchecked_was v in ground arith

left_in-put_le :
    (u : ℕ) (t : Tags) (vs : List ℕ) → left_in (put temporary_checked u t) vs ≤ left_in t vs
left_in-put_le u t [] = omega arith
left_in-put_le u t (v ∷ vs) = let rest = left_in-put_le u t vs in ground arith

pub left_in-put :
    (u : ℕ) (t : Tags) (vs : List ℕ)
    → t u ≡ unchecked
    → Memᴰ u vs
    → left_in (put temporary_checked u t) vs < left_in t vs
left_in-put u t [] e m = elim m [ ]
left_in-put u t (v ∷ vs) e (Memᴰ.head h) = let rest = left_in-put_le u t vs in ground arith
left_in-put u t (v ∷ vs) e (Memᴰ.tail m) = let rest = left_in-put u t vs e m in ground arith
