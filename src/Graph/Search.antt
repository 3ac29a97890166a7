-- ===== src/Graph/Search.antt =====
-- What `dfs_loop_search` of alignak/graph.py finds.
use alignak.Prelude.{
  ℕ, ◌≡◌, ◌≢◌, ◌⊎◌, refl, sym, subst, inl, inr, true, false, if◌then◌else◌, arith,
}
use mathlib.Core.List.{Memᴰ}
use alignak.Graph.Nodes.{
  Graph, nodes, sons, Tag, Tags, unchecked, temporary_checked, near_loop, loop_inside, checked_ok,
  put, is_unchecked, is_inside, tag_child,
}
use alignak.Graph.Tags.{is_open, is_bad, put_self}

-- The walks along at least one edge.
pub data Walk (g : Graph) : ℕ → ℕ → Type 0 where
  one : {u v : ℕ} → Memᴰ v (sons g u) → Walk g u v
  more : {u v w : ℕ} → Memᴰ v (sons g u) → Walk g v w → Walk g u w

abbrev pub HasLoop : Graph → Type 0
HasLoop g = (v : ℕ) × Walk g v v

-- Every walk from the node comes to an end.
pub data IsFine (g : Graph) : ℕ → Type 0 where
  fine : {v : ℕ} → ((w : ℕ) → Memᴰ w (sons g v) → IsFine g w) → IsFine g v

abbrev pub Leads : Graph → ℕ → ℕ → Type 0
Leads g u v = (u ≡ v) ⊎ Walk g u v

pub Walk-snoc : {g : Graph} {u v w : ℕ} → Walk g u v → Memᴰ w (sons g v) → Walk g u w
Walk-snoc (one m) e = more m (one e)
Walk-snoc (more m r) e = more m (Walk-snoc r e)

pub Leads-snoc : (g : Graph) (u v w : ℕ) → Leads g u v → Memᴰ w (sons g v) → Leads g u w
Leads-snoc g u v w (inl e) m = inr (one (subst (λ x. Memᴰ w (sons g x)) (sym e) m))
Leads-snoc g u v w (inr r) m = inr (Walk-snoc r m)

-- An edge back to a node that leads here closes a loop.
loop_of : (g : Graph) (r c : ℕ) → Memᴰ c (sons g r) → Leads g c r → HasLoop g
loop_of g r c m (inl e) = (r, one (subst (λ x. Memᴰ x (sons g r)) e m))
loop_of g r c m (inr w) = (r, more m w)

-- The tags tell the truth.
pub record IsTrue (g : Graph) (t : Tags) : Type 0 where
  pub ok_fine : (v : ℕ) → t v ≡ checked_ok → IsFine g v
  pub near_inside : (v : ℕ) → t v ≡ near_loop → (w : ℕ) × (t w ≡ loop_inside)
  pub bad_loop : (v : ℕ) → is_bad (t v) ≡ true → HasLoop g
  pub tagged_node : (v : ℕ) → is_unchecked (t v) ≡ false → Memᴰ v (nodes g)

-- The nodes that are being searched lead to this one.
abbrev pub LeadHere : Graph → ℕ → Tags → Type 0
LeadHere g r t = (v : ℕ) → t v ≡ temporary_checked → Leads g v r

-- A tag never comes to be fine by a child.
tag_child_ok :
    (r c : ℕ) (x : Tag) (t : Tags) (v : ℕ) → tag_child r c x t v ≡ checked_ok → t v ≡ checked_ok
tag_child_ok r c unchecked t v e = e
tag_child_ok r c temporary_checked t v e = ground arith
tag_child_ok r c near_loop t v e = ground arith
tag_child_ok r c loop_inside t v e = ground arith
tag_child_ok r c checked_ok t v e = e

tag_child_near :
    (g : Graph) (r c : ℕ) (x : Tag) (t : Tags) (v : ℕ)
    → t c ≡ x
    → IsTrue g t
    → tag_child r c x t v ≡ near_loop
    → (w : ℕ) × (tag_child r c x t w ≡ loop_inside)
tag_child_near g r c unchecked t v p h e = h.near_inside v e
tag_child_near g r c temporary_checked t v p h e = (c, ground arith)
tag_child_near g r c near_loop t v p h e =
    (c, put_self loop_inside c (if is_inside (t r) then t else put near_loop r t))
tag_child_near g r c loop_inside t v p h e =
    (c, put_self loop_inside c (if is_inside (t r) then t else put near_loop r t))
tag_child_near g r c checked_ok t v p h e = h.near_inside v e

tag_child_loop :
    (g : Graph) (r c : ℕ) (x : Tag) (t : Tags) (v : ℕ)
    → t c ≡ x
    → Memᴰ c (sons g r)
    → LeadHere g r t
    → IsTrue g t
    → is_bad (tag_child r c x t v) ≡ true
    → HasLoop g
tag_child_loop g r c unchecked t v p m l h e = h.bad_loop v e
tag_child_loop g r c temporary_checked t v p m l h e = loop_of g r c m (l c p)
tag_child_loop g r c near_loop t v p m l h e = h.bad_loop c (rw p refl)
tag_child_loop g r c loop_inside t v p m l h e = h.bad_loop c (rw p refl)
tag_child_loop g r c checked_ok t v p m l h e = h.bad_loop v e

tag_child_tagged :
    (r c : ℕ) (x : Tag) (t : Tags) (v : ℕ)
    → t c ≡ x
    → is_open (t r) ≡ true
    → is_unchecked (tag_child r c x t v) ≡ false
    → is_unchecked (t v) ≡ false
tag_child_tagged r c unchecked t v p o e = e
tag_child_tagged r c temporary_checked t v p o e = ground arith
tag_child_tagged r c near_loop t v p o e = ground arith
tag_child_tagged r c loop_inside t v p o e = ground arith
tag_child_tagged r c checked_ok t v p o e = e

pub tag_child-IsTrue :
    (g : Graph) (r c : ℕ) (t : Tags)
    → is_open (t r) ≡ true
    → Memᴰ c (sons g r)
    → LeadHere g r t
    → IsTrue g t
    → IsTrue g (tag_child r c (t c) t)
tag_child-IsTrue g r c t o m l h = record {
  ok_fine = λ v e. h.ok_fine v (tag_child_ok r c (t c) t v e);
  near_inside = λ v e. tag_child_near g r c (t c) t v refl h e;
  bad_loop = λ v e. tag_child_loop g r c (t c) t v refl m l h e;
  tagged_node = λ v e. h.tagged_node v (tag_child_tagged r c (t c) t v refl o e);
}

-- If its root is still being searched, the child is fine.
pub tag_child_fine :
    (g : Graph) (r c : ℕ) (x : Tag) (t : Tags)
    → t c ≡ x
    → t c ≢ unchecked
    → IsTrue g t
    → tag_child r c x t r ≡ temporary_checked
    → IsFine g c
tag_child_fine g r c unchecked t p n h e = absurd (n p)
tag_child_fine g r c temporary_checked t p n h e = ground arith
tag_child_fine g r c near_loop t p n h e = ground arith
tag_child_fine g r c loop_inside t p n h e = ground arith
tag_child_fine g r c checked_ok t p n h e = h.ok_fine c p
