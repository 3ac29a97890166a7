-- ===== src/Graph/Turns.antt =====
-- The turns of `loop_check` (alignak/graph.py), and what they say of the graph.
use alignak.Prelude.{
  ℕ, ◌≡◌, ◌≢◌, sym, ap, subst, true, List, [], ◌∷◌, if◌then◌else◌, arith, Bool-cases, inl, inr,
}
use mathlib.Core.List.{Memᴰ}
use mathlib.Core.List.Memᴰ
use alignak.Graph.Nodes.{
  Graph, Tag, Tags, unchecked, temporary_checked, near_loop, loop_inside, checked_ok, is_unchecked,
  is_inside,
}
use alignak.Graph.Tags.{is_bad, Grows}
use alignak.Graph.Search.{HasLoop, IsFine, IsTrue}
use alignak.Graph.Loops.{IsResting, IsClean, AreLeft, Turns, fine_of_clean}

-- A node that is newly inside a loop was not checked before.
newly_inside :
    (g : Graph) (t t' : Tags) (w : ℕ)
    → Grows t t'
    → IsTrue g t
    → IsResting t
    → IsClean t
    → t' w ≡ loop_inside
    → t w ≡ unchecked
newly_inside g t t' w grown h r c e =
    let k = grown.ok_stays w in
    was_unchecked (t w) k (r w) (λ f. c (h.near_inside w f).0 (h.near_inside w f).1) (c w)
  where
    was_unchecked :
        (x : Tag)
        → (x ≡ checked_ok → t' w ≡ checked_ok)
        → x ≢ temporary_checked
        → x ≢ near_loop
        → x ≢ loop_inside
        → x ≡ unchecked
    was_unchecked x a b c d = ground arith

module _ (g : Graph) (v : ℕ) (vs : List ℕ) (t t' : Tags) (rest : List ℕ) (grown : Grows t t')
    (old : IsTrue g t) (new : IsTrue g t') (rests : IsResting t) (searched : t' v ≢ unchecked)
    (later : Turns g vs t' rest) where
  abbrev pub with_node : List ℕ
  with_node = if is_inside (t' v) then v ∷ rest else rest

  turn-found : (w : ℕ) → Memᴰ w with_node → HasLoop g
  turn-found w m = elim (Bool-cases (is_inside (t' v))) [
    | inl e ↦ elim (Memᴰ.cases_cons (rw e at m)) [
      | inl s ↦ new.bad_loop v (inside_bad (t' v) e)
      | inr n ↦ later.found w n
    ]
    | inr e ↦ later.found w (rw e at m)
  ]
    where
      inside_bad : (x : Tag) → is_inside x ≡ true → is_bad x ≡ true
      inside_bad x e = ground arith

  turn-kept : (w : ℕ) → Memᴰ w (v ∷ vs) → t w ≡ loop_inside → with_node ≢ []
  turn-kept w (Memᴰ.head s) e =
      (let i = subst (λ x. t' x ≡ loop_inside) s (grown.inside_stays w e) in ground arith)
  turn-kept w (Memᴰ.tail m) e = (let k = later.kept w m (grown.inside_stays w e) in ground arith)

  parts : with_node ≡ [] → (t' v ≢ loop_inside) × (rest ≡ [])
  parts e = (λ i. (let j = i in ground arith), ground arith)

  turn-IsClean : with_node ≡ [] → IsClean t → AreLeft g (v ∷ vs) t → IsClean t'
  turn-IsClean e c l w i =
      elim (Memᴰ.cases_cons
        (l w (newly_inside g t t' w grown old rests c i) (new.tagged_node w (ap is_unchecked i)))) [
          | inl s ↦ (parts e).0 (subst (λ x. t' x ≡ loop_inside) s i)
          | inr m ↦ later.kept w m i (parts e).1
        ]

  turn-AreLeft : AreLeft g (v ∷ vs) t → AreLeft g vs t'
  turn-AreLeft l w u n = elim (Memᴰ.cases_cons (l w (grown.unchecked_was w u) n)) [
    | inl s ↦ absurd (searched (subst (λ x. t' x ≡ unchecked) s u))
    | inr m ↦ m
  ]

  pub turn-Turns : IsResting t' → Turns g (v ∷ vs) t with_node
  turn-Turns r = record {
    found = turn-found;
    kept = turn-kept;
    all_fine = λ e c l w m. elim (Memᴰ.cases_cons m) [
      | inl s ↦ subst (IsFine g) (sym s) (fine_of_clean g t' v new r (turn-IsClean e c l) searched)
      | inr n ↦ later.all_fine (parts e).1 (turn-IsClean e c l) (turn-AreLeft l) w n
    ];
  }
