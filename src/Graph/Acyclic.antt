-- ===== src/Graph/Acyclic.antt =====
-- `loop_check` of alignak/graph.py finds a loop exactly if there is one.
use alignak.Prelude.{
  ℕ, ◌≤◌, ◌≡◌, ◌↔◌, refl, sym, ap, subst, ◌∙◌, Option, some, List, [], ◌∷◌, ◌>>=◌, if◌then◌else◌,
  arith, inl, inr, length, some_inj,
}
use mathlib.Core.List.{Memᴰ}
use alignak.Graph.Nodes.{
  Graph, nodes, sons, Tags, unchecked, temporary_checked, is_inside, dfs_loop_search, check_nodes,
  loop_check,
}
use alignak.Graph.Tags.{left_in, left_in_mono}
use alignak.Graph.Search.{Walk, one, more, HasLoop, IsFine, fine, IsTrue, Leads, Walk-snoc}
use alignak.Graph.Loops.{
  IsClosed, search_child-Searched, dfs_loop_search-Searches, IsResting, Turns,
}
use alignak.Graph.Turns.{turn-Turns}

check_nodes-Turns :
    (n : ℕ) (g : Graph) (vs : List ℕ) (t : Tags)
    → IsClosed g
    → ((v : ℕ) → Memᴰ v vs → Memᴰ v (nodes g))
    → left_in t (nodes g) ≤ n
    → IsTrue g t
    → IsResting t
    → (res : List ℕ) × (check_nodes n g vs t ≡ some res) × Turns g vs t res
unfolding check_nodes
check_nodes-Turns n g [] t k m b h r = (
  [],
  refl,
  record {
    found = λ v i. elim i [ ];
    kept = λ v i. elim i [ ];
    all_fine = λ e c l v i. elim i [ ];
  },
)
check_nodes-Turns n g (v ∷ vs) t k m b h r =
    let (t', e, grown, h', s) =
      search_child-Searched n g (dfs_loop_search n g) v t (dfs_loop_search-Searches n g k)
        (λ u. record {
          is_unchecked_node = u;
          is_node_of = m v (Memᴰ.head refl);
          enough = b;
          true_tags = h;
          led_here = λ w x. absurd (r w x);
        })
        h in
    let r' = λ (w : ℕ) (x : t' w ≡ temporary_checked). r w (grown.temporary_was w x) in
    let (rest, f, later) =
      check_nodes-Turns n g vs t' k (λ w i. m w (Memᴰ.tail i))
        (omega (arith, b, left_in_mono t t' (nodes g) grown)) h' r' in
    (
      if is_inside (t' v) then v ∷ rest else rest,
      ap
            (λ (p : Option Tags).
              p >>= λ q. check_nodes n g vs q >>= λ l. some (if is_inside (q v) then v ∷ l else l))
            e
          ∙ ap (λ (p : Option (List ℕ)). p >>= λ l. some (if is_inside (t' v) then v ∷ l else l)) f,
      turn-Turns g v vs t t' rest grown h h' r s later r',
    )

-- The first step of a walk.
first_step : (g : Graph) (u w : ℕ) → Walk g u w → (v : ℕ) × Memᴰ v (sons g u) × Leads g v w
first_step g u w (one {v = v} m) = (w, m, inl refl)
first_step g u w (more {v = v} m r) = (v, m, inr r)

-- Walking on from the end of a walk.
onwards : (g : Graph) (u v w : ℕ) → Leads g u v → Memᴰ w (sons g v) → Walk g u w
onwards g u v w (inl e) m = one (subst (λ x. Memᴰ w (sons g x)) (sym e) m)
onwards g u v w (inr r) m = Walk-snoc r m

-- No walk from a fine node comes back to it.
pub IsFine-acyclic : (g : Graph) (v : ℕ) → IsFine g v → ¬ Walk g v v
IsFine-acyclic g v (fine f) w =
    let (u, m, l) = first_step g v v w in IsFine-acyclic g u (f u m) (onwards g u v u l m)

-- The node before the end of a walk.
last_step : (g : Graph) (u w : ℕ) → Walk g u w → (v : ℕ) × Memᴰ w (sons g v)
last_step g u w (one m) = (u, m)
last_step g u w (more {v = v} m r) = last_step g v w r

all_unchecked : (vs : List ℕ) → left_in (λ u. unchecked) vs ≤ length vs
all_unchecked [] = omega arith
all_unchecked (v ∷ vs) = omega (arith, all_unchecked vs)

loop_check-Turns :
    (g : Graph)
    → IsClosed g
    → (res : List ℕ) × (loop_check g ≡ some res) × Turns g (nodes g) (λ u. unchecked) res
unfolding loop_check
loop_check-Turns g k =
    check_nodes-Turns (length (nodes g)) g (nodes g) (λ u. unchecked) k (λ v m. m)
      (all_unchecked (nodes g))
      (record {
        ok_fine = λ v x. cc;
        near_inside = λ v x. absurd (cc);
        bad_loop = λ v x. absurd (cc);
        tagged_node = λ v x. absurd (cc);
      })
      (λ v x. cc)

-- Where `loop_check` returns no node, every walk comes to an end.
pub loop_check-IsFine : (g : Graph) → IsClosed g → loop_check g ≡ some [] → (v : ℕ) → IsFine g v
loop_check-IsFine g k e v =
    let (res, f, turns) = loop_check-Turns g k in
    let fine_node = turns.all_fine (some_inj res [] (sym f ∙ e)) (λ v x. cc) (λ v x m. m) in
    fine (λ w m. fine_node w (k v w m))

-- `loop_check` returns, on a graph whose sons are nodes, and it returns no node exactly if no walk
-- along the edges comes back to its start.
pub loop_check-HasLoop :
    (g : Graph)
    → IsClosed g
    → (res : List ℕ) × (loop_check g ≡ some res) × ((res ≡ []) ↔ (¬ HasLoop g))
loop_check-HasLoop g k =
    let (res, e, turns) = loop_check-Turns g k in
    (
      res,
      e,
      (
        λ none_found loop.
            IsFine-acyclic g loop.0
              (turns.all_fine none_found (λ v x. cc) (λ v x m. m) loop.0
                (k (last_step g loop.0 loop.0 loop.1).0 loop.0
                  (last_step g loop.0 loop.0 loop.1).1))
              loop.1,
        λ no_loop. none_of res (λ v m. no_loop (turns.found v m)),
      ),
    )
  where
    none_of : (res : List ℕ) → ((v : ℕ) → ¬ Memᴰ v res) → res ≡ []
    none_of [] n = refl
    none_of (v ∷ vs) n = absurd (n v (Memᴰ.head refl))
