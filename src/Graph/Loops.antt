-- ===== src/Graph/Loops.antt =====
-- `loop_check` of alignak/graph.py finds a loop exactly if there is one.
use alignak.Prelude.{
  ℕ, zero, suc, ◌≤◌, ◌≡◌, ◌≢◌, ◌⊎◌, refl, sym, ap, subst, ◌∙◌, inl, inr, true, false, Option, some,
  List, [], ◌∷◌, ◌>>=◌, ◌==◌, arith, Bool-cases,
}
use mathlib.Core.List.{Memᴰ}
use alignak.Graph.Nodes.{
  Graph, nodes, sons, Tag, Tags, unchecked, temporary_checked, near_loop, loop_inside, checked_ok,
  put, is_unchecked, tag_child, tag_root, search_child, search_sons, dfs_loop_search,
}
use alignak.Graph.Tags.{
  is_open, is_bad, Grows, Grows-refl, Grows-trans, tag_child-Grows, tag_root-Grows, put_self,
  left_in, left_in_mono, left_in-put,
}
use alignak.Graph.Search.{
  HasLoop, IsFine, fine, Leads-snoc, IsTrue, LeadHere, tag_child-IsTrue, tag_child_fine,
}

-- Every son is a node, as `add_edge` sees to.
abbrev pub IsClosed : Graph → Type 0
IsClosed g = (u v : ℕ) → Memᴰ v (sons g u) → Memᴰ v (nodes g)

-- What a search from a node gives.
abbrev pub Searched : Graph → ℕ → Tags → Option Tags → Type 0
Searched g c t o = (t' : Tags) × (o ≡ some t') × Grows t t' × IsTrue g t' × (t' c ≢ unchecked)

-- What a search is started with.
pub record IsReady (n : ℕ) (g : Graph) (c : ℕ) (t : Tags) : Type 0 where
  pub is_unchecked_node : t c ≡ unchecked
  pub is_node_of : Memᴰ c (nodes g)
  pub enough : left_in t (nodes g) ≤ n
  pub true_tags : IsTrue g t
  pub led_here : LeadHere g c t

abbrev pub Searches : ℕ → Graph → (ℕ → Tags → Option Tags) → Type 0
Searches n g search = (c : ℕ) (t : Tags) → IsReady n g c t → Searched g c t (search c t)

unchecked_of : (x : Tag) → is_unchecked x ≡ true → x ≡ unchecked
unchecked_of x e = ground arith

checked_of : (x : Tag) → is_unchecked x ≡ false → x ≢ unchecked
checked_of x e f = ground arith

pub search_child-Searched :
    (n : ℕ) (g : Graph) (search : ℕ → Tags → Option Tags) (c : ℕ) (t : Tags)
    → Searches n g search
    → (t c ≡ unchecked → IsReady n g c t)
    → IsTrue g t
    → Searched g c t (search_child search c t)
search_child-Searched n g search c t s r h = elim (Bool-cases (is_unchecked (t c))) [
  | inl e ↦ rw e (s c t (r (unchecked_of (t c) e)))
  | inr e ↦ rw e (t, refl, Grows-refl t, h, checked_of (t c) e)
]

-- A loop over some sons of the root.
abbrev SonsSearched : Graph → ℕ → List ℕ → Tags → Option Tags → Type 0
SonsSearched g r cs t o =
    (t' : Tags) × (o ≡ some t')
    × Grows t t'
    × IsTrue g t'
    × (t' r ≡ temporary_checked → (c : ℕ) → Memᴰ c cs → IsFine g c)

search_sons-SonsSearched :
    (n : ℕ) (g : Graph) (search : ℕ → Tags → Option Tags) (r : ℕ) (cs : List ℕ) (t : Tags)
    → Searches n g search
    → IsClosed g
    → ((c : ℕ) → Memᴰ c cs → Memᴰ c (sons g r))
    → is_open (t r) ≡ true
    → left_in t (nodes g) ≤ n
    → IsTrue g t
    → LeadHere g r t
    → SonsSearched g r cs t (search_sons search r cs t)
unfolding search_sons
search_sons-SonsSearched n g search r [] t s k m o b h l =
    (t, refl, Grows-refl t, h, λ e c i. elim i [ ])
search_sons-SonsSearched n g search r (c ∷ cs) t s k m o b h l =
    let i = m c (Memᴰ.head refl) in
    let (u, e, grown, h', v) =
      search_child-Searched n g search c t s
        (λ x. record {
          is_unchecked_node = x;
          is_node_of = k r c i;
          enough = b;
          true_tags = h;
          led_here = λ w y. Leads-snoc g w r c (l w y) i;
        })
        h in
    let o' = grown.open_stays r o in
    let u' = tag_child r c (u c) u in
    let grown' = tag_child-Grows r c u o' in
    let l' = λ (w : ℕ) (y : u w ≡ temporary_checked). l w (grown.temporary_was w y) in
    let (t', e', grows, h'', rest) =
      search_sons-SonsSearched n g search r cs u' s k (λ d j. m d (Memᴰ.tail j))
        (grown'.open_stays r o')
        (omega (arith, b, left_in_mono t u (nodes g) grown, left_in_mono u u' (nodes g) grown'))
        (tag_child-IsTrue g r c u o' i l' h') (λ w y. l' w (grown'.temporary_was w y)) in
    (
      t',
      ap (λ (p : Option Tags). p >>= λ q. search_sons search r cs (tag_child r c (q c) q)) e ∙ e',
      Grows-trans t u t' grown (Grows-trans u u' t' grown' grows),
      h'',
      λ x d j.
          first_or_rest d (tag_child_fine g r c (u c) u refl v h' (grows.temporary_was r x))
            (rest x d) j,
    )
  where
    first_or_rest : (d : ℕ) → IsFine g c → (Memᴰ d cs → IsFine g d) → Memᴰ d (c ∷ cs) → IsFine g d
    first_or_rest d f rest (Memᴰ.head x) = subst (IsFine g) (sym x) f
    first_or_rest d f rest (Memᴰ.tail j) = rest j

-- The tags when the search of a node starts.
put-IsTrue :
    (g : Graph) (r : ℕ) (t : Tags)
    → t r ≡ unchecked
    → Memᴰ r (nodes g)
    → IsTrue g t
    → IsTrue g (put temporary_checked r t)
put-IsTrue g r t u m h = record {
  ok_fine = λ v e. h.ok_fine v (was v checked_ok e (λ x. cc));
  near_inside =
      λ v e. let (w, f) = h.near_inside v (was v near_loop e (λ x. cc)) in (w, inside_stays w f);
  bad_loop = λ v e. h.bad_loop v (bad_was v e);
  tagged_node = λ v e. elim (Bool-cases (v == r)) [
    | inl s ↦ subst (λ x. Memᴰ x (nodes g)) (same_node v s) m
    | inr n ↦ h.tagged_node v (rest_was v n e)
  ];
}
  where
    same_node : (v : ℕ) → (v == r) ≡ true → r ≡ v
    same_node v s = ground arith

    rest_was :
        (v : ℕ)
        → (v == r) ≡ false
        → is_unchecked (put temporary_checked r t v) ≡ false
        → is_unchecked (t v) ≡ false
    rest_was v n e = ground arith

    was : (v : ℕ) (x : Tag) → put temporary_checked r t v ≡ x → x ≢ temporary_checked → t v ≡ x
    was v x e n = ground arith

    inside_stays : (w : ℕ) → t w ≡ loop_inside → put temporary_checked r t w ≡ loop_inside
    inside_stays w f = ground arith

    bad_was : (v : ℕ) → is_bad (put temporary_checked r t v) ≡ true → is_bad (t v) ≡ true
    bad_was v e = ground arith

put-LeadHere :
    (g : Graph) (r : ℕ) (t : Tags) → LeadHere g r t → LeadHere g r (put temporary_checked r t)
put-LeadHere g r t l v e = elim (Bool-cases (v == r)) [
  | inl s ↦ inl (ground arith)
  | inr n ↦ l v (ground arith)
]

-- And when it ends.
tag_root-IsTrue :
    (g : Graph) (r : ℕ) (t : Tags)
    → (t r ≡ temporary_checked → IsFine g r)
    → IsTrue g t
    → IsTrue g (tag_root r t)
tag_root-IsTrue g r t f h = record {
  ok_fine = λ v e. now_fine v e;
  near_inside = λ v e. let (w, i) = h.near_inside v (near_was v e) in (w, inside_stays w i);
  bad_loop = λ v e. h.bad_loop v (bad_was v e);
  tagged_node = λ v e. h.tagged_node v (tagged_was v e);
}
  where
    tagged_was : (v : ℕ) → is_unchecked (tag_root r t v) ≡ false → is_unchecked (t v) ≡ false
    tagged_was v e = ground arith

    ok_was :
        (v : ℕ)
        → tag_root r t v ≡ checked_ok
        → (t v ≡ checked_ok) ⊎ ((v ≡ r) × (t r ≡ temporary_checked))
    ok_was v e = ground arith

    now_fine : (v : ℕ) → tag_root r t v ≡ checked_ok → IsFine g v
    now_fine v e = elim (ok_was v e) [
      | inl o ↦ h.ok_fine v o
      | inr (s, o) ↦ subst (IsFine g) (sym s) (f o)
    ]

    near_was : (v : ℕ) → tag_root r t v ≡ near_loop → t v ≡ near_loop
    near_was v e = ground arith

    inside_stays : (w : ℕ) → t w ≡ loop_inside → tag_root r t w ≡ loop_inside
    inside_stays w i = ground arith

    bad_was : (v : ℕ) → is_bad (tag_root r t v) ≡ true → is_bad (t v) ≡ true
    bad_was v e = ground arith

-- With fuel for the nodes that are left, a search ends, and its tags tell the truth.
pub dfs_loop_search-Searches : (n : ℕ) (g : Graph) → IsClosed g → Searches n g (dfs_loop_search n g)
unfolding dfs_loop_search
dfs_loop_search-Searches zero g k c t r =
    absurd (omega (arith, r.enough, left_in-put c t (nodes g) r.is_unchecked_node r.is_node_of))
dfs_loop_search-Searches (suc n) g k c t r =
    let u = r.is_unchecked_node in
    let start = put temporary_checked c t in
    let b = left_in-put c t (nodes g) u r.is_node_of in
    let (t', e, grown, h, f) =
      search_sons-SonsSearched n g (dfs_loop_search n g) c (sons g c) start
        (dfs_loop_search-Searches n g k) k (λ d m. m) (ap is_open (put_self temporary_checked c t))
        (omega (arith, b, r.enough)) (put-IsTrue g c t u r.is_node_of r.true_tags)
        (put-LeadHere g c t r.led_here) in
    (
      tag_root c t',
      ap (λ (p : Option Tags). p >>= λ q. some (tag_root c q)) e,
      tag_root-Grows c t t' u grown,
      tag_root-IsTrue g c t' (λ x. fine (f x)) h,
      searched t' (grown.open_stays c (ap is_open (put_self temporary_checked c t))),
    )
  where
    searched : (t' : Tags) → is_open (t' c) ≡ true → tag_root c t' c ≢ unchecked
    searched t' o e = ground arith

-- No node is being searched, between the turns of `loop_check`.
abbrev pub IsResting : Tags → Type 0
IsResting t = (v : ℕ) → t v ≢ temporary_checked

-- No node is known to be inside a loop.
abbrev pub IsClean : Tags → Type 0
IsClean t = (v : ℕ) → t v ≢ loop_inside

-- The nodes that are not searched have their turn to come.
abbrev pub AreLeft : Graph → List ℕ → Tags → Type 0
AreLeft g vs t = (v : ℕ) → t v ≡ unchecked → Memᴰ v (nodes g) → Memᴰ v vs

-- What the turns that are left give.
pub record Turns (g : Graph) (vs : List ℕ) (t : Tags) (res : List ℕ) : Type 0 where
  pub found : (v : ℕ) → Memᴰ v res → HasLoop g
  pub kept : (v : ℕ) → Memᴰ v vs → t v ≡ loop_inside → res ≢ []
  pub all_fine : res ≡ [] → IsClean t → AreLeft g vs t → (v : ℕ) → Memᴰ v vs → IsFine g v

-- A node that is searched, in no loop as far as the tags tell, is fine.
pub fine_of_clean :
    (g : Graph) (t : Tags) (v : ℕ)
    → IsTrue g t
    → IsResting t
    → IsClean t
    → t v ≢ unchecked
    → IsFine g v
fine_of_clean g t v h r c n =
    h.ok_fine v
      (must_be_ok (t v) n (r v) (λ e. c (h.near_inside v e).0 (h.near_inside v e).1) (c v))
  where
    must_be_ok :
        (x : Tag)
        → x ≢ unchecked
        → x ≢ temporary_checked
        → x ≢ near_loop
        → x ≢ loop_inside
        → x ≡ checked_ok
    must_be_ok x a b c d = ground arith
