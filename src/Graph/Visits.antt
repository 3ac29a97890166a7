-- ===== src/Graph/Visits.antt =====
-- What a visit of `dfs_get_all_childs` gives (alignak/graph.py).
use alignak.Prelude.{
  ℕ, zero, suc, ◌≤◌, ◌<◌, ◌≡◌, ◌⊎◌, inl, inr, refl, ap, ◌∙◌, true, false, Option, some, List, [],
  ◌∷◌, ◌>>=◌, ◌==◌, if◌then◌else◌, elem, arith, Bool-cases, ==_iff,
}
use mathlib.Core.List.{Memᴰ}
use alignak.Graph.Nodes.{Graph, nodes, sons}
use alignak.Graph.Loops.{IsClosed}
use alignak.Graph.Packs.{Checked, mark, update_set, visit_child, visit_sons, dfs_get_all_childs}

-- A set grows, by what is added.
update_set-elem :
    (w : ℕ) (vs ret : List ℕ)
    → (elem w ret ≡ true → elem w (update_set vs ret) ≡ true)
      × (elem w vs ≡ true → elem w (update_set vs ret) ≡ true)
update_set-elem w [] ret = (λ e. e, λ e. ground arith)
update_set-elem w (v ∷ vs) ret =
    let (a, b) = update_set-elem w vs (if elem v ret then ret else v ∷ ret) in
    (λ e. a (stays e), λ e. first_or_rest e a b)
  where
    stays : elem w ret ≡ true → elem w (if elem v ret then ret else v ∷ ret) ≡ true
    stays e = ground arith

    added : w ≡ v → elem w (if elem v ret then ret else v ∷ ret) ≡ true
    added e = rw e (ground arith)

    first_or_rest :
        elem w (v ∷ vs) ≡ true
        → (elem w (if elem v ret then ret else v ∷ ret) ≡ true
            → elem w (update_set vs (if elem v ret then ret else v ∷ ret)) ≡ true)
        → (elem w vs ≡ true → elem w (update_set vs (if elem v ret then ret else v ∷ ret)) ≡ true)
        → elem w (update_set vs (if elem v ret then ret else v ∷ ret)) ≡ true
    first_or_rest e a b = elim (Bool-cases (w == v)) [
      | inl s ↦ a (added ((==_iff w v).0 s))
      | inr n ↦ b (ground arith)
    ]

abbrev pub left_in : Checked → List ℕ → ℕ
left_in t [] = 0
left_in t (v ∷ vs) = let rest = left_in t vs in if t v then rest else suc rest

abbrev pub Stays : Checked → Checked → Type 0
Stays t t' = (w : ℕ) → t w ≡ true → t' w ≡ true

pub left_in_mono : (t t' : Checked) (vs : List ℕ) → Stays t t' → left_in t' vs ≤ left_in t vs
left_in_mono t t' [] g = omega arith
left_in_mono t t' (v ∷ vs) g = let rest = left_in_mono t t' vs g in let c = g v in ground arith

mark-Stays : (u : ℕ) (t : Checked) → Stays t (mark u t)
mark-Stays u t w e = ground arith

left_in-mark :
    (u : ℕ) (t : Checked) (vs : List ℕ)
    → t u ≡ false
    → Memᴰ u vs
    → left_in (mark u t) vs < left_in t vs
left_in-mark u t [] e m = elim m [ ]
left_in-mark u t (v ∷ vs) e (Memᴰ.head h) =
    let rest = left_in_mono t (mark u t) vs (mark-Stays u t) in ground arith
left_in-mark u t (v ∷ vs) e (Memᴰ.tail m) = let rest = left_in-mark u t vs e m in ground arith

-- What a visit gives: the nodes that it checks are among those that it returns.
abbrev pub Gives : ℕ → Checked → List ℕ × Checked → Type 0
Gives c t r =
    Stays t r.1 × (r.1 c ≡ true) × ((w : ℕ) → r.1 w ≡ true → (t w ≡ true) ⊎ (elem w r.0 ≡ true))

abbrev pub Visits : ℕ → Graph → (ℕ → Checked → Option (List ℕ × Checked)) → Type 0
Visits n g visit =
    (c : ℕ) (t : Checked)
    → t c ≡ false
    → Memᴰ c (nodes g)
    → left_in t (nodes g) ≤ n
    → (r : List ℕ × Checked) × (visit c t ≡ some r) × Gives c t r

pub visit_child-Gives :
    (n : ℕ) (g : Graph) (visit : ℕ → Checked → Option (List ℕ × Checked)) (c : ℕ) (t : Checked)
    → Visits n g visit
    → Memᴰ c (nodes g)
    → left_in t (nodes g) ≤ n
    → (r : List ℕ × Checked) × (visit_child visit c t ≡ some r)
      × Gives c t r
      × (t c ≡ true → r.0 ≡ [])
visit_child-Gives n g visit c t v m l = elim (Bool-cases (t c)) [
  | inl e ↦ rw e (([], t), refl, (λ w f. f, e, λ w f. inl f), λ f. refl)
  | inr e ↦ let (r, f, gives) = v c t e m l in rw e (r, f, gives, λ x. absurd (cc))
]

abbrev pub Collects : List ℕ → Checked → List ℕ × Checked → Type 0
Collects ret t r =
    Stays t r.1
    × ((w : ℕ) → elem w ret ≡ true → elem w r.0 ≡ true)
    × ((w : ℕ) → r.1 w ≡ true → (t w ≡ true) ⊎ (elem w r.0 ≡ true))

visit_sons-Collects :
    (n : ℕ) (g : Graph) (visit : ℕ → Checked → Option (List ℕ × Checked)) (cs ret : List ℕ)
    (t : Checked)
    → Visits n g visit
    → ((c : ℕ) → Memᴰ c cs → Memᴰ c (nodes g))
    → left_in t (nodes g) ≤ n
    → (r : List ℕ × Checked) × (visit_sons visit cs ret t ≡ some r) × Collects ret t r
unfolding visit_sons
visit_sons-Collects n g visit [] ret t v m l = ((ret, t), refl, (λ w f. f, λ w f. f, λ w f. inl f))
visit_sons-Collects n g visit (c ∷ cs) ret t v m l =
    let (seen, e, (stays, _, given), _) =
      visit_child-Gives n g visit c t v (m c (Memᴰ.head refl)) l in
    let (r, f, (stays', kept, given')) =
      visit_sons-Collects n g visit cs (update_set seen.0 ret) seen.1 v (λ d i. m d (Memᴰ.tail i))
        (omega (arith, l, left_in_mono t seen.1 (nodes g) stays)) in
    (
      r,
      ap
            (λ (o : Option (List ℕ × Checked)).
              o >>= λ s. visit_sons visit cs (update_set s.0 ret) s.1)
            e
          ∙ f,
      (
        λ w x. stays' w (stays w x),
        λ w x. kept w ((update_set-elem w seen.0 ret).0 x),
        λ w x. elim (given' w x) [
          | inr y ↦ inr y
          | inl y ↦ elim (given w y) [
            | inl z ↦ inl z
            | inr z ↦ inr (kept w ((update_set-elem w seen.0 ret).1 z))
          ]
        ],
      ),
    )

-- With fuel for the nodes that are left, a visit ends.
pub dfs_get_all_childs-Visits :
    (n : ℕ) (g : Graph) → IsClosed g → Visits n g (dfs_get_all_childs n g)
unfolding dfs_get_all_childs
dfs_get_all_childs-Visits zero g k c t e m l =
    absurd (omega (arith, left_in-mark c t (nodes g) e m))
dfs_get_all_childs-Visits (suc n) g k c t e m l =
    let ret = update_set (sons g c) (c ∷ []) in
    let (r, f, (stays, kept, given)) =
      visit_sons-Collects n g (dfs_get_all_childs n g) (sons g c) ret (mark c t)
        (dfs_get_all_childs-Visits n g k) (λ d i. k c d i)
        (omega (arith, l, left_in-mark c t (nodes g) e m)) in
    (
      r,
      f,
      (
        λ w x. stays w (mark-Stays c t w x),
        stays c (ground arith),
        λ w x. elim (given w x) [
          | inr y ↦ inr y
          | inl y ↦ elim (Bool-cases (w == c)) [
            | inl s ↦ inr (kept w ((update_set-elem w (sons g c) (c ∷ [])).0 (ground arith)))
            | inr d ↦ inl (ground arith)
          ]
        ],
      ),
    )
