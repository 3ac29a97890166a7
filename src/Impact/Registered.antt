-- ===== src/Impact/Registered.antt =====
-- A problem that is registered along the dependencies (alignak/objects/schedulingitem.py):
-- `register_a_problem` comes to an end where the dependencies have no loop.
use alignak.Prelude.{
  ℕ, zero, suc, ◌+◌, ◌≤◌, ◌≡◌, refl, sym, subst, false, List, [], ◌∷◌, ◌==◌, arith, Bool-cases,
  ==_iff, inl, inr,
}
use mathlib.Core.List.{Memᴰ}
use alignak.Graph.Nodes.{Graph, sons}
use alignak.Graph.Search.{Walk, one, IsFine, fine, Walk-snoc}
use alignak.Graph.Acyclic.{IsFine-acyclic}
use alignak.Impact.Ties.{Link, Site}
use alignak.Impact.Problems.{register_links, register_a_problem}
use alignak.Impact.Registers.{Registers, register_links-Registers, known-Registers}

-- With enough fuel a problem is registered with an item.
abbrev pub Enough : Site → ℕ → List ℕ → ℕ → Type 0
Enough w prob was u =
    (n : ℕ) × ((m : ℕ) → n ≤ m → Registers prob was (register_a_problem m w prob u))

-- Fuel that is enough for each of some links.
fuel_for_all :
    (w : Site) (prob : ℕ) (was : List ℕ) (ls : List Link)
    → ((l : Link) → Memᴰ l ls → Enough w prob was l.impact_id)
    → (n : ℕ) × ((m : ℕ)
        → n ≤ m
        → (l : Link) → Memᴰ l ls
        → Registers prob was (register_a_problem m w prob l.impact_id))
fuel_for_all w prob was [] h = (0, λ m b l i. elim i [ ])
fuel_for_all w prob was (l ∷ ls) h =
    let (n, f) = h l (Memᴰ.head refl) in
    let (n', f') = fuel_for_all w prob was ls (λ k i. h k (Memᴰ.tail i)) in
    (
      n + n',
      λ m b k i. elim i [
        | Memᴰ.head e ↦
            subst (λ x. Registers prob was (register_a_problem m w prob x.impact_id)) (sym e)
              (f m (omega arith))
        | Memᴰ.tail j ↦ f' m (omega arith) k j
      ],
    )

no_return : (g : Graph) (u prob : ℕ) → ¬ Walk g prob prob → Walk g prob u → (u == prob) ≡ false
no_return g u prob no_loop r = elim (Bool-cases (u == prob)) [
  | inl s ↦ absurd (no_loop (subst (λ x. Walk g prob x) ((==_iff u prob).0 s) r))
  | inr n ↦ n
]

-- The links of an item are among the edges of its graph.
abbrev pub Follows : Graph → Site → Type 0
Follows g w = (u : ℕ) (l : Link) → Memᴰ l (w.act_depend_of_me u) → Memᴰ l.impact_id (sons g u)

register_a_problem-Enough :
    (g : Graph) (w : Site) (prob : ℕ) (was : List ℕ) (u : ℕ)
    → Follows g w
    → ¬ Walk g prob prob
    → Walk g prob u
    → IsFine g u
    → Enough w prob was u
unfolding register_a_problem
register_a_problem-Enough g w prob was u edges no_loop r (fine f) =
    let (n, h) = fuel_for_all w prob was (w.act_depend_of_me u) (λ l i.
      register_a_problem-Enough g w prob was l.impact_id edges no_loop (Walk-snoc r (edges u l i))
        (f l.impact_id (edges u l i))) in
    (suc n, λ m b. one_more m n b h)
  where
    one_more :
        (m n : ℕ)
        → suc n ≤ m
        → ((m : ℕ)
            → n ≤ m
            → (l : Link) → Memᴰ l (w.act_depend_of_me u)
            → Registers prob was (register_a_problem m w prob l.impact_id))
        → Registers prob was (register_a_problem m w prob u)
    one_more zero n b h us st k = absurd (omega arith)
    one_more (suc m) n b h us st k =
        known-Registers (register_a_problem m w prob) w u prob was us st
          (no_return g u prob no_loop r)
          (register_links-Registers (register_a_problem m w prob) w u prob was
            (w.act_depend_of_me u) (h m (omega arith)))
          k

-- With enough fuel, a problem without a loop is registered along all its links.
pub register_links-Enough :
    (g : Graph) (w : Site) (prob : ℕ) (was : List ℕ)
    → Follows g w
    → IsFine g prob
    → (n : ℕ) × ((m : ℕ)
        → n ≤ m
        → Registers prob was
            (register_links (register_a_problem m w prob) w prob (w.act_depend_of_me prob)))
register_links-Enough g w prob was edges (fine f) =
    let (n, h) = fuel_for_all w prob was (w.act_depend_of_me prob) (λ l i.
      register_a_problem-Enough g w prob was l.impact_id edges (IsFine-acyclic g prob (fine f))
        (one (edges prob l i)) (f l.impact_id (edges prob l i))) in
    (
      n,
      λ m b.
          register_links-Registers (register_a_problem m w prob) w prob prob was
            (w.act_depend_of_me prob) (h m b),
    )
