-- ===== src/BusinessRule/Order.antt =====
-- Worse states of sons make worse aggregations (alignak/dependencynode.py).
use alignak.Prelude.{
  ℕ, suc, ◌+◌, ◌≤◌, ◌≡◌, refl, ap, Bool, true, false, Option, none, some, List, [], ◌∷◌, arith,
  elem, length, leb,
}
use mathlib.Core.Option
use alignak.BusinessRule.Node.{
  Reached, Search, OfValues, count, percent, minimum, maximum, nb_of, nb_search, get_worst_state,
  get_state_for, choose_state, choose_xof_state, reverse_if, get_complex_or_node_state,
}

-- The states on the right are the worse ones, none worse than CRITICAL.
abbrev pub AllLe : List ℕ → List ℕ → Type 0
AllLe [] ys = ys ≡ []
AllLe (x ∷ xs) [] = 1 ≤ 0
AllLe (x ∷ xs) (y ∷ ys) = x ≤ y × y ≤ 2 × AllLe xs ys

length-AllLe : (xs ys : List ℕ) → AllLe xs ys → length xs ≡ length ys
length-AllLe [] [] h = refl
length-AllLe [] (y ∷ ys) h = ground arith
length-AllLe (x ∷ xs) [] h = ground arith
length-AllLe (x ∷ xs) (y ∷ ys) h = ap suc (length-AllLe xs ys h.2)

nb_of-AllLe :
    (xs ys : List ℕ)
    → AllLe xs ys
    → (nb_of 0 ys ≤ nb_of 0 xs)
      × (nb_of 2 xs ≤ nb_of 2 ys)
      × (nb_of 1 xs + nb_of 2 xs ≤ nb_of 1 ys + nb_of 2 ys)
nb_of-AllLe [] [] h = ground arith
nb_of-AllLe [] (y ∷ ys) h = ground arith
nb_of-AllLe (x ∷ xs) [] h = ground arith
nb_of-AllLe (x ∷ xs) (y ∷ ys) h = let rest = nb_of-AllLe xs ys h.2 in ground arith

minimum-AllLe : (x y : ℕ) (xs ys : List ℕ) → AllLe (x ∷ xs) (y ∷ ys) → minimum x xs ≤ minimum y ys
minimum-AllLe x y [] [] h = h.0
minimum-AllLe x y [] (z ∷ ys) h = ground arith
minimum-AllLe x y (w ∷ xs) [] h = ground arith
minimum-AllLe x y (w ∷ xs) (z ∷ ys) h = let rest = minimum-AllLe w z xs ys h.2 in omega (arith, h.0)

minimum_le_two : (y : ℕ) (ys : List ℕ) → y ≤ 2 → minimum y ys ≤ 2
minimum_le_two y [] b = b
minimum_le_two y (z ∷ ys) b = omega arith

-- The worst state of sons, none worse than CRITICAL, is simply their maximum.
worst-AllLe :
    (x y : ℕ) (xs ys : List ℕ)
    → AllLe (x ∷ xs) (y ∷ ys)
    → (maximum x xs ≤ maximum y ys)
      × (maximum y ys ≤ 2)
      × (elem 2 (x ∷ xs) ≡ true → maximum y ys ≡ 2)
worst-AllLe x y [] [] h = ground arith
worst-AllLe x y [] (z ∷ ys) h = ground arith
worst-AllLe x y (w ∷ xs) [] h = ground arith
worst-AllLe x y (w ∷ xs) (z ∷ ys) h = let rest = worst-AllLe w z xs ys h.2 in ground arith

-- Both are missing, or the value on the right is the worse one, and not worse than CRITICAL.
abbrev pub Le : Option ℕ → Option ℕ → Type 0
Le (some a) (some b) = a ≤ b × b ≤ 2
Le _ _ = Unit

pub get_worst_state-Le :
    (xs ys : List ℕ) → AllLe xs ys → Le (get_worst_state xs) (get_worst_state ys)
unfolding get_worst_state
get_worst_state-Le [] ys h = tt
get_worst_state-Le (x ∷ xs) [] h = tt
get_worst_state-Le (x ∷ xs) (y ∷ ys) h = let w = worst-AllLe x y xs ys h in ground arith

pub or_state-Le :
    (xs ys : List ℕ)
    → AllLe xs ys
    → Le (get_complex_or_node_state false xs) (get_complex_or_node_state false ys)
unfolding get_complex_or_node_state
or_state-Le [] ys h = tt
or_state-Le (x ∷ xs) [] h = tt
or_state-Le (x ∷ xs) (y ∷ ys) h = (minimum-AllLe x y xs ys h, minimum_le_two y ys h.1)

pub map-Le :
    (o p : Option ℕ)
    → Le o p
    → Le (Option.map (reverse_if false) o) (Option.map (reverse_if false) p)
map-Le (some a) (some b) h = h
map-Le none p h = tt
map-Le (some a) none h = tt

-- More sons never reach a percentage less.
abbrev pub IsMonotone : Reached → Type 0
IsMonotone r = (a b n k : ℕ) → a ≤ b → r a n k ≡ true → r b n k ≡ true

-- With a son there is an answer, and more sons that apply never make a number apply less.
get_state_for_mono :
    (r : Reached) (n a b : ℕ) (v : Search)
    → IsMonotone r
    → a ≤ b
    → (c : Bool) × (d : Bool) × (get_state_for r (suc n) a v ≡ some c)
      × (get_state_for r (suc n) b v ≡ some d)
      × (c ≡ true → d ≡ true)
unfolding get_state_for
get_state_for_mono r n a b (count z) m h =
    (leb (nb_search (suc n) z) a, leb (nb_search (suc n) z) b, refl, refl, ground arith)
get_state_for_mono r n a b (percent z) m h = (
  r a (suc n) (nb_search 100 z),
  r b (suc n) (nb_search 100 z),
  ground arith,
  ground arith,
  m a b (suc n) (nb_search 100 z) h,
)

-- The choice of a multiple rule once all numbers are known: fewer OK, more WARNING and CRITICAL
-- never make it better.
choose_state-Le :
    (xs ys : List ℕ) (a b c a' b' c' : Bool)
    → (a' ≡ true → a ≡ true)
    → (b ≡ true → b' ≡ true)
    → (c ≡ true → c' ≡ true)
    → Le
        (choose_state true xs (some a) (some b) (some c))
        (choose_state true ys (some a') (some b') (some c'))
unfolding choose_state
choose_state-Le xs ys a b c a' b' c' f g h = ground arith

choose_state-Le_refl :
    (o w c : Option Bool) → Le (choose_state true [] o w c) (choose_state true [] o w c)
unfolding choose_state
choose_state-Le_refl none w c = tt
choose_state-Le_refl (some a) none c = tt
choose_state-Le_refl (some a) (some b) none = tt
choose_state-Le_refl (some a) (some b) (some c) = ground arith

pub xof_state-Le :
    (r : Reached) (v : OfValues) (xs ys : List ℕ)
    → IsMonotone r
    → AllLe xs ys
    → Le (choose_xof_state r v true xs) (choose_xof_state r v true ys)
unfolding choose_xof_state
xof_state-Le r v [] [] m h = choose_state-Le_refl _ _ _
xof_state-Le r v [] (y ∷ ys) m h = ground arith
xof_state-Le r v (x ∷ xs) [] m h = ground arith
xof_state-Le r v (x ∷ xs) (y ∷ ys) m h =
    let n = nb_of-AllLe (x ∷ xs) (y ∷ ys) h in
    let (a', a, e', e, f) = get_state_for_mono r (length ys) _ _ v.of_ok m n.0 in
    let (b, b', g, g', i) = get_state_for_mono r (length ys) _ _ v.of_warn m n.2 in
    let (c, c', j, j', k) = get_state_for_mono r (length ys) _ _ v.of_crit m n.1 in
    rw (length-AllLe xs ys h.2, e, e', g, g', j, j')
      (choose_state-Le (x ∷ xs) (y ∷ ys) a b c a' b' c' f i k)
