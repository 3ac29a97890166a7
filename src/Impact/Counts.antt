-- ===== src/Impact/Counts.antt =====
-- How often an item stands in a list of ties (alignak/objects/schedulingitem.py).
use alignak.Prelude.{
  ℕ, suc, ◌+◌, ◌≤◌, ◌≡◌, ◌≢◌, refl, Bool, true, false, some, List, [], ◌∷◌, ◌++◌, ◌==◌,
  if◌then◌else◌, elem, arith,
}
use alignak.Impact.Ties.{remove_first}
use alignak.Impact.Problems.{set_of}

abbrev pub count : ℕ → List ℕ → ℕ
count x [] = 0
count x (y ∷ ys) = let rest = count x ys in if y == x then suc rest else rest

pub count-append : (x : ℕ) (ys zs : List ℕ) → count x (ys ++ zs) ≡ count x ys + count x zs
count-append x [] zs = omega arith
count-append x (y ∷ ys) zs = ground (arith, count-append x ys zs)

pub elem-count : (x : ℕ) (ys : List ℕ) → elem x ys ≡ true → 1 ≤ count x ys
elem-count x [] e = ground arith
elem-count x (y ∷ ys) e = ground (arith, elem-count x ys)

pub elem_not-count : (x : ℕ) (ys : List ℕ) → elem x ys ≡ false → count x ys ≡ 0
elem_not-count x [] e = refl
elem_not-count x (y ∷ ys) e = ground (arith, elem_not-count x ys)

-- What `remove_first` leaves of a list that has the item.
abbrev pub Removes : ℕ → List ℕ → List ℕ → Type 0
Removes x ys zs = (count x ys ≡ suc (count x zs)) × ((v : ℕ) → v ≢ x → count v zs ≡ count v ys)

remove_step :
    (b : Bool) (x y : ℕ) (ys : List ℕ)
    → (y == x) ≡ b
    → (b ≡ false → 1 ≤ count x ys → (zs : List ℕ) × (remove_first x ys ≡ some zs) × Removes x ys zs)
    → 1 ≤ count x (y ∷ ys)
    → (zs : List ℕ) × (remove_first x (y ∷ ys) ≡ some zs) × Removes x (y ∷ ys) zs
unfolding remove_first
remove_step true x y ys q f h = (ys, rw (q, remove_first) refl, (ground arith, λ v n. ground arith))
remove_step false x y ys q f h =
    let (zs, e, (c, d)) = f refl (ground arith) in
    (y ∷ zs, rw (q, e) refl, (ground arith, λ v n. ground (arith, d v n)))

pub remove_first-count :
    (x : ℕ) (ys : List ℕ)
    → 1 ≤ count x ys
    → (zs : List ℕ) × (remove_first x ys ≡ some zs) × Removes x ys zs
remove_first-count x [] h = elim h [ ]
remove_first-count x (y ∷ ys) h =
    remove_step (y == x) x y ys refl (λ _ k. remove_first-count x ys k) h

pub set_of-count : (x : ℕ) (ys : List ℕ) → count x ys ≤ 1 → count x (set_of ys) ≡ count x ys
unfolding set_of
set_of-count x [] h = refl
set_of-count x (y ∷ ys) h = ground (arith, set_of-count x ys, elem-count x ys, elem-count y ys)
