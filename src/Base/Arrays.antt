-- ===== src/Base/Arrays.antt =====
-- C arrays as lists with native indices, under the library's names.
use Prim.Native.Nat.{ℕ, zero, suc, ◌+◌, ◌<◌, ◌≤◌}
use mathlib.Core.Path.{◌≡◌, refl, ap, ap₂, ◌∙◌}
use mathlib.Core.Logic.{◌⊎◌, inl, inr}
use mathlib.Core.Option.{Option, none, some}
use mathlib.Core.List.{List, [], ◌∷◌, ◌++◌, map}
use native.Mathlib.Omega.{arith}
use xdma_dpdk.Base.Tests.{◌==◌, if◌then◌else◌, ==_iff, Bool-cases}

module _ {ℓ} {A : Type ℓ} where
  abbrev pub length : List A → ℕ
  length [] = 0
  length (x ∷ xs) = suc (length xs)

  -- `d` stands for a read out of bounds.
  abbrev pub get_or : List A → ℕ → A → A
  get_or [] i d = d
  get_or (x ∷ xs) zero d = x
  get_or (x ∷ xs) (suc i) d = get_or xs i d

  abbrev pub get_elem? : List A → ℕ → Option A
  get_elem? [] i = none
  get_elem? (x ∷ xs) zero = some x
  get_elem? (x ∷ xs) (suc i) = get_elem? xs i

  -- Element `i` changed by `f`; out of bounds nothing changes.
  abbrev pub modify : List A → ℕ → (A → A) → List A
  modify [] i f = []
  modify (x ∷ xs) zero f = f x ∷ xs
  modify (x ∷ xs) (suc i) f = x ∷ modify xs i f

  pub length-modify : (xs : List A) (i : ℕ) (f : A → A) → length (modify xs i f) ≡ length xs
  length-modify [] i f = refl
  length-modify (x ∷ xs) zero f = refl
  length-modify (x ∷ xs) (suc i) f = ap suc (length-modify xs i f)

  -- What stands at `j` after a change at `i`.
  pub get_or-modify :
      (xs : List A) (i j : ℕ) (f : A → A) (d : A)
      → i < length xs
      → get_or (modify xs i f) j d ≡ (if i == j then f (get_or xs j d) else get_or xs j d)
  get_or-modify [] i j f d h = absurd (omega arith)
  get_or-modify (x ∷ xs) zero zero f d h = refl
  get_or-modify (x ∷ xs) zero (suc j) f d h = ground arith
  get_or-modify (x ∷ xs) (suc i) zero f d h = ground arith
  get_or-modify (x ∷ xs) (suc i) (suc j) f d h = ground (arith, get_or-modify xs i j f d)

  -- Lists of one length that agree at each index are equal.
  pub get_or_ext :
      (d : A) (xs ys : List A)
      → length xs ≡ length ys
      → ((i : ℕ) → i < length xs → get_or xs i d ≡ get_or ys i d)
      → xs ≡ ys
  get_or_ext d [] [] e h = refl
  get_or_ext d [] (y ∷ ys) e h = absurd (omega arith)
  get_or_ext d (x ∷ xs) [] e h = absurd (omega arith)
  get_or_ext d (x ∷ xs) (y ∷ ys) e h =
      ap₂ ◌∷◌ (h 0 (omega arith))
        (get_or_ext d xs ys (omega arith) (λ i p. h (suc i) (omega arith)))

-- `for (i = lo; i < lo + n; i++) xs[i] = f(i, xs[i]);`
module _ {ℓ} {A : Type ℓ} where
  unfoldable pub modify_range : ℕ → ℕ → (ℕ → A → A) → List A → List A
  modify_range zero i f xs = xs
  modify_range (suc n) i f xs = modify_range n (i + 1) f (modify xs i (f i))

  pub length-modify_range :
      (n i : ℕ) (f : ℕ → A → A) (xs : List A) → length (modify_range n i f xs) ≡ length xs
  unfolding modify_range
  length-modify_range zero i f xs = refl
  length-modify_range (suc n) i f xs =
      length-modify_range n (i + 1) f (modify xs i (f i)) ∙ length-modify xs i (f i)

  pub get_or-modify_range_out :
      (n i j : ℕ) (f : ℕ → A → A) (xs : List A) (d : A)
      → i + n ≤ length xs
      → (j < i) ⊎ (i + n ≤ j)
      → get_or (modify_range n i f xs) j d ≡ get_or xs j d
  unfolding modify_range
  get_or-modify_range_out zero i j f xs d h out = refl
  get_or-modify_range_out (suc n) i j f xs d h out = ground (
    arith,
    get_or-modify_range_out n (i + 1) j f (modify xs i (f i)) d,
    length-modify xs i (f i),
    get_or-modify xs i j (f i) d,
  )

  -- The loop changes exactly the indices of its range, each once.
  pub get_or-modify_range_in :
      (n i j : ℕ) (f : ℕ → A → A) (xs : List A) (d : A)
      → i + n ≤ length xs
      → i ≤ j
      → j < i + n
      → get_or (modify_range n i f xs) j d ≡ f j (get_or xs j d)
  unfolding modify_range
  get_or-modify_range_in zero i j f xs d h lo hi = absurd (omega arith)
  get_or-modify_range_in (suc n) i j f xs d h lo hi = elim (Bool-cases (i == j)) [
    | inl e ↦
        get_or-modify_range_out n (i + 1) j f (modify xs i (f i)) d
          (omega (arith, length-modify xs i (f i))) (inl (ground arith))
        ∙ (get_or-modify xs i j (f i) d (omega arith)
            ∙ rw e (ap (λ k. f k (get_or xs j d)) ((==_iff i j).0 e)))
    | inr ne ↦
        get_or-modify_range_in n (i + 1) j f (modify xs i (f i)) d
          (omega (arith, length-modify xs i (f i))) (ground arith) (omega arith)
        ∙ ap (f j) (get_or-modify xs i j (f i) d (omega arith) ∙ rw ne)
  ]

module _ {ℓ} {A : Type ℓ} where
  abbrev pub take : ℕ → List A → List A
  take zero xs = []
  take (suc n) [] = []
  take (suc n) (x ∷ xs) = x ∷ take n xs

  pub length-take_of_le : (n : ℕ) (xs : List A) → n ≤ length xs → length (take n xs) ≡ n
  length-take_of_le zero xs h = refl
  length-take_of_le (suc n) [] h = absurd (omega arith)
  length-take_of_le (suc n) (x ∷ xs) h = ap suc (length-take_of_le n xs (omega arith))

  pub get_or-take :
      (n : ℕ) (xs : List A) (i : ℕ) (d : A) → i < n → get_or (take n xs) i d ≡ get_or xs i d
  get_or-take zero xs i d h = absurd (omega arith)
  get_or-take (suc n) [] i d h = refl
  get_or-take (suc n) (x ∷ xs) zero d h = refl
  get_or-take (suc n) (x ∷ xs) (suc i) d h = get_or-take n xs i d (omega arith)

  -- Two changes at one index are one.
  pub modify-modify :
      (xs : List A) (i : ℕ) (f g : A → A) → modify (modify xs i f) i g ≡ modify xs i (λ x. g (f x))
  modify-modify [] i f g = refl
  modify-modify (x ∷ xs) zero f g = refl
  modify-modify (x ∷ xs) (suc i) f g = ap (λ t. x ∷ t) (modify-modify xs i f g)

  -- What stands at `j` after a change at `i`, if anything does.
  pub get_elem?-modify :
      (xs : List A) (i j : ℕ) (f : A → A) {x : A}
      → get_elem? xs i ≡ some x
      → get_elem? (modify xs i f) j ≡ (if i == j then some (f x) else get_elem? xs j)
  get_elem?-modify [] i j f h = cc h
  get_elem?-modify (y ∷ xs) zero zero f h = ground (arith, h)
  get_elem?-modify (y ∷ xs) zero (suc j) f h = ground arith
  get_elem?-modify (y ∷ xs) (suc i) zero f h = ground arith
  get_elem?-modify (y ∷ xs) (suc i) (suc j) f h = ground (arith, get_elem?-modify xs i j f h)

module _ {ℓ ℓ'} {A : Type ℓ} {B : Type ℓ'} where
  pub length-map : (f : A → B) (xs : List A) → length (map f xs) ≡ length xs
  length-map f [] = refl
  length-map f (x ∷ xs) = ap suc (length-map f xs)

  pub get_or-map :
      (f : A → B) (xs : List A) (i : ℕ) (d : A) → get_or (map f xs) i (f d) ≡ f (get_or xs i d)
  get_or-map f [] i d = refl
  get_or-map f (x ∷ xs) zero d = refl
  get_or-map f (x ∷ xs) (suc i) d = get_or-map f xs i d

module _ {ℓ} {A : Type ℓ} where
  pub take-suc :
      (n : ℕ) (xs : List A) (d : A)
      → n < length xs
      → take (suc n) xs ≡ take n xs ++ (get_or xs n d ∷ [])
  take-suc n [] d h = absurd (omega arith)
  take-suc zero (x ∷ xs) d h = refl
  take-suc (suc n) (x ∷ xs) d h = ap (λ t. x ∷ t) (take-suc n xs d (omega arith))
