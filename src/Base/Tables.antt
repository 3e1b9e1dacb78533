-- ===== src/Base/Tables.antt =====
-- A table is a list of rows; a statement selects, counts or rewrites the rows that pass a test.
use Prim.Native.Nat.{ℕ, zero, suc, ◌+◌, ◌≤◌, min}
use mathlib.Core.Path.{◌≡◌, refl, ap, ◌∙◌}
use mathlib.Core.Logic.{◌⊎◌, inl, inr}
use mathlib.Core.Bool.{Bool, true, false, ◌||◌, false≢true}
use mathlib.Core.Option.{Option, none, some}
use mathlib.Core.List.{List, [], ◌∷◌, ◌++◌, map}
use native.Mathlib.Omega.{arith}
use smart_eyes.Base.Tests.{if◌then◌else◌, Bool-cases}

module _ {ℓ} {A : Type ℓ} where
  abbrev pub length : List A → ℕ
  length [] = 0
  length (x ∷ xs) = suc (length xs)

  abbrev pub take : ℕ → List A → List A
  take zero xs = []
  take (suc n) [] = []
  take (suc n) (x ∷ xs) = x ∷ take n xs

  -- `SELECT … WHERE` with at most one answer
  abbrev pub find_where : (A → Bool) → List A → Option A
  find_where p [] = none
  find_where p (x ∷ xs) = if p x then some x else find_where p xs

  abbrev pub exists_where : (A → Bool) → List A → Bool
  exists_where p [] = false
  exists_where p (x ∷ xs) = p x || exists_where p xs

  abbrev pub select_where : (A → Bool) → List A → List A
  select_where p [] = []
  select_where p (x ∷ xs) = let rest = select_where p xs in if p x then x ∷ rest else rest

  -- `UPDATE … WHERE`
  abbrev pub update_where : (A → Bool) → (A → A) → List A → List A
  update_where p f [] = []
  update_where p f (x ∷ xs) = (if p x then f x else x) ∷ update_where p f xs

  -- the rows that a statement affects
  abbrev pub count_where : (A → Bool) → List A → ℕ
  count_where p [] = 0
  count_where p (x ∷ xs) = (if p x then 1 else 0) + count_where p xs

  -- every row satisfies P
  abbrev pub All {κ} : (A → Type κ) → List A → Type κ
  All P [] = Unit
  All P (x ∷ xs) = P x × All P xs

  pub length-append : (xs ys : List A) → length (xs ++ ys) ≡ length xs + length ys
  length-append [] ys = omega arith
  length-append (x ∷ xs) ys = omega (arith, length-append xs ys)

  pub length-take : (n : ℕ) (xs : List A) → length (take n xs) ≡ min n (length xs)
  length-take zero xs = omega arith
  length-take (suc n) [] = omega arith
  length-take (suc n) (x ∷ xs) = omega (arith, length-take n xs)

  pub length-select-le : (p : A → Bool) (xs : List A) → length (select_where p xs) ≤ length xs
  length-select-le p [] = omega arith
  length-select-le p (x ∷ xs) = ground (arith, length-select-le p xs)

  pub length-update :
      (p : A → Bool) (f : A → A) (xs : List A) → length (update_where p f xs) ≡ length xs
  length-update p f [] = refl
  length-update p f (x ∷ xs) = ap suc (length-update p f xs)

module _ {A : Type 0} where
  -- x is a row of the table
  abbrev pub IsRow : A → List A → Type 0
  IsRow x [] = ⊥
  IsRow x (y ∷ ys) = (x ≡ y) ⊎ IsRow x ys

  pub IsRow-select :
      (p : A → Bool) (x : A) (xs : List A) → IsRow x (select_where p xs) → IsRow x xs × (p x ≡ true)
  IsRow-select p x [] h = elim h [ ]
  IsRow-select p x (y ∷ ys) h = elim (Bool-cases (p y)) [
    | inl e ↦ elim (cons_case e h) [
      | inl q ↦ (inl q, ap p q ∙ e)
      | inr r ↦ (inr (IsRow-select p x ys r).0, (IsRow-select p x ys r).1)
    ]
    | inr e ↦ let r = IsRow-select p x ys (rw e at h) in (inr r.0, r.1)
  ]
    where
      cons_case :
          p y ≡ true → IsRow x (select_where p (y ∷ ys)) → (x ≡ y) ⊎ IsRow x (select_where p ys)
      cons_case e k = rw e at k

  pub IsRow-take : (n : ℕ) (x : A) (xs : List A) → IsRow x (take n xs) → IsRow x xs
  IsRow-take zero x xs h = elim h [ ]
  IsRow-take (suc n) x [] h = elim h [ ]
  IsRow-take (suc n) x (y ∷ ys) (inl q) = inl q
  IsRow-take (suc n) x (y ∷ ys) (inr r) = inr (IsRow-take n x ys r)

  pub exists_IsRow :
      (p : A → Bool) (xs : List A) → exists_where p xs ≡ true → (x : A) × IsRow x xs × (p x ≡ true)
  exists_IsRow p [] h = absurd (false≢true h)
  exists_IsRow p (y ∷ ys) h = elim (Bool-cases (p y)) [
    | inl e ↦ (y, inl refl, e)
    | inr e ↦ let (x, r, q) = exists_IsRow p ys (rw e at h) in (x, inr r, q)
  ]

  pub exists-append :
      (p : A → Bool) (xs ys : List A)
      → exists_where p (xs ++ ys) ≡ (exists_where p xs || exists_where p ys)
  exists-append p [] ys = refl
  exists-append p (x ∷ xs) ys = ground (arith, exists-append p xs ys)

  pub exists-update :
      (q p : A → Bool) (f : A → A) (xs : List A)
      → ((x : A) → q (f x) ≡ q x)
      → exists_where q (update_where p f xs) ≡ exists_where q xs
  exists-update q p f [] h = refl
  exists-update q p f (x ∷ xs) h = ground (arith, h x, exists-update q p f xs h)

  pub exists_of_row :
      (q : A → Bool) (x : A) (xs : List A) → IsRow x xs → q x ≡ true → exists_where q xs ≡ true
  exists_of_row q x [] h e = elim h [ ]
  exists_of_row q x (y ∷ ys) (inl h) e = ground arith
  exists_of_row q x (y ∷ ys) (inr h) e = ground (arith, exists_of_row q x ys h e)

  pub IsRow-map_update :
      (p : A → Bool) (f : A → A) (x : A) (xs : List A)
      → IsRow x xs
      → p x ≡ true
      → IsRow (f x) (update_where p f xs)
  IsRow-map_update p f x [] h e = elim h [ ]
  IsRow-map_update p f x (y ∷ ys) (inl h) e = inl (ground arith)
  IsRow-map_update p f x (y ∷ ys) (inr h) e = inr (IsRow-map_update p f x ys h e)

  pub length-select : (p : A → Bool) (xs : List A) → length (select_where p xs) ≡ count_where p xs
  length-select p [] = refl
  length-select p (x ∷ xs) = ground (arith, length-select p xs)

  pub count_none : (p : A → Bool) (xs : List A) → exists_where p xs ≡ false → count_where p xs ≡ 0
  count_none p [] h = refl
  count_none p (x ∷ xs) h = ground (arith, count_none p xs)

  pub IsRow-map :
      (f : A → A) (y : A) (xs : List A) → IsRow y (map f xs) → (x : A) × IsRow x xs × (y ≡ f x)
  IsRow-map f y [] h = elim h [ ]
  IsRow-map f y (x ∷ xs) (inl e) = (x, inl refl, e)
  IsRow-map f y (x ∷ xs) (inr h) = let (z, r, e) = IsRow-map f y xs h in (z, inr r, e)

  pub length-map : (f : A → A) (xs : List A) → length (map f xs) ≡ length xs
  length-map f [] = refl
  length-map f (x ∷ xs) = ap suc (length-map f xs)

  pub find-update :
      (p : A → Bool) (f : A → A) (x : A) (xs : List A)
      → ((y : A) → p (f y) ≡ p y)
      → find_where p xs ≡ some x
      → find_where p (update_where p f xs) ≡ some (f x)
  find-update p f x [] keep h = ground arith
  find-update p f x (y ∷ ys) keep h = ground (arith, keep y, find-update p f x ys keep)

  pub find-snoc :
      (p : A → Bool) (x : A) (xs : List A)
      → find_where p xs ≡ none
      → p x ≡ true
      → find_where p (xs ++ (x ∷ [])) ≡ some x
  find-snoc p x [] h e = ground arith
  find-snoc p x (y ∷ ys) h e = ground (arith, find-snoc p x ys)

  pub find_fits : (p : A → Bool) (x : A) (xs : List A) → find_where p xs ≡ some x → p x ≡ true
  find_fits p x [] h = ground arith
  find_fits p x (y ∷ ys) h = ground (arith, find_fits p x ys)

  pub find-IsRow : (p : A → Bool) (x : A) (xs : List A) → find_where p xs ≡ some x → IsRow x xs
  find-IsRow p x [] h = absurd (ground arith)
  find-IsRow p x (y ∷ ys) h = elim (Bool-cases (p y)) [
    | inl e ↦ inl (ground arith)
    | inr e ↦ inr (find-IsRow p x ys (ground arith))
  ]
