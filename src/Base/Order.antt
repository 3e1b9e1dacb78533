-- ===== src/Base/Order.antt =====
-- `ORDER BY`: a stable sort by a test that says whether a row may stand before another.
use mathlib.Core.Path.{◌≡◌, subst, sym}
use mathlib.Core.Logic.{◌↔◌, inl, inr}
use mathlib.Core.Bool.{Bool, true, false}
use mathlib.Core.List.{List, [], ◌∷◌, Perm}
use mathlib.Core.List.Perm as Permutes
use native.Mathlib.Omega.{arith}
use Prim.Native.Nat.{ℕ, Ordering}
use Prim.Native.String.{String, compare}
use smart_eyes.Base.Tests.{if◌then◌else◌, Bool-cases, leb}
use smart_eyes.Base.Tables.{All, IsRow}

module _ {A : Type 0} where
  insert_sorted : (A → A → Bool) → A → List A → List A
  insert_sorted before x [] = x ∷ []
  insert_sorted before x (y ∷ ys) =
      let rest = insert_sorted before x ys in if before x y then x ∷ y ∷ ys else y ∷ rest

  -- rows that may stand in either order stay in the order of the table
  unfoldable pub order_by : (A → A → Bool) → List A → List A
  unfolding insert_sorted
  order_by before [] = []
  order_by before (x ∷ xs) = insert_sorted before x (order_by before xs)

  -- a test that orders any two rows, and any three consistently
  pub record IsPreorder (before : A → A → Bool) : Type 0 where
    pub total : (x y : A) → before x y ≡ false → before y x ≡ true
    pub chain : (x y z : A) → before x y ≡ true → before y z ≡ true → before x z ≡ true

  -- each row may stand before all that follow it
  abbrev pub IsOrdered : (A → A → Bool) → List A → Type 0
  IsOrdered before [] = Unit
  IsOrdered before (x ∷ xs) = All (λ y. before x y ≡ true) xs × IsOrdered before xs

  insert_sorted-Perm :
      (before : A → A → Bool) (x : A) (xs : List A) → Perm (insert_sorted before x xs) (x ∷ xs)
  unfolding insert_sorted
  insert_sorted-Perm before x [] = Permutes.rfl
  insert_sorted-Perm before x (y ∷ ys) = elim (Bool-cases (before x y)) [
    | inl e ↦ rw e Permutes.rfl
    | inr e ↦
        rw e
          (Permutes.trans (Permutes.cons y (insert_sorted-Perm before x ys)) (Permutes.swap x y ys))
  ]

  pub order_by-Perm : (before : A → A → Bool) (xs : List A) → Perm (order_by before xs) xs
  unfolding order_by
  order_by-Perm before [] = Permutes.rfl
  order_by-Perm before (x ∷ xs) =
      Permutes.trans (insert_sorted-Perm before x (order_by before xs))
        (Permutes.cons x (order_by-Perm before xs))

  module _ (before : A → A → Bool) (law : IsPreorder before) where
    All-chain :
        (x y : A) (zs : List A)
        → before x y ≡ true
        → All (λ z. before y z ≡ true) zs
        → All (λ z. before x z ≡ true) zs
    All-chain x y [] h a = tt
    All-chain x y (z ∷ zs) h a = (law.chain x y z h a.0, All-chain x y zs h a.1)

    All-insert :
        (x y : A) (ys : List A)
        → before y x ≡ true
        → All (λ z. before y z ≡ true) ys
        → All (λ z. before y z ≡ true) (insert_sorted before x ys)
    unfolding insert_sorted
    All-insert x y [] h a = (h, tt)
    All-insert x y (z ∷ zs) h a = elim (Bool-cases (before x z)) [
      | inl e ↦ rw e (h, a)
      | inr e ↦ rw e (a.0, All-insert x y zs h a.1)
    ]

    insert-IsOrdered :
        (x : A) (ys : List A) → IsOrdered before ys → IsOrdered before (insert_sorted before x ys)
    unfolding insert_sorted
    insert-IsOrdered x [] h = (tt, tt)
    insert-IsOrdered x (y ∷ ys) h = elim (Bool-cases (before x y)) [
      | inl e ↦ rw e ((e, All-chain x y ys e h.0), h)
      | inr e ↦ rw e (All-insert x y ys (law.total x y e) h.0, insert-IsOrdered x ys h.1)
    ]

    pub order_by-IsOrdered : (xs : List A) → IsOrdered before (order_by before xs)
    unfolding order_by
    order_by-IsOrdered [] = tt
    order_by-IsOrdered (x ∷ xs) = insert-IsOrdered x (order_by before xs) (order_by-IsOrdered xs)

  IsRow-insert :
      (before : A → A → Bool) (x y : A) (ys : List A)
      → IsRow y (insert_sorted before x ys) ↔ IsRow y (x ∷ ys)
  unfolding insert_sorted
  IsRow-insert before x y [] = (λ h. h, λ h. h)
  IsRow-insert before x y (z ∷ zs) = elim (Bool-cases (before x z)) [
    | inl e ↦ rw e (λ h. h, λ h. h)
    | inr e ↦ rw e (swapped (IsRow-insert before x y zs))
  ]
    where
      swapped :
          (IsRow y (insert_sorted before x zs) ↔ IsRow y (x ∷ zs))
          → IsRow y (z ∷ insert_sorted before x zs) ↔ IsRow y (x ∷ z ∷ zs)
      swapped (f, g) = (
        λ h. elim h [
          | inl q ↦ inr (inl q)
          | inr r ↦ elim (f r) [ inl q ↦ inl q | inr k ↦ inr (inr k) ]
        ],
        λ h. elim h [
          | inl q ↦ inr (g (inl q))
          | inr r ↦ elim r [ inl q ↦ inl q | inr k ↦ inr (g (inr k)) ]
        ],
      )

  -- the order has the rows of the table
  pub IsRow-order :
      (before : A → A → Bool) (y : A) (xs : List A) → IsRow y (order_by before xs) ↔ IsRow y xs
  unfolding order_by
  IsRow-order before y [] = (λ h. h, λ h. h)
  IsRow-order before y (x ∷ xs) =
      let (f, g) = IsRow-insert before x y (order_by before xs) in
      let (i, j) = IsRow-order before y xs in
      (
        λ h. elim (f h) [ inl q ↦ inl q | inr r ↦ inr (i r) ],
        λ h. g (elim h [ inl q ↦ inl q | inr r ↦ inr (j r) ]),
      )

  module _ (before : A → A → Bool) (law : IsPreorder before) where
    IsPreorder-refl : (x : A) → before x x ≡ true
    IsPreorder-refl x = elim (Bool-cases (before x x)) [ inl e ↦ e | inr e ↦ law.total x x e ]

    All-row :
        (x u : A) (ys : List A) → All (λ z. before x z ≡ true) ys → IsRow u ys → before x u ≡ true
    All-row x u [] a h = elim h [ ]
    All-row x u (y ∷ ys) a (inl q) = subst (λ z. before x z ≡ true) (sym q) a.0
    All-row x u (y ∷ ys) a (inr r) = All-row x u ys a.1 r

    pub IsOrdered-first :
        (x u : A) (ys : List A) → IsOrdered before (x ∷ ys) → IsRow u (x ∷ ys) → before x u ≡ true
    IsOrdered-first x u ys h (inl q) = subst (λ z. before x z ≡ true) (sym q) (IsPreorder-refl x)
    IsOrdered-first x u ys h (inr r) = All-row x u ys h.0 r

  -- `ORDER BY key DESC`
  abbrev pub descending : (A → ℕ) → A → A → Bool
  descending key x y = leb (key y) (key x)

  pub descending-IsPreorder : (key : A → ℕ) → IsPreorder (descending key)
  descending-IsPreorder key = record {
    total = λ x y h. ground (arith, h);
    chain = λ x y z h k. ground (arith, h, k);
  }

-- `ORDER BY` a text, `sort.Strings`
abbrev pub not_after : {A : Type 0} → (A → String) → A → A → Bool
not_after key x y = elim (compare (key x) (key y)) [ Ordering.gt ↦ false | _ ↦ true ]
