-- ===== src/Base/Sort.antt =====
-- sort.SliceStable, as the stable insertion sort that it agrees with, for a strict order `less`
-- whose negation is transitive; and what the first match in a sorted list is.
use mathlib.Core.Path.{◌≡◌, refl, sym, subst}
use mathlib.Core.Logic.{inl, inr}
use mathlib.Core.Bool.{Bool, true, false}
use mathlib.Core.Option.{some}
use mathlib.Core.List.{List, [], ◌∷◌}
use native.Mathlib.Omega.{arith}
use aegisops_ai.Base.Tests.{if◌then◌else◌, Bool-cases}
use aegisops_ai.Base.Lists.{All, In, All-In, All-of_In, find_first}

module _ {ℓ} {A : Type ℓ} (less : A → A → Bool) where
  unfoldable pub insert_stable : A → List A → List A
  insert_stable x [] = x ∷ []
  insert_stable x (y ∷ ys) = if less y x then y ∷ insert_stable x ys else x ∷ y ∷ ys

  unfoldable pub sort_stable : List A → List A
  unfolding insert_stable
  sort_stable [] = []
  sort_stable (x ∷ xs) = insert_stable x (sort_stable xs)

  -- No element comes after one that it is less than.
  abbrev pub IsSorted : List A → Type 0
  IsSorted [] = Unit
  IsSorted (x ∷ xs) = All (λ y. less y x ≡ false) xs × IsSorted xs

module _ {ℓ κ} {A : Type ℓ} (less : A → A → Bool) (P : A → Type κ) where
  All-insert_stable : (x : A) (ys : List A) → P x → All P ys → All P (insert_stable less x ys)
  unfolding insert_stable
  All-insert_stable x [] h hs = (h, tt)
  All-insert_stable x (y ∷ ys) h hs = elim (Bool-cases (less y x)) [
    | inl lower ↦ rw lower (hs.0, All-insert_stable x ys h hs.1)
    | inr done ↦ rw done (h, hs)
  ]

  pub All-sort_stable : (xs : List A) → All P xs → All P (sort_stable less xs)
  unfolding sort_stable
  All-sort_stable [] hs = tt
  All-sort_stable (x ∷ xs) hs =
      All-insert_stable x (sort_stable less xs) hs.0 (All-sort_stable xs hs.1)

-- `ordered`: `less` is the strict part of a total preorder, so a stable sort by it is well defined.
module _ {ℓ} {A : Type ℓ} (less : A → A → Bool)
    (asymm : (x y : A) → less x y ≡ true → less y x ≡ false)
    (neg_trans : (x y z : A) → less z y ≡ false → less y x ≡ false → less z x ≡ false) where
  All-weaken :
      (x y : A) (zs : List A)
      → less y x ≡ false
      → All (λ z. less z y ≡ false) zs
      → All (λ z. less z x ≡ false) zs
  All-weaken x y [] h hs = tt
  All-weaken x y (z ∷ zs) h hs = (neg_trans x y z hs.0 h, All-weaken x y zs h hs.1)

  insert_stable-IsSorted :
      (x : A) (ys : List A) → IsSorted less ys → IsSorted less (insert_stable less x ys)
  unfolding insert_stable
  insert_stable-IsSorted x [] h = (tt, tt)
  insert_stable-IsSorted x (y ∷ ys) h = elim (Bool-cases (less y x)) [
    | inl lower ↦ rw lower (
      All-insert_stable less (λ z. less z y ≡ false) x ys (asymm y x lower) h.0,
      insert_stable-IsSorted x ys h.1,
    )
    | inr done ↦ rw done ((done, All-weaken x y ys done h.0), h)
  ]

  pub sort_stable-IsSorted : (xs : List A) → IsSorted less (sort_stable less xs)
  unfolding sort_stable
  sort_stable-IsSorted [] = tt
  sort_stable-IsSorted (x ∷ xs) =
      insert_stable-IsSorted x (sort_stable less xs) (sort_stable-IsSorted xs)

-- Sorting keeps exactly the elements, and the first match in the sorted list is not less than any
-- other match.
module _ {A : Type 0} (less : A → A → Bool) (P : A → Type 0) where
  All-of_insert_stable : (x : A) (ys : List A) → All P (insert_stable less x ys) → P x × All P ys
  unfolding insert_stable
  All-of_insert_stable x [] h = h
  All-of_insert_stable x (y ∷ ys) h = elim (Bool-cases (less y x)) [
    | inl lower ↦
        let g =
          subst (λ b. All P (if b then y ∷ insert_stable less x ys else x ∷ y ∷ ys)) lower h in
        let r = All-of_insert_stable x ys g.1 in (r.0, (g.0, r.1))
    | inr done ↦ subst (λ b. All P (if b then y ∷ insert_stable less x ys else x ∷ y ∷ ys)) done h
  ]

  pub All-of_sort_stable : (xs : List A) → All P (sort_stable less xs) → All P xs
  unfolding sort_stable
  All-of_sort_stable [] h = tt
  All-of_sort_stable (x ∷ xs) h =
      let r = All-of_insert_stable x (sort_stable less xs) h in (r.0, All-of_sort_stable xs r.1)

module _ {A : Type 0} (less : A → A → Bool) where
  pub In-of_sort_stable : (xs : List A) (a : A) → In a (sort_stable less xs) → In a xs
  In-of_sort_stable xs a m =
      All-In (λ b. In b xs) a (sort_stable less xs)
        (All-sort_stable less (λ a. In a xs) xs (All-of_In (λ a. In a xs) xs (λ a m'. m'))) m

  pub In-sort_stable : (xs : List A) (a : A) → In a xs → In a (sort_stable less xs)
  In-sort_stable xs a m =
      All-In (λ b. In b (sort_stable less xs)) a xs
        (All-of_sort_stable less (λ a. In a (sort_stable less xs)) xs
          (All-of_In (λ a. In a (sort_stable less xs)) (sort_stable less xs) (λ a m'. m')))
        m

  pub find_first-first :
      (irrefl : (x : A) → less x x ≡ false) (p : A → Bool) (xs : List A) {a : A}
      → IsSorted less xs
      → find_first p xs ≡ some a
      → (b : A) → In b xs
      → p b ≡ true
      → less b a ≡ false
  unfolding find_first
  find_first-first irrefl p [] s h b m q = absurd m
  find_first-first irrefl p (x ∷ xs) {a} s h b m q = elim (Bool-cases (p x)) [
    | inl hit ↦ let e : x ≡ a = ground arith in subst (λ y. less b y ≡ false) e (head m)
    | inr miss ↦
        tail (λ f t. find_first-first irrefl p xs {a = a} s.1 f b t q) m miss (rw miss at h)
  ]
    where
      head : In b (x ∷ xs) → less b x ≡ false
      head (inl e) = subst (λ y. less y x ≡ false) e (irrefl x)
      head (inr t) = All-In (λ y. less y x ≡ false) b xs s.0 t

      tail :
          (find_first p xs ≡ some a → In b xs → less b a ≡ false)
          → In b (x ∷ xs)
          → p x ≡ false
          → find_first p xs ≡ some a
          → less b a ≡ false
      tail rec (inl e) miss f = cc (subst (λ y. p y ≡ true) (sym e) q, miss)
      tail rec (inr t) miss f = rec f t

  pub sort_stable-IsSorted_self : (xs : List A) → IsSorted less xs → sort_stable less xs ≡ xs
  unfolding sort_stable
  sort_stable-IsSorted_self [] h = refl
  sort_stable-IsSorted_self (x ∷ xs) h = rw (sort_stable-IsSorted_self xs h.1) (in_front x xs h.0)
    where
      in_front :
          (x : A) (ys : List A) → All (λ y. less y x ≡ false) ys → insert_stable less x ys ≡ x ∷ ys
      in_front x [] h = refl
      in_front x (y ∷ ys) h = rw (h.0, insert_stable)
