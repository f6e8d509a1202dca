-- ===== src/Prelude/Lists.antt =====
-- Tables as lists of rows: selection, update and counting by a Boolean test.
use ai_token_mall.Prelude.Tests.{if◌then◌else◌, ◌==◌, Bool-cases}
use Prim.Native.Nat.{ℕ, zero, suc, ◌+◌}
use mathlib.Core.Path.{◌≡◌, refl, subst}
use mathlib.Core.Bool.{Bool, true, false}
use mathlib.Core.Logic.{inl, inr}
use mathlib.Core.List.{List, [], ◌∷◌, ◌++◌}
use mathlib.Core.Option
use mathlib.Core.Option.{Option, none, some}
use native.Mathlib.Omega.{arith}

module _ {ℓ} {A : Type ℓ} where
  abbrev pub length : List A → ℕ
  length [] = 0
  length (x ∷ xs) = suc (length xs)

  -- SELECT … WHERE p ORDER BY id LIMIT 1, on rows that are kept in the order of their ids.
  unfoldable pub find_first : (A → Bool) → List A → Option A
  find_first p [] = none
  find_first p (x ∷ xs) = if p x then some x else find_first p xs

  -- … ORDER BY id DESC LIMIT 1
  unfoldable pub find_last : (A → Bool) → List A → Option A
  find_last p [] = none
  find_last p (x ∷ xs) = elim (find_last p xs) [
    | some y ↦ some y
    | none ↦ if p x then some x else none
  ]

  unfoldable pub select : (A → Bool) → List A → List A
  select p [] = []
  select p (x ∷ xs) = let rest = select p xs in if p x then x ∷ rest else rest

  -- UPDATE … SET f WHERE p
  unfoldable pub update_where : (A → Bool) → (A → A) → List A → List A
  update_where p f [] = []
  update_where p f (x ∷ xs) = (if p x then f x else x) ∷ update_where p f xs

  -- SELECT COUNT(*) WHERE p
  unfoldable pub count_where : (A → Bool) → List A → ℕ
  count_where p [] = 0
  count_where p (x ∷ xs) = (if p x then 1 else 0) + count_where p xs

  unfoldable pub exists_where : (A → Bool) → List A → Bool
  exists_where p [] = false
  exists_where p (x ∷ xs) = if p x then true else exists_where p xs

  -- LIMIT n and OFFSET n
  unfoldable pub take : ℕ → List A → List A
  take zero xs = []
  take (suc n) [] = []
  take (suc n) (x ∷ xs) = x ∷ take n xs

  unfoldable pub drop : ℕ → List A → List A
  drop zero xs = xs
  drop (suc n) [] = []
  drop (suc n) (x ∷ xs) = drop n xs

  -- A predicate that holds of every row.
  abbrev pub All {κ} : (A → Type κ) → List A → Type κ
  All P [] = Unit
  All P (x ∷ xs) = P x × All P xs

module _ {ℓ} {A : Type ℓ} where
  pub count_where-append :
      (p : A → Bool) (xs ys : List A)
      → count_where p (xs ++ ys) ≡ count_where p xs + count_where p ys
  unfolding count_where
  count_where-append p [] ys = omega arith
  count_where-append p (x ∷ xs) ys = ground (arith, count_where-append p xs ys)

  pub find_first-append :
      (p : A → Bool) (xs ys : List A)
      → find_first p (xs ++ ys)
        ≡ elim (find_first p xs) [ some x ↦ some x | none ↦ find_first p ys ]
  unfolding find_first
  find_first-append p [] ys = refl
  find_first-append p (x ∷ xs) ys = ground (arith, find_first-append p xs ys)

  -- What is found passes the test.
  pub find_first_sound :
      (p : A → Bool) (xs : List A) (x : A) → find_first p xs ≡ some x → p x ≡ true
  unfolding find_first
  find_first_sound p [] x h = ground arith
  find_first_sound p (y ∷ xs) x h = ground (arith, find_first_sound p xs x)

  -- A test that implies one that no row passes is passed by no row.
  pub exists_where_none :
      (p q : A → Bool) (xs : List A)
      → ((x : A) → q x ≡ true → p x ≡ true)
      → exists_where p xs ≡ false
      → exists_where q xs ≡ false
  unfolding exists_where
  exists_where_none p q [] k h = refl
  exists_where_none p q (x ∷ xs) k h = elim (Bool-cases (q x)) [
    | inl bad ↦ let seen = k x bad in ground arith
    | inr fine ↦ ground (arith, exists_where_none p q xs k)
  ]

  -- What is found is still found after an update that does not matter to the test.
  pub find_first_rewritten :
      (p w : A → Bool) (f : A → A)
      → ((a : A) → p (f a) ≡ p a)
      → (xs : List A) (x : A) → find_first p xs ≡ some x
      → w x ≡ true
      → find_first p (update_where w f xs) ≡ some (f x)
  unfolding find_first update_where
  find_first_rewritten p w f keeps [] x h wx = ground arith
  find_first_rewritten p w f keeps (y ∷ xs) x h wx =
      let same = keeps y in let rest = find_first_rewritten p w f keeps xs x in ground arith

-- A row that is looked up by its key, after an update by key that keeps the keys.
module _ {ℓ} {A : Type ℓ} (key : A → ℕ) (f : A → A) (keeps : (a : A) → key (f a) ≡ key a) where
  pub find_first-update_where :
      (j k : ℕ) (xs : List A)
      → find_first (λ a. key a == k) (update_where (λ a. key a == j) f xs) ≡ (
          if j == k
          then Option.map f (find_first (λ a. key a == k) xs)
          else find_first (λ a. key a == k) xs)
  unfolding find_first update_where
  find_first-update_where j k [] = ground arith
  find_first-update_where j k (x ∷ xs) = ground (arith, keeps x, find_first-update_where j k xs)

module _ {ℓ κ} {A : Type ℓ} (P : A → Type κ) where
  All_head :
      (b : Bool) (y x : A) (o : Option A)
      → P y
      → (o ≡ some x → P x)
      → (if b then some y else o) ≡ some x
      → P x
  All_head true y x o h k e = subst P (Option.some-injective y x e) h
  All_head false y x o h k e = k e

  pub find_first-All :
      (p : A → Bool) (xs : List A) (x : A) → All P xs → find_first p xs ≡ some x → P x
  unfolding find_first
  find_first-All p [] x h e = absurd (Option.none-ne-some x e)
  find_first-All p (y ∷ xs) x h e =
      All_head (p y) y x (find_first p xs) h.0 (find_first-All p xs x h.1) e
