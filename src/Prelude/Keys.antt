-- ===== src/Prelude/Keys.antt =====
-- Tables whose rows have a primary key: a key names one row at most.
use ai_token_mall.Prelude.Tests.{◌==◌, Bool-cases, ==_refl}
use ai_token_mall.Prelude.Lists.{find_first, update_where, count_where, All}
use Prim.Native.Nat.{ℕ, ◌≤◌}
use mathlib.Core.Path.{◌≡◌, refl}
use mathlib.Core.Bool.{Bool, true, false}
use mathlib.Core.Logic.{inl, inr}
use mathlib.Core.List.{List, [], ◌∷◌}
use mathlib.Core.Option.{some}
use native.Mathlib.Omega.{arith}

pub weaken_All :
    {A : Type 0} {P Q : A → Type 0} (xs : List A) → All P xs → ((x : A) → P x → Q x) → All Q xs
weaken_All [] h k = tt
weaken_All (x ∷ xs) h k = (k x h.0, weaken_All xs h.1 k)

module _ {A : Type 0} (key : A → ℕ) where
  abbrev pub Unique : List A → Type 0
  Unique xs = (k : ℕ) → count_where (λ a. key a == k) xs ≤ 1

  -- A key in the list is counted.
  counted :
      (p : A → Bool) (xs : List A) (a : A)
      → find_first p xs ≡ some a
      → 1 ≤ count_where (λ b. key b == key a) xs
  unfolding find_first count_where
  counted p [] a h = ground arith
  counted p (x ∷ xs) a h = ground (arith, counted p xs a)

  Unique-tail : (x : A) (xs : List A) → Unique (x ∷ xs) → Unique xs
  unfolding count_where
  Unique-tail x xs u k = let h = u k in ground arith

  -- What is found behind `x` has another key.
  not_head :
      (p : A → Bool) (x : A) (xs : List A) (a : A)
      → Unique (x ∷ xs)
      → find_first p xs ≡ some a
      → (key x == key a) ≡ false
  unfolding count_where
  not_head p x xs a u h = let c = counted p xs a h in let w = u (key a) in ground arith

  -- The row that one test finds, another test of the same key finds too.
  pub find_first_same :
      (p q : A → Bool) (xs : List A) (a : A)
      → Unique xs
      → find_first p xs ≡ some a
      → q a ≡ true
      → ((b : A) → q b ≡ true → key b ≡ key a)
      → find_first q xs ≡ some a
  unfolding find_first
  find_first_same p q [] a u h qa key_of = ground arith
  find_first_same p q (x ∷ xs) a u h qa key_of = elim (Bool-cases (p x)) [
    | inl first ↦ ground arith
    | inr other ↦
        let rest : find_first p xs ≡ some a = ground arith in
        let away = not_head p x xs a u rest in
        let again = find_first_same p q xs a (Unique-tail x xs u) rest qa key_of in
        elim (Bool-cases (q x)) [
          | inl bad ↦ let same = key_of x bad in ground arith
          | inr skip ↦ ground arith
        ]
  ]

  -- The row that a test finds is found again when its update passes the test. The rows that the
  -- update selects have its key.
  pub find_first_updated :
      (p w : A → Bool) (f : A → A) (xs : List A) (a : A)
      → Unique xs
      → find_first p xs ≡ some a
      → p (f a) ≡ true
      → w a ≡ true
      → ((b : A) → w b ≡ true → key b ≡ key a)
      → find_first p (update_where w f xs) ≡ some (f a)
  unfolding find_first update_where
  find_first_updated p w f [] a u h pf wa key_of = ground arith
  find_first_updated p w f (x ∷ xs) a u h pf wa key_of = elim (Bool-cases (p x)) [
    | inl first ↦ ground arith
    | inr other ↦
        let rest : find_first p xs ≡ some a = ground arith in
        let away = not_head p x xs a u rest in
        let again = find_first_updated p w f xs a (Unique-tail x xs u) rest pf wa key_of in
        elim (Bool-cases (w x)) [
          | inl bad ↦ let same = key_of x bad in ground arith
          | inr skip ↦ ground arith
        ]
  ]

  -- Each row of the table is found by its key.
  pub find_each :
      (xs : List A) → Unique xs → All (λ x. find_first (λ a. key a == key x) xs ≡ some x) xs
  unfolding find_first
  find_each [] u = tt
  find_each (y ∷ ys) u =
      let same = ==_refl (key y) in
      (
        rw same refl,
        weaken_All ys (find_each ys (Unique-tail y ys u))
            λ x found. let away = not_head (λ a. key a == key x) y ys x u found in rw away found,
      )
