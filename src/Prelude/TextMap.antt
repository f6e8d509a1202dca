-- ===== src/Prelude/TextMap.antt =====
-- Go's maps with text keys, as association lists without an order.
use ai_token_mall.Prelude.Tests.{if◌then◌else◌, Bool-cases}
use mathlib.Core.Path.{◌≡◌, refl, sym, ap, ◌∙◌}
use mathlib.Core.Bool.{Bool, true, false}
use mathlib.Core.Logic.{inl, inr}
use mathlib.Core.List.{List, [], ◌∷◌}
use mathlib.Core.Option.{Option, none, some}
use native.Mathlib.Omega.{arith}

module _ {K : Type 0} (key_eq : K → K → Bool) where
  unfoldable pub mem_key : K → List K → Bool
  mem_key k [] = false
  mem_key k (j ∷ js) = if key_eq j k then true else mem_key k js

module _ {K : Type 0} (key_eq : K → K → Bool) (to_path : (a b : K) → key_eq a b ≡ true → a ≡ b)
    (same : (a : K) → key_eq a a ≡ true) where
  -- Keys that both equal a third are equal.
  apart : (a j k : K) → key_eq a j ≡ false → key_eq a k ≡ true → key_eq j k ≡ false
  apart a j k away found = elim (Bool-cases (key_eq j k)) [
    | inr other ↦ other
    | inl same_key ↦
        let e : a ≡ j = to_path a k found ∙ sym (to_path j k same_key) in
        let again : key_eq a j ≡ true = rw (← e) (same a) in ground arith
  ]

module _ {K : Type 0} (key_eq : K → K → Bool) {V : Type 0} where
  unfoldable pub lookup : K → List (K × V) → Option V
  lookup k [] = none
  lookup k (e ∷ m) = if key_eq e.0 k then some e.1 else lookup k m

  unfoldable pub delete : K → List (K × V) → List (K × V)
  delete k [] = []
  delete k (e ∷ m) = let rest = delete k m in if key_eq e.0 k then rest else e ∷ rest

  abbrev pub insert : K → V → List (K × V) → List (K × V)
  insert k v m = (k, v) ∷ delete k m

  unfoldable pub keys : List (K × V) → List K
  keys [] = []
  keys (e ∷ m) = e.0 ∷ keys m

  -- What is found under no name of the list is absent.
  pub lookup_absent :
      (k : K) (m : List (K × V)) → mem_key key_eq k (keys m) ≡ false → lookup k m ≡ none
  unfolding lookup keys mem_key
  lookup_absent k [] h = refl
  lookup_absent k (e ∷ m) h = ground (arith, lookup_absent k m)

  module _ (to_path : (a b : K) → key_eq a b ≡ true → a ≡ b)
      (same : (a : K) → key_eq a a ≡ true) where
    pub lookup-delete :
        (j k : K) (m : List (K × V))
        → lookup k (delete j m) ≡ (if key_eq j k then none else lookup k m)
    unfolding lookup delete
    lookup-delete j k [] = ground arith
    lookup-delete j k (e ∷ m) =
        let ih = lookup-delete j k m in
        elim (Bool-cases (key_eq e.0 j)) [
          | inl here ↦
              let p : key_eq e.0 k ≡ key_eq j k = ap (λ a. key_eq a k) (to_path e.0 j here) in
              ground (arith, ih)
          | inr away ↦ elim (Bool-cases (key_eq e.0 k)) [
            | inl found ↦ let other = apart key_eq to_path same e.0 j k away found in ground arith
            | inr on ↦ ground (arith, ih)
          ]
        ]

    pub lookup-insert :
        (j k : K) (v : V) (m : List (K × V))
        → lookup k (insert j v m) ≡ (if key_eq j k then some v else lookup k m)
    unfolding lookup
    lookup-insert j k v m = let d = lookup-delete j k m in ground arith
