-- ===== src/Account/Cover.antt =====
-- The pages of a list show every row once.
use ai_token_mall.Prelude.{
  ℕ, zero, suc, ◌+◌, ◌-◌, ◌*◌, ◌≤◌, ◌<◌, ◌%◌, ◌^◌, ◌≡◌, refl, sym, ap, ◌∙◌, arith, true, false,
  List, [], ◌++◌, ◌==◌, ltb, take, drop, length,
}
use ai_token_mall.Prelude.Int.{pos, wrap_64}
use ai_token_mall.Prelude.Paging.{take-drop, drop-drop, drop_all}
use ai_token_mall.Store.Action.{Tables}
use ai_token_mall.Store.Ensures.{
  Ensures, Ensures-pure, Ensures-query, Ensures-bind, Ensures-map_error,
}
use ai_token_mall.Account.Lists.{normalize_page, descending, rows_at, list_page}

wrap_small : (n : ℕ) → n < 2 ^ 63 → wrap_64 (pos n) ≡ pos n
unfolding wrap_64
wrap_small n h =
    let same : n % 2 ^ 64 ≡ n = omega arith in
    let low : ltb n (2 ^ 63) ≡ true = ground arith in rw (same, low) refl

module _ {A : Type 0} where
  abbrev pub page_items : ℕ → List A → ℕ → List A
  page_items size xs i = take size (drop (i * size) xs)

  -- The pages from the i-th on, k of them.
  unfoldable pub pages : ℕ → List A → ℕ → ℕ → List A
  pages size xs i zero = []
  pages size xs i (suc k) = page_items size xs i ++ pages size xs (suc i) k

  pages-drop :
      (size : ℕ) (xs : List A) (i k : ℕ)
      → length xs ≤ (i + k) * size
      → pages size xs i k ≡ drop (i * size) xs
  unfolding pages
  pages-drop size xs i zero h = sym (drop_all (i * size) xs (grind arith))
  pages-drop size xs i (suc k) h =
      let e : suc i * size ≡ i * size + size = grind arith in
      ap (λ r. page_items size xs i ++ r)
        (pages-drop size xs (suc i) k (grind arith)
          ∙ ap (λ n. drop n xs) e
          ∙ drop-drop (i * size) size xs)
      ∙ take-drop size (drop (i * size) xs)

  -- With a size from 1 to 100 and a page number that times the size is less than 2 ^ 63, the page
  -- of a listing that returns has the rows of its number, newest first, and the number of all rows.
  -- As many of these pages as the rows need, one after the other, are every row once, in that
  -- order.
  pub pages_show_all :
      (rows : Tables → List A) (default size i k : ℕ) (t : Tables)
      → 1 ≤ size
      → size ≤ 100
      → suc i * size < 2 ^ 63
      → length (descending (rows t)) ≤ k * size
      → Ensures
          (list_page rows default (record { page = pos (suc i); page_size = pos size }))
          (λ p s.
            (p.items ≡ page_items size (descending (rows t)) i)
            × (p.total ≡ length (rows t))
            × (s ≡ t))
          t
        × (pages size (descending (rows t)) 0 k ≡ descending (rows t))
  unfolding list_page rows_at normalize_page drop
  pages_show_all rows default size i k t low high small enough = (
    let fits : wrap_64 (pos (i * size)) ≡ pos (i * size) = wrap_small _ (grind arith) in
        let not_zero : (size == 0) ≡ false = ground arith in
        let not_large : ltb 100 size ≡ false = ground arith in
        let offset : suc i - 1 ≡ i = omega arith in
        let first : (suc i == 0) ≡ false = ground arith in
        Ensures-bind (
          Ensures-map_error _ (
            Ensures-query _ (
              Ensures-bind (
                Ensures-map_error _ (
                  Ensures-query _ (
                    Ensures-pure _ (
                      rw (first, not_zero, not_large, not_zero, not_large, offset, fits) refl,
                      refl,
                      refl,
                    ))))))),
    let start : 0 * size ≡ 0 = omega arith in
        pages-drop size (descending (rows t)) 0 k (grind arith)
        ∙ ap (λ n. drop n (descending (rows t))) start,
  )
