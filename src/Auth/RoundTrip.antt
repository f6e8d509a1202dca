-- ===== src/Auth/RoundTrip.antt =====
-- common/auth/token.go: which tokens are accepted.
use mathlib.Core.Option
use mathlib.Core.List.{append_assoc}
use ai_token_mall.Prelude.{
  ℕ, ◌+◌, ◌/◌, ◌^◌, ◌<◌, ◌≡◌, ◌≢◌, refl, sym, arith, Option-cases, inl, inr, ltb, none, some, List,
  [], ◌∷◌, ◌++◌, if◌then◌else◌, All, ◌∙◌, ap,
}
use ai_token_mall.Prelude.Int.{ℤ, pos, ◌≤ℤ◌}
use ai_token_mall.Text.{decimal, codes_eq_refl, eq_of_codes_eq}
use ai_token_mall.Text.Number.{
  split, join, join-split, parse_uint, parse_int, Apart, split-append, split-Apart,
  parse_uint-decimal, parse_int-decimal, decimal-Apart,
}
use ai_token_mall.Text.Base64.{encode, decode, decode-encode, hex, hex_digit}
use ai_token_mall.Auth.{
  nanoseconds_per_second, signature, payload_of, issue_user_token, check_parts, parse_user_token,
}

hex_digit-Apart : (d : ℕ) → d < 16 → Apart b':' (hex_digit d)
unfolding hex_digit
hex_digit-Apart d h = (ground arith, ground arith)

hex-Apart : (bs : List ℕ) → All (Apart b':') (hex bs)
unfolding hex
hex-Apart [] = tt
hex-Apart (b ∷ bs) =
    (hex_digit-Apart _ (omega arith), (hex_digit-Apart _ (omega arith), hex-Apart bs))

All-bytes : (bs : List ℕ) → All (Apart b':') bs → All (λ b. b < 256) bs
All-bytes [] h = tt
All-bytes (b ∷ bs) h = (h.0.1, All-bytes bs h.1)

All-join :
    (xs ys : List ℕ)
    → All (λ b. b < 256) xs
    → All (λ b. b < 256) ys
    → All (λ b. b < 256) (xs ++ b':' ∷ ys)
All-join [] ys h k = (omega arith, k)
All-join (x ∷ xs) ys h k = (h.0, All-join xs ys h.1 k)

parts :
    (uid exp sig : List ℕ)
    → All (Apart b':') uid
    → All (Apart b':') exp
    → All (Apart b':') sig
    → split b':' (payload_of uid exp ++ b':' ∷ sig) ≡ uid ∷ exp ∷ sig ∷ []
parts uid exp sig hu he hs = rw (append_assoc uid (b':' ∷ exp) (b':' ∷ sig)) (
    split-append b':' uid (exp ++ b':' ∷ sig) hu
    ∙ ap (λ r. uid ∷ r)
        (split-append b':' exp sig he ∙ ap (λ r. exp ∷ r) (split-Apart b':' sig hs)))

module _ (hmac : List ℕ → List ℕ → List ℕ) (user_id exp : ℕ) (secret : List ℕ) where
  payload : List ℕ
  payload = payload_of (decimal user_id) (decimal exp)

  message : List ℕ
  message = payload ++ b':' ∷ signature hmac secret payload

  message-bytes : All (λ b. b < 256) message
  unfolding message payload
  message-bytes =
      All-join _ _
        (All-join _ _ (All-bytes _ (decimal-Apart user_id)) (All-bytes _ (decimal-Apart exp)))
        (All-bytes _ (hex-Apart _))

  split-message :
      split b':' message ≡ decimal user_id ∷ decimal exp ∷ signature hmac secret payload ∷ []
  unfolding message payload
  split-message = parts _ _ _ (decimal-Apart user_id) (decimal-Apart exp) (hex-Apart _)

  check_message :
      (later : ℕ)
      → user_id < 2 ^ 64
      → exp < 2 ^ 63
      → check_parts hmac later secret
          (decimal user_id ∷ decimal exp ∷ signature hmac secret payload ∷ [])
        ≡ (if ltb exp (later / nanoseconds_per_second) then none else some user_id)
  unfolding check_parts payload Option.bind
  check_message later hu he =
      rw (parse_uint-decimal user_id hu, parse_int-decimal exp he, codes_eq_refl) (ground arith)

  parse_message :
      (later : ℕ)
      → user_id < 2 ^ 64
      → exp < 2 ^ 63
      → parse_user_token hmac later (encode message) secret
        ≡ (if ltb exp (later / nanoseconds_per_second) then none else some user_id)
  unfolding parse_user_token Option.bind
  parse_message later hu he =
      rw (decode-encode message message-bytes, split-message) (check_message later hu he)

module _ (hmac : List ℕ → List ℕ → List ℕ) where
  check_parts-some :
      (now user_id : ℕ) (secret : List ℕ) (ps : List (List ℕ))
      → check_parts hmac now secret ps ≡ some user_id
      → (uid exp : List ℕ) × (until : ℤ) × (ps
          ≡ uid ∷ exp ∷ signature hmac secret (payload_of uid exp) ∷ [])
        × (parse_uint uid ≡ some user_id)
        × (parse_int exp ≡ some until)
        × (pos (now / nanoseconds_per_second) ≤ℤ until)
  unfolding check_parts Option.bind
  check_parts-some now user_id secret [] h = ground arith
  check_parts-some now user_id secret (uid ∷ []) h = ground arith
  check_parts-some now user_id secret (uid ∷ exp ∷ []) h = ground arith
  check_parts-some now user_id secret (uid ∷ exp ∷ sig ∷ p ∷ ps) h = ground arith
  check_parts-some now user_id secret (uid ∷ exp ∷ sig ∷ []) h =
      elim (Option-cases (parse_uint uid)) [
        | inl bad ↦ ground arith
        | inr (id, read) ↦ elim (Option-cases (parse_int exp)) [
          | inl bad ↦ ground arith
          | inr (until, read_exp) ↦
              let signed =
                eq_of_codes_eq (signature hmac secret (payload_of uid exp)) sig (ground arith) in
              (
                uid,
                exp,
                until,
                ap (λ s. uid ∷ exp ∷ s ∷ []) (sym signed),
                ground arith,
                read_exp,
                ground arith,
              )
        ]
      ]

  -- With a secret that is not empty, a token is issued, and it gives back its user of 64 bits until
  -- the second of its expiry, which must fit 63 bits, has passed; then it is refused.
  pub parse-issue :
      (now later ttl user_id : ℕ) (secret : List ℕ)
      → secret ≢ []
      → user_id < 2 ^ 64
      → (now + ttl) / nanoseconds_per_second < 2 ^ 63
      → (token : List ℕ) × (issue_user_token hmac now user_id secret ttl ≡ some token)
        × (parse_user_token hmac later token secret ≡ (
            if ltb ((now + ttl) / nanoseconds_per_second) (later / nanoseconds_per_second)
            then none
            else some user_id))
  parse-issue now later ttl user_id [] ne hu he = absurd (ne refl)
  parse-issue now later ttl user_id (c ∷ cs) ne hu he =
      let exp = (now + ttl) / nanoseconds_per_second in
      (
        encode (message hmac user_id exp (c ∷ cs)),
        unfold issue_user_token message payload in refl,
        parse_message hmac user_id exp (c ∷ cs) later hu he,
      )

  -- Whatever text is accepted for a user, its base64 content ends with the signature of the part
  -- before, which names the user and a second that has not passed.
  pub accepted_is_signed :
      (now user_id : ℕ) (token secret : List ℕ)
      → parse_user_token hmac now token secret ≡ some user_id
      → (uid exp : List ℕ) × (until : ℤ) × (decode token
          ≡ some (payload_of uid exp ++ b':' ∷ signature hmac secret (payload_of uid exp)))
        × (parse_uint uid ≡ some user_id)
        × (parse_int exp ≡ some until)
        × (pos (now / nanoseconds_per_second) ≤ℤ until)
  unfolding parse_user_token Option.bind
  accepted_is_signed now user_id token secret h = elim (Option-cases (decode token)) [
    | inl bad ↦ ground arith
    | inr (dec, read) ↦
        let checked : check_parts hmac now secret (split b':' dec) ≡ some user_id = ground arith in
        let (uid, exp, until, e, named, dated, fresh) =
          check_parts-some now user_id secret (split b':' dec) checked in
        let text = sym (join-split b':' dec) ∙ ap (join b':') e in
        let whole : dec ≡ payload_of uid exp ++ b':' ∷ signature hmac secret (payload_of uid exp) =
          text ∙ (unfold join in sym (append_assoc uid (b':' ∷ exp) _)) in
        (uid, exp, until, read ∙ ap some whole, named, dated, fresh)
  ]
