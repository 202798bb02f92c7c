-- ===== src/Llm/Embeddings/Batches.antt =====
-- The loop over batches against one call for all texts.
use mathlib.Core.List.{map-append}
use docrunr.Base.{
  ℕ, zero, suc, ◌+◌, ◌-◌, ◌≤◌, ◌<◌, ◌≡◌, ◌≢◌, refl, ap, ◌∙◌, false, ◌⊎◌, inl, inr, List, [], ◌∷◌,
  ◌++◌, map, append-nil, append_assoc, Text, is_empty, is_empty→nil, length, length-drop, drop,
  drop_all, slice, slice-append-drop, ltb, Bool-cases, arith, length-take, min,
}
use docrunr.Llm.Client.{EmbeddingResult}
use docrunr.Llm.Embeddings.{batch_size, Collected, out_of_fuel, collected, extend, embed_from}

abbrev pub total : (Text → ℕ) → List Text → ℕ
total tokens [] = 0
total tokens (t ∷ ts) = tokens t + total tokens ts

total-append :
    (tokens : Text → ℕ) (xs ys : List Text)
    → total tokens (xs ++ ys) ≡ total tokens xs + total tokens ys
total-append tokens [] ys = omega arith
total-append tokens (x ∷ xs) ys = omega (arith, total-append tokens xs ys)

Sum-cases : {A B : Type 0} (s : A ⊎ B) → ((a : A) × (s ≡ inl a)) ⊎ ((b : B) × (s ≡ inr b))
Sum-cases (inl a) = inl (a, refl)
Sum-cases (inr b) = inr (b, refl)

module _ {V : Type 0} (create : List Text → Text ⊎ EmbeddingResult V) (texts : List Text) where
  -- The loop ends by its test, or by an error of a call, whatever the calls return.
  embed_from-ends :
      (fuel i : ℕ) (acc : Collected V)
      → length texts - i < fuel
      → embed_from create texts fuel i acc ≢ out_of_fuel
  unfolding embed_from
  embed_from-ends zero i acc h e = elim h [ ]
  embed_from-ends (suc fuel) i acc h e = elim (Bool-cases (ltb i (length texts))) [
    | inr over ↦ absurd (cc (rw (over, embed_from) at e))
    | inl more ↦ elim (Sum-cases (create (slice texts i (i + 64)))) [
      | inl (message, bad) ↦ absurd (cc (rw (more, embed_from, bad) at e))
      | inr (result, good) ↦
          embed_from-ends fuel (i + 64) (extend create texts acc result) (ground arith)
            (rw (more, embed_from, good) at e)
    ]
  ]

-- What calls return that answer each text by itself.
module _ {V : Type 0} (vec : Text → V) (tokens : Text → ℕ) (llm_profile provider : Text) where
  abbrev pub answer : List Text → EmbeddingResult V
  answer batch = record {
    vectors = map vec batch;
    llm_profile = llm_profile;
    provider = provider;
    token_count = total tokens batch;
  }

  -- Answers for the rest, behind what is there.
  abbrev pub gather : Collected V → List Text → Collected V
  gather acc [] = acc
  gather acc (t ∷ ts) = record {
    vectors = acc.vectors ++ map vec (t ∷ ts);
    llm_profile = llm_profile;
    provider = provider;
    token_count = acc.token_count + total tokens (t ∷ ts);
  }

  gather-gather :
      (acc : Collected V) (xs ys : List Text) → gather (gather acc xs) ys ≡ gather acc (xs ++ ys)
  gather-gather acc [] ys = refl
  gather-gather acc (x ∷ xs) [] = rw (append-nil xs) refl
  gather-gather acc (x ∷ xs) (y ∷ ys) =
      rw
        (
          map-append vec xs (y ∷ ys),
          total-append tokens xs (y ∷ ys),
          append_assoc acc.vectors (map vec (x ∷ xs)) (map vec (y ∷ ys)),
        )
        (ground arith)

  abbrev pub Answers : (List Text → Text ⊎ EmbeddingResult V) → Type 0
  Answers create =
      (batch : List Text)
      → length batch ≤ batch_size
      → is_empty batch ≡ false
      → create batch ≡ inr (answer batch)

  gather-extend :
      (create : List Text → Text ⊎ EmbeddingResult V) (texts : List Text) (acc : Collected V)
      (batch : List Text)
      → is_empty batch ≡ false
      → extend create texts acc (answer batch) ≡ gather acc batch
  gather-extend create texts acc [] h = absurd (cc)
  gather-extend create texts acc (t ∷ ts) h = refl

  -- If each call of at most 64 texts answers each of its texts by itself, then the loop, which
  -- never runs out of fuel, has what one call for all texts would give: a vector for each text, in
  -- order, and all tokens.
  pub embed_from-map :
      (create : List Text → Text ⊎ EmbeddingResult V) (texts : List Text) (fuel i : ℕ)
      (acc : Collected V)
      → Answers create
      → length texts - i < fuel
      → embed_from create texts fuel i acc ≡ collected (gather acc (drop i texts))
  unfolding embed_from
  embed_from-map create texts zero i acc answers h = elim h [ ]
  embed_from-map create texts (suc fuel) i acc answers h =
      elim (Bool-cases (ltb i (length texts))) [
        | inr over ↦ rw (over, embed_from, drop_all i texts (ground arith)) refl
        | inl more ↦
            let batch = slice texts i (i + 64) in
            let size : length batch ≡ min (i + 64 - i) (length (drop i texts)) =
              length-take (i + 64 - i) (drop i texts) in
            let left = length-drop i texts in
            let inside : i < length texts = ground arith in
            let small : length batch ≤ batch_size = omega arith in
            let some_text : is_empty batch ≡ false = elim (Bool-cases (is_empty batch)) [
              | inr filled ↦ filled
              | inl blank ↦
                  let none_left : length batch ≡ 0 =
                    ap (length {A = Text}) (is_empty→nil batch blank) in
                  absurd (omega arith)
            ] in
            let ih =
              embed_from-map create texts fuel (i + 64) (gather acc batch) answers (ground arith) in
            rw
              (
                more,
                embed_from,
                answers batch small some_text,
                gather-extend create texts acc batch some_text,
              )
              (ih
                ∙ ap collected (
                    gather-gather acc batch (drop (i + 64) texts)
                    ∙ ap (gather acc) (slice-append-drop texts i (i + 64) (omega arith))))
      ]
