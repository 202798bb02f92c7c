-- ===== src/Chunk/Build/Distinct.antt =====
-- No two chunks have the same text in the same section.
use docrunr.Base.{
  ℕ, ◌≡◌, inl, inr, true, false, Option, List, [], ◌∷◌, ◌++◌, refl, ap, arith, Text, length,
  Bool-cases, All, All-append, text_eq_refl, is_empty, strip,
}
use docrunr.Chunk.Span.{Span}
use docrunr.Chunk.Section.{SectionPathState, build_section_path_states, path_for}
use docrunr.Chunk.Config.{ChunkingConfig, build_config, Checked-cases}
use docrunr.Chunk.Build.{
  Chunk, Output, new_chunk, path_eq, nothing_yet, is_seen, build_chunk, append_chunk, append_spans,
  final_spans, chunk_spans, packed_spans, chunk_markdown, source_id, splitter_version,
}

abbrev pub Differs : Text → List Text → Chunk → Type 0
Differs text path c = ¬ ((c.text ≡ text) × (c.section_path ≡ path))

abbrev pub Distinct : List Chunk → Type 0
Distinct [] = Unit
Distinct (c ∷ cs) =
    All (λ d. ¬ ((c.text ≡ d.text) × (c.section_path ≡ d.section_path))) cs × Distinct cs

abbrev keys : List Chunk → List (Text × List Text)
keys [] = []
keys (c ∷ cs) = (c.text, c.section_path) ∷ keys cs

path_eq_refl : (p : List Text) → path_eq p p ≡ true
unfolding path_eq
path_eq_refl [] = refl
path_eq_refl (t ∷ p) = rw (text_eq_refl t, path_eq_refl p) refl

unseen :
    (text : Text) (path : List Text) (cs : List Chunk)
    → is_seen text path (keys cs) ≡ false
    → All (Differs text path) cs
unfolding is_seen
unseen text path [] h = tt
unseen text path (c ∷ cs) h = (
  λ same. grind (arith, h, same, text_eq_refl text, path_eq_refl path),
  ground (arith, unseen text path cs),
)

Distinct-snoc :
    (cs : List Chunk) (c : Chunk)
    → Distinct cs
    → All (Differs c.text c.section_path) cs
    → Distinct (cs ++ c ∷ [])
Distinct-snoc [] c h new = (tt, tt)
Distinct-snoc (d ∷ cs) c h new =
    (All-append _ cs (c ∷ []) h.0 (new.0, tt), Distinct-snoc cs c h.1 new.1)

keys-snoc :
    (cs : List Chunk) (c : Chunk) → keys (cs ++ c ∷ []) ≡ keys cs ++ (c.text, c.section_path) ∷ []
keys-snoc [] c = refl
keys-snoc (d ∷ cs) c = ap (λ ks. (d.text, d.section_path) ∷ ks) (keys-snoc cs c)

-- `seen_texts` holds the keys of the chunks, which differ.
record IsApart (o : Output) : Type 0 where
  same_keys : o.seen_texts ≡ keys o.chunks
  apart : Distinct o.chunks

module _ (count_tokens : Text → ℕ) (sha256_hex : Text → Text) where
  build_chunk-key :
      (index : ℕ) (id version : Text) (span : Span) (path : List Text)
      → ((build_chunk count_tokens sha256_hex index id version span path).text ≡ span.text)
        × ((build_chunk count_tokens sha256_hex index id version span path).section_path ≡ path)
  unfolding build_chunk new_chunk
  build_chunk-key index id version span path = ground arith

  append_chunk-IsApart :
      (id version : Text) (span : Span) (path : List Text) (o : Output)
      → IsApart o
      → IsApart (append_chunk count_tokens sha256_hex id version span path o)
  unfolding append_chunk
  append_chunk-IsApart id version span path o h =
      let key = build_chunk-key (length o.chunks) id version span path in
      elim (Bool-cases (is_seen span.text path o.seen_texts)) [
        | inl seen ↦ rw seen (record { same_keys = h.same_keys; apart = h.apart })
        | inr new ↦ rw new (record {
          same_keys =
              rw (keys-snoc o.chunks _, key.0, key.1)
                (ap (λ ks. ks ++ (span.text, path) ∷ []) h.same_keys);
          apart =
              Distinct-snoc o.chunks _ h.apart
                (rw (key.0, key.1) (unseen span.text path o.chunks (rw h.same_keys at new)));
        })
      ]

  append_spans-IsApart :
      (states : List SectionPathState) (id version : Text) (spans : List Span) (o : Output)
      → IsApart o
      → IsApart (append_spans count_tokens sha256_hex states id version spans o)
  unfolding append_spans
  append_spans-IsApart states id version [] o h = h
  append_spans-IsApart states id version (s ∷ ss) o h =
      append_spans-IsApart states id version ss _
        (append_chunk-IsApart id version s (path_for states s.start) o h)

  chunk_spans-IsApart :
      (config : ChunkingConfig) (markdown id version : Text) (spans : List Span) (o : Output)
      → IsApart o
      → IsApart (chunk_spans count_tokens sha256_hex config markdown id version spans o)
  unfolding chunk_spans
  chunk_spans-IsApart config markdown id version [] o h = h
  chunk_spans-IsApart config markdown id version (s ∷ ss) o h =
      chunk_spans-IsApart config markdown id version ss _ (
        append_spans-IsApart (build_section_path_states markdown) id version
          (final_spans count_tokens sha256_hex config markdown s) o h)

  -- In every result of `chunk_markdown` no two chunks agree in both text and section path.
  pub chunk_markdown-Distinct :
      (markdown : Text) (target_tokens : Option ℕ) (source_doc_id : Option Text)
      (config : Option ChunkingConfig) (o : Output)
      → chunk_markdown count_tokens sha256_hex markdown target_tokens source_doc_id config ≡ inr o
      → Distinct o.chunks
  unfolding chunk_markdown
  chunk_markdown-Distinct markdown target_tokens source_doc_id config o h =
      elim (Checked-cases (build_config config target_tokens)) [
        | inl (e, refused) ↦ cc (rw (refused, chunk_markdown) at h)
        | inr (active, built) ↦
            let h' = rw (built, chunk_markdown) at h in
            elim (Bool-cases (is_empty (strip markdown))) [
              | inl blank ↦ let e : nothing_yet ≡ o = cc (rw blank at h') in rw (← e) tt
              | inr text ↦
                  let result : Output =
                    chunk_spans count_tokens sha256_hex active markdown
                      (source_id count_tokens sha256_hex source_doc_id) (splitter_version active)
                      (packed_spans count_tokens sha256_hex active markdown) nothing_yet in
                  let e : result ≡ o = cc (rw text at h') in
                  rw (← e)
                    (chunk_spans-IsApart active markdown
                      (source_id count_tokens sha256_hex source_doc_id) (splitter_version active)
                      (packed_spans count_tokens sha256_hex active markdown) nothing_yet
                      (record { same_keys = refl; apart = tt })).apart
            ]
      ]
