-- ===== src/Chunk/Config.antt =====
-- `ChunkingConfig` and `_build_config` of core/src/docrunr/chunk.py.
use docrunr.Base.{
  ℕ, ◌≤◌, ◌<◌, ◌≡◌, ◌⊎◌, inl, inr, refl, not, Option, none, some, List, [], ◌∷◌, arith, Text, codes,
  ltb, ◌==◌, if◌then◌else◌, is_empty,
}

pub record ChunkingConfig : Type 0 where
  pub chunk_size_tokens : ℕ
  pub chunk_overlap_tokens : ℕ
  pub max_chunk_tokens : ℕ
  pub separators : List Text

-- The `ValueError`s of `__post_init__`. The fields are numbers that are not negative: a negative
-- size is refused as 0 is, and a negative overlap as one that is not 0.
pub data ConfigError : Type 0 where
  bad_chunk_size bad_max_chunk chunk_size_above_max overlap_not_zero no_separators : ConfigError

pub data Checked : Type 0 where
  ok : ChunkingConfig → Checked
  err : ConfigError → Checked

-- The constructor call: `__post_init__` runs on the fields.
unfoldable pub new_config : ChunkingConfig → Checked
new_config c =
    if c.chunk_size_tokens == 0
    then err bad_chunk_size
    else if c.max_chunk_tokens == 0
    then err bad_max_chunk
    else if ltb c.max_chunk_tokens c.chunk_size_tokens
    then err chunk_size_above_max
    else if not (c.chunk_overlap_tokens == 0)
    then err overlap_not_zero
    else if is_empty c.separators
    then err no_separators
    else ok c

abbrev pub default_separators : List Text
default_separators =
    codes "\n\n" ∷ codes "\n" ∷ codes "." ∷ codes "?" ∷ codes "!" ∷ codes " " ∷ [] ∷ []

abbrev pub default_config : ChunkingConfig
default_config = record {
  chunk_size_tokens = 300;
  chunk_overlap_tokens = 0;
  max_chunk_tokens = 450;
  separators = default_separators;
}

abbrev pub or_default : Option ChunkingConfig → ChunkingConfig
or_default none = default_config
or_default (some config) = config

unfoldable pub build_config : Option ChunkingConfig → Option ℕ → Checked
unfolding new_config
build_config config none = new_config (or_default config)
build_config config (some target_tokens) =
    new_config (record (or_default config) { chunk_size_tokens = target_tokens })

-- What `__post_init__` promises of a configuration that was built.
pub record IsUsable (c : ChunkingConfig) : Type 0 where
  pub positive : 0 < c.chunk_size_tokens
  pub ordered : c.chunk_size_tokens ≤ c.max_chunk_tokens

pub new_config-IsUsable :
    (c : ChunkingConfig) {d : ChunkingConfig} → new_config c ≡ ok d → IsUsable d
unfolding new_config
new_config-IsUsable c h = ground arith

pub build_config-IsUsable :
    (config : Option ChunkingConfig) (target_tokens : Option ℕ) {d : ChunkingConfig}
    → build_config config target_tokens ≡ ok d
    → IsUsable d
unfolding build_config
build_config-IsUsable config none h = new_config-IsUsable (or_default config) h
build_config-IsUsable config (some t) h =
    new_config-IsUsable (record (or_default config) { chunk_size_tokens = t }) h

pub Checked-cases :
    (r : Checked) → ((e : ConfigError) × (r ≡ err e)) ⊎ ((c : ChunkingConfig) × (r ≡ ok c))
Checked-cases (ok c) = inr (c, refl)
Checked-cases (err e) = inl (e, refl)
