-- ===== src/Api/Binding.antt =====
-- What sqlite3 takes as the parameters of api/src/docrunr_api/repository.py, and the comparison of a
-- value with a text.
use docrunr.Base.{Bool, true, false, ◌&&◌, ◌||◌, List, [], ◌∷◌, Text, text_eq, ltb, pos, negsuc}
use docrunr.JobStore.Event.{Value, int_value, str_value, other_value}

-- UTF-8 has no code for a surrogate.
abbrev pub encodable : Text → Bool
encodable [] = true
encodable (c ∷ cs) = (ltb c 55296 || ltb 57343 c) && encodable cs

-- What sqlite3 binds: no list, no object, and no integer of more than 64 bits.
abbrev pub bindable : {F : Type 0} → Value F → Bool
bindable (other_value text) = false
bindable (str_value text) = encodable text
bindable (int_value (pos n)) = ltb n 9223372036854775808
bindable (int_value (negsuc n)) = ltb n 9223372036854775808
bindable _ = true

abbrev pub all_bindable : {F : Type 0} → List (Value F) → Bool
all_bindable [] = true
all_bindable (v ∷ vs) = bindable v && all_bindable vs

-- `value == text`
abbrev pub is_text : {F : Type 0} → Value F → Text → Bool
is_text (str_value t) text = text_eq t text
is_text _ text = false
