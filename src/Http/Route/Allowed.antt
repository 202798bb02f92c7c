-- ===== src/Http/Route/Allowed.antt =====
-- An artifact is read only below `output`.
use docrunr.Base.{
  ◌≡◌, refl, ap, ◌∙◌, arith, relative_parts, true, false, List, [], ◌∷◌, Text, codes, text_eq,
  text_eq_iff, path_parts, path_name, All, arith,
}
use docrunr.Messages.Names.{suffix_of}
use docrunr.Handler.Artifacts.Under.{GoesDown, IsUnderOutput}
use docrunr.Http.Route.{any_special, is_allowed_output_path}

any_special→GoesDown : (ps : List Text) → any_special ps ≡ false → All GoesDown ps
any_special→GoesDown [] h = tt
any_special→GoesDown (p ∷ ps) h = (ground arith, any_special→GoesDown ps (ground arith))

module _ (lower : Text → Text) (low : lower [] ≡ []) where
  -- A path that the endpoint accepts lies below `output`, with no step up on the way.
  pub is_allowed_output_path-IsUnderOutput :
      (path : Text) → is_allowed_output_path lower path ≡ true → IsUnderOutput path
  unfolding is_allowed_output_path path_name suffix_of text_eq
  is_allowed_output_path-IsUnderOutput path h = go (path_parts path) refl
    where
      go : (parts : List Text) → path_parts path ≡ parts → IsUnderOutput path
      go [] e = absurd (ground arith)
      go (root ∷ []) e =
          let out : root ≡ codes "output" = ground (arith, text_eq_iff root (codes "output")) in
          let (relative, tail) =
            relative_parts path (codes "output") [] (e ∙ ap (λ (x : Text). x ∷ []) out) refl in
          let name : path_name path ≡ codes "output" = rw (tail, path_name) refl in
          let no_suffix : suffix_of (path_name path) ≡ [] = rw name refl in
          absurd (cc (rw (relative, no_suffix, low, tail) at h))
      go (root ∷ p ∷ below) e = record {
        below = p ∷ below;
        parts = ground (arith, text_eq_iff root (codes "output"));
        is_below = refl;
        goes_down = any_special→GoesDown (p ∷ below) (ground arith);
      }
