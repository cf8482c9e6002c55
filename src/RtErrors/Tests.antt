-- ===== src/RtErrors/Tests.antt =====
-- Tests of rterrors/, and its theorems at concrete inputs.
use service_runtime.Base.{◌≡◌, refl, true, some, [], ◌∷◌, codes, is_empty, text_eq, trim_space}
use service_runtime.RtErrors.{
  nil_error, runtime_error, other_error, is_nil, error_text, own_message, text_of, unknown,
  not_found, own_connect_code, status_of, write_error, wrap,
}
use service_runtime.RtErrors.Laws.{wrapped, wrapping_is_transparent}

texts :
    error_text (wrap (codes "not_found") (codes " get ") (other_error (codes " no row ") nil_error))
    ≡ codes "get: no row"
unfolding error_text wrap own_message trim_space text_eq is_nil
texts = refl

not_found_maps : own_connect_code (codes "not_found") ≡ some not_found
unfolding own_connect_code text_eq
not_found_maps = refl

wrapping_is_transparent_example :
    write_error
      (λ e. unknown)
      (wrapped (codes "outer" ∷ []) (runtime_error (codes "not_found") [] (codes "gone") nil_error))
    ≡ some (
      status_of not_found,
      codes "not_found",
      own_message (codes "not_found") (codes "gone") (text_of nil_error),
    )
wrapping_is_transparent_example =
    wrapping_is_transparent (λ e. unknown) (codes "outer" ∷ []) (codes "not_found") []
      (codes "gone") nil_error not_found not_found_maps

blank : is_empty (trim_space (codes " ")) ≡ true
unfolding trim_space
blank = refl
