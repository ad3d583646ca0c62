-- ===== src/Quantity.antt =====
-- Kubernetes quantities, as `_parse_memory_gib` and `_parse_cpu_cores` of
-- validator/infrastructure_validation.py read them.
use mathlib.Core.Option
use kubetee_subnet.Base.{
  ◌-◌, Option, none, some, List, [], ◌∷◌, String, string_eq, if◌then◌else◌, or_else,
}
use kubetee_subnet.Text.{strip, ends_with, take, size}
use kubetee_subnet.Dict.{Dict, get_or}
use kubetee_subnet.Float.{Float, ◌⊗◌, ◌⊘◌}
use kubetee_subnet.Json.{Json, null, as_num, to_str}

abbrev pub memory_suffixes : List String
memory_suffixes = "Ki" ∷ "Mi" ∷ "Gi" ∷ "Ti" ∷ "GB" ∷ "MB" ∷ "KB" ∷ "G" ∷ "M" ∷ "K" ∷ "B" ∷ []

module _ {F : Type 0} ⦃f : Float F⦄ where
  abbrev pub factors : Dict String F
  factors =
      ("Ki", f.lit 1 1048576)
      ∷ ("Mi", f.lit 1 1024)
      ∷ ("Gi", f.lit 1 1)
      ∷ ("Ti", f.lit 1024 1)
      ∷ ("G", f.lit 1 1)
      ∷ ("GB", f.lit 1 1)
      ∷ ("M", f.lit 1 1024)
      ∷ ("MB", f.lit 1 1024)
      ∷ ("K", f.lit 1 1048576)
      ∷ ("KB", f.lit 1 1048576)
      ∷ ("B", f.lit 1 1073741824)
      ∷ []

  unfoldable pub gi_to_gib : F → String → F
  gi_to_gib value unit = value ⊗ get_or unit factors (f.lit 1 1)

  -- The number of a text without its last `n` characters, or 0.
  abbrev pub number_before : String → String → Option F
  number_before text suffix = f.parse (take (size text - size suffix) text)

  -- The loop over the suffixes, the longer ones first.
  abbrev pub memory_by_suffix : String → List String → F
  memory_by_suffix text [] =
      or_else (Option.map (λ x. x ⊘ f.lit 1073741824 1) (f.parse text)) (f.lit 0 1)
  memory_by_suffix text (suffix ∷ suffixes) =
      let rest = memory_by_suffix text suffixes in
      if ends_with text suffix
      then or_else (Option.map (λ x. gi_to_gib x suffix) (number_before text suffix)) (f.lit 0 1)
      else rest

  abbrev pub memory_of_text : Option F → String → F
  memory_of_text (some bytes) text = bytes ⊘ f.lit 1073741824 1
  memory_of_text none text = memory_by_suffix (strip text) memory_suffixes

  unfoldable pub parse_memory_gib : Json F → F
  parse_memory_gib null = f.lit 0 1
  parse_memory_gib raw = memory_of_text (as_num raw) (to_str raw)

  abbrev pub cores_of_text : Option F → String → F
  cores_of_text (some cores) text = cores
  cores_of_text none text =
      if ends_with (strip text) "m"
      then or_else (Option.map (λ x. x ⊘ f.lit 1000 1) (number_before (strip text) "m")) (f.lit 0 1)
      else or_else (f.parse (strip text)) (f.lit 0 1)

  unfoldable pub parse_cpu_cores : Json F → F
  parse_cpu_cores null = f.lit 0 1
  parse_cpu_cores raw = cores_of_text (as_num raw) (to_str raw)
