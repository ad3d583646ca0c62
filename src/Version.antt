-- ===== src/Version.antt =====
-- The release versions of validator/version.py: `parse_semver` and `version_at_least`, for ASCII text.
use Prim.Native.Char.{code}
use kubetee_subnet.Base.{
  ℕ, ◌+◌, ◌-◌, ◌*◌, leb, ltb, nat_eq, string_eq, ◌==◌, Bool, true, false, ◌&&◌, ◌||◌, Option, none,
  some, String, if◌then◌else◌, and_then,
}
use kubetee_subnet.Text.{strip}

-- (major, minor, patch)
pub record Semver : Type 0 where
  pub major : ℕ
  pub minor : ℕ
  pub patch : ℕ

abbrev pub is_digit : ℕ → Bool
is_digit c = leb 48 c && leb c 57

-- A character of the pre-release part: `[0-9A-Za-z.-]`
abbrev pub is_tail : ℕ → Bool
is_tail c = is_digit c || leb 65 c && leb c 90 || leb 97 c && leb c 122 || c == 46 || c == 45

abbrev pub all_tail : String → Bool
all_tail String.[] = true
all_tail (String.◌∷◌ c s) = is_tail (code c) && all_tail s

-- `(?:[-+][0-9A-Za-z.-]+)?$`
abbrev pub is_suffix : String → Bool
is_suffix String.[] = true
is_suffix (String.◌∷◌ c String.[]) = false
is_suffix (String.◌∷◌ c (String.◌∷◌ d s)) =
    (code c == 45 || code c == 43) && all_tail (String.◌∷◌ d s)

-- `\d+`, behind digits that are read already, and what follows.
unfoldable pub more_digits : ℕ → String → ℕ × String
more_digits n String.[] = (n, "")
more_digits n (String.◌∷◌ c s) =
    let rest = more_digits (n * 10 + (code c - 48)) s in
    if is_digit (code c) then rest else (n, String.◌∷◌ c s)

abbrev pub digits : String → Option (ℕ × String)
digits String.[] = none
digits (String.◌∷◌ c s) = if is_digit (code c) then some (more_digits (code c - 48) s) else none

-- `\.`
abbrev pub dot : String → Option String
dot String.[] = none
dot (String.◌∷◌ c s) = if code c == 46 then some s else none

-- `v?`
abbrev pub drop_v : String → String
drop_v String.[] = ""
drop_v (String.◌∷◌ c s) = if code c == 118 then s else String.◌∷◌ c s

-- A match of `_SEMVER_RE`
abbrev pub match_semver : String → Option Semver
match_semver text = and_then (digits (drop_v text)) (λ major.
    and_then (and_then (dot major.1) digits) (λ minor.
      and_then (and_then (dot minor.1) digits) (λ patch.
        if is_suffix patch.1
        then some (record { major = major.0; minor = minor.0; patch = patch.0 })
        else none)))

unfoldable pub parse_semver : String → Option Semver
parse_semver raw = if raw == "" then none else match_semver (strip raw)

-- `c >= m`, on tuples
abbrev pub semver_le : Semver → Semver → Bool
semver_le m c =
    ltb m.major c.major
    || m.major == c.major && (ltb m.minor c.minor || m.minor == c.minor && leb m.patch c.patch)

-- A minimum that is no version locks nobody out; a client without a version is older than any minimum.
abbrev pub at_least : Option Semver → Option Semver → Bool
at_least c none = true
at_least none (some m) = false
at_least (some c) (some m) = semver_le m c

unfoldable pub version_at_least : String → String → Bool
version_at_least client minimum = at_least (parse_semver client) (parse_semver minimum)
