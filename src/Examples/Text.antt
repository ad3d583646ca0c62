-- ===== src/Examples/Text.antt =====
-- Tests of the functions on text and of the version parser.
use kubetee_subnet.Base.{◌≡◌, refl, true, some, [], ◌∷◌}
use kubetee_subnet.Text.{upper, has, strip, split, ends_with, take}
use kubetee_subnet.Version.{parse_semver, more_digits}

upper_test : has (upper "nvidia b300 sxm6") "B300" ≡ true
unfolding has upper
upper_test = refl

strip_test : strip "  a b " ≡ "a b"
unfolding strip
strip_test = refl

split_test : split " 2026-11-03 10:36  UTC " ≡ "2026-11-03" ∷ "10:36" ∷ "UTC" ∷ []
unfolding split
split_test = refl

take_test : take 3 "128Gi" ≡ "128"
unfolding take
take_test = refl

ends_with_test : ends_with "128Gi" "Gi" ≡ true
unfolding ends_with
ends_with_test = refl

parse_semver_test :
    parse_semver " v1.30.4-rc.1 " ≡ some (record { major = 1; minor = 30; patch = 4 })
unfolding parse_semver more_digits strip
parse_semver_test = refl
