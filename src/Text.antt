-- ===== src/Text.antt =====
-- Python's `str`, for ASCII text: the methods that the program calls.
use Prim.Native.String.{◌++◌, compare}
use Prim.Native.Nat.{Ordering}
use Prim.Native.Char.{Char, code}
use kubetee_subnet.Base.{
  ℕ, zero, suc, not, List, [], ◌∷◌, string_eq, Bool, true, false, ◌&&◌, ◌||◌, String, leb, nat_eq,
  ◌==◌, if◌then◌else◌,
}

-- `s + t`
abbrev pub append : String → String → String
append s t = s ++ t

-- One letter by another, at the same place of two alphabets.
translate : String → String → Char → Char
translate (String.◌∷◌ a as') (String.◌∷◌ b bs) c =
    if code a == code c then b else translate as' bs c
translate _ _ c = c

abbrev small : String
small = "abcdefghijklmnopqrstuvwxyz"

abbrev capital : String
capital = "ABCDEFGHIJKLMNOPQRSTUVWXYZ"

-- `s.upper()`
unfoldable pub upper : String → String
unfolding translate
upper String.[] = ""
upper (String.◌∷◌ c s) = String.◌∷◌ (translate small capital c) (upper s)

-- `s.lower()`
unfoldable pub lower : String → String
unfolding translate
lower String.[] = ""
lower (String.◌∷◌ c s) = String.◌∷◌ (translate capital small c) (lower s)

-- `s.startswith(t)`
unfoldable pub starts_with : String → String → Bool
starts_with s String.[] = true
starts_with String.[] (String.◌∷◌ d t) = false
starts_with (String.◌∷◌ c s) (String.◌∷◌ d t) = code c == code d && starts_with s t

-- `t in s`
unfoldable pub has : String → String → Bool
unfolding starts_with
has String.[] t = starts_with "" t
has (String.◌∷◌ c s) t = starts_with (String.◌∷◌ c s) t || has s t

-- `len(s)`
unfoldable pub size : String → ℕ
size String.[] = 0
size (String.◌∷◌ c s) = suc (size s)

-- Python's white space, among ASCII.
is_space : ℕ → Bool
is_space c = c == 32 || leb 9 c && leb c 13 || leb 28 c && leb c 31

-- `s.lstrip()`
unfoldable pub lstrip : String → String
unfolding is_space
lstrip String.[] = ""
lstrip (String.◌∷◌ c s) = let rest = lstrip s in if is_space (code c) then rest else String.◌∷◌ c s

-- One character in front of text that is stripped on the right already.
push_left : Char → String → String
unfolding is_space
push_left c String.[] = if is_space (code c) then "" else String.◌∷◌ c ""
push_left c (String.◌∷◌ d s) = String.◌∷◌ c (String.◌∷◌ d s)

-- `s.rstrip()`
unfoldable pub rstrip : String → String
unfolding push_left
rstrip String.[] = ""
rstrip (String.◌∷◌ c s) = push_left c (rstrip s)

push_slash : Char → String → String
push_slash c String.[] = if code c == 47 then "" else String.◌∷◌ c ""
push_slash c (String.◌∷◌ d s) = String.◌∷◌ c (String.◌∷◌ d s)

-- `s.rstrip("/")`
unfoldable pub trim_slashes : String → String
unfolding push_slash
trim_slashes String.[] = ""
trim_slashes (String.◌∷◌ c s) = push_slash c (trim_slashes s)

-- `s.strip()`
unfoldable pub strip : String → String
unfolding lstrip rstrip
strip s = rstrip (lstrip s)

-- `s.endswith(t)`
unfoldable pub ends_with : String → String → Bool
ends_with String.[] t = t == ""
ends_with (String.◌∷◌ c s) t = String.◌∷◌ c s == t || ends_with s t

-- `s[:n]`
unfoldable pub take : ℕ → String → String
take n String.[] = ""
take n (String.◌∷◌ c s) = elim n [ zero ↦ "" | suc m ↦ String.◌∷◌ c (take m s) ]

-- `s.replace("Z", "+00:00")`
unfoldable pub zulu : String → String
zulu String.[] = ""
zulu (String.◌∷◌ c s) =
    let rest = zulu s in if code c == 90 then "+00:00" ++ rest else String.◌∷◌ c rest

-- A character that is no space, in front of a text: it joins the first word where the text starts with one,
-- and is a word of its own where not.
push_word : Char → Bool → List String → List String
push_word c true [] = String.◌∷◌ c "" ∷ []
push_word c true (w ∷ words) = String.◌∷◌ c w ∷ words
push_word c false words = String.◌∷◌ c "" ∷ words

-- Whether the text starts with a word.
starts_word : String → Bool
unfolding is_space
starts_word String.[] = false
starts_word (String.◌∷◌ c s) = not (is_space (code c))

-- `s.split()`
unfoldable pub split : String → List String
unfolding is_space push_word starts_word
split String.[] = []
split (String.◌∷◌ c s) =
    let rest = split s in if is_space (code c) then rest else push_word c (starts_word s) rest

-- `a < b`, on texts
abbrev pub is_before : String → String → Bool
is_before a b = elim (compare a b) [ Ordering.lt ↦ true | _ ↦ false ]
