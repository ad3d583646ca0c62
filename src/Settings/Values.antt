-- ===== src/Settings/Values.antt =====
-- When each reading of a variable in validator/config.py raises nothing.
use kubetee_subnet.Base.{
  ℤ, ◌≡◌, refl, ◌↔◌, ◌⊎◌, inl, inr, Bool, true, false, ◌||◌, Option, none, some, [], String,
  string_eq, ◌==◌, Bool-cases, Option-cases, Result, ok,
}
use kubetee_subnet.Dict.{Dict}
use kubetee_subnet.Float.{Float}
use kubetee_subnet.Json.{Json, obj, Fields, end, field, to_float}
use kubetee_subnet.Settings.{
  ConfigError, Environ, raw_of, require, bool_of, int_or, require_int, get_int, number_or,
  get_float, usd_card_from, usd_card_of_json, parse_usd_card,
}

-- Code that raises nothing.
abbrev pub Loads : {A : Type 0} → Result ConfigError A → Type 0
Loads {A = A} r = (a : A) × (r ≡ ok a)

-- The variable is there and not blank.
abbrev pub IsThere : Environ → String → Type 0
IsThere env name = (raw_of env name == "") ≡ false

-- The text is blank, or it reads as a value.
abbrev pub IsBlankOr : {A : Type 0} → String → Option A → Type 0
IsBlankOr {A = A} raw read = ((raw == "") ≡ true) ⊎ ((a : A) × (read ≡ some a))

-- The words that `_get_bool` knows.
abbrev pub is_boolean : String → Bool
is_boolean raw =
    raw == ""
    || (raw == "1" || raw == "true" || raw == "yes" || raw == "on")
    || (raw == "0" || raw == "false" || raw == "no" || raw == "off")

pub require-IsThere : (env : Environ) (name : String) → Loads (require env name) ↔ IsThere env name
unfolding require
require-IsThere env name = elim (Bool-cases (raw_of env name == "")) [
  | inl e ↦ rw e ((λ h. cc h.1), (λ h. cc h))
  | inr e ↦ rw e ((λ h. refl), (λ h. (_, refl)))
]

pub bool_of-is_boolean :
    (name : String) (default : Bool) (raw : String)
    → Loads (bool_of name default raw) ↔ (is_boolean raw ≡ true)
bool_of-is_boolean name default raw = elim (Bool-cases (raw == "")) [
  | inl e ↦ rw e ((λ h. refl), (λ h. (_, refl)))
  | inr e ↦ elim (Bool-cases (raw == "1" || raw == "true" || raw == "yes" || raw == "on")) [
    | inl g ↦ rw (e, g) ((λ h. refl), (λ h. (_, refl)))
    | inr g ↦ elim (Bool-cases (raw == "0" || raw == "false" || raw == "no" || raw == "off")) [
      | inl k ↦ rw (e, g, k) ((λ h. refl), (λ h. (_, refl)))
      | inr k ↦ rw (e, g, k) ((λ h. cc h.1), (λ h. cc h))
    ]
  ]
]

module _ (env : Environ) (parse_int : String → Option ℤ) where
  pub int_or-Loads :
      (name : String) (read : Option ℤ) → Loads (int_or name read) ↔ ((n : ℤ) × (read ≡ some n))
  int_or-Loads name none = ((λ h. cc h.1), (λ h. cc h.1))
  int_or-Loads name (some n) = ((λ h. (n, refl)), (λ h. (n, refl)))

  pub require_int-Loads :
      (name : String)
      → Loads (require_int env parse_int name)
        ↔ (IsThere env name × ((n : ℤ) × (parse_int (raw_of env name) ≡ some n)))
  unfolding require_int require
  require_int-Loads name = elim (Bool-cases (raw_of env name == "")) [
    | inl e ↦ rw e ((λ h. cc h.1), (λ h. cc h.0))
    | inr e ↦ rw e ((λ h. (refl, (int_or-Loads name _).0 h)), (λ h. (int_or-Loads name _).1 h.1))
  ]

  pub get_int-Loads :
      (name : String) (default : ℤ)
      → Loads (get_int env parse_int name default)
        ↔ IsBlankOr (raw_of env name) (parse_int (raw_of env name))
  unfolding get_int
  get_int-Loads name default = elim (Bool-cases (raw_of env name == "")) [
    | inl e ↦ rw e ((λ h. inl refl), (λ h. (_, refl)))
    | inr e ↦ rw e (
      (λ h. inr ((int_or-Loads name _).0 h)),
      elim [ inl h ↦ cc h | inr h ↦ (int_or-Loads name _).1 h ],
    )
  ]

module _ {F : Type 0} ⦃f : Float F⦄ where
  pub number_or-Loads :
      (name : String) (read : Option F) → Loads (number_or name read) ↔ ((x : F) × (read ≡ some x))
  number_or-Loads name none = ((λ h. cc h.1), (λ h. cc h.1))
  number_or-Loads name (some x) = ((λ h. (x, refl)), (λ h. (x, refl)))

  pub get_float-Loads :
      (env : Environ) (name : String) (default : F)
      → Loads (get_float env name default) ↔ IsBlankOr (raw_of env name) (f.parse (raw_of env name))
  unfolding get_float
  get_float-Loads env name default = elim (Bool-cases (raw_of env name == "")) [
    | inl e ↦ rw e ((λ h. inl refl), (λ h. (_, refl)))
    | inr e ↦ rw e (
      (λ h. inr ((number_or-Loads name _).0 h)),
      elim [ inl h ↦ cc h | inr h ↦ (number_or-Loads name _).1 h ],
    )
  ]

  -- Every value of the object is a number, or a text that reads as one.
  abbrev pub AreNumeric : Fields F → Type 0
  AreNumeric end = Unit
  AreNumeric (field key value fs) = ((x : F) × (to_float value ≡ some x)) × AreNumeric fs

  pub usd_card_from-Loads :
      (name : String) (fs : Fields F) (card : Dict String F)
      → Loads (usd_card_from name fs card) ↔ AreNumeric fs
  unfolding usd_card_from
  usd_card_from-Loads name end card = ((λ h. tt), (λ h. (card, refl)))
  usd_card_from-Loads name (field key value fs) card = elim (Option-cases (to_float value)) [
    | inl e ↦ rw e ((λ h. cc h.1), (λ h. cc h.0.1))
    | inr (x, e) ↦ rw e (
      (λ h. ((x, refl), (usd_card_from-Loads name fs _).0 h)),
      (λ h. (usd_card_from-Loads name fs _).1 h.1),
    )
  ]

  -- A JSON object of numbers.
  abbrev pub IsUsdCard : Option (Json F) → Type 0
  IsUsdCard none = ⊥
  IsUsdCard (some (obj fs)) = AreNumeric fs
  IsUsdCard (some _) = ⊥

  pub usd_card_of_json-Loads :
      (name : String) (o : Option (Json F)) → Loads (usd_card_of_json name o) ↔ IsUsdCard o
  usd_card_of_json-Loads name none = ((λ h. cc h.1), (λ h. absurd h))
  usd_card_of_json-Loads name (some (obj fs)) = usd_card_from-Loads name fs []
  usd_card_of_json-Loads name (some _) = ((λ h. cc h.1), (λ h. absurd h))

  pub parse_usd_card-Loads :
      (loads : String → Option (Json F)) (raw name : String)
      → Loads (parse_usd_card loads raw name) ↔ (((raw == "") ≡ true) ⊎ IsUsdCard (loads raw))
  unfolding parse_usd_card
  parse_usd_card-Loads loads raw name = elim (Bool-cases (raw == "")) [
    | inl e ↦ rw e ((λ h. inl refl), (λ h. (_, refl)))
    | inr e ↦ rw e (
      (λ h. inr ((usd_card_of_json-Loads name (loads raw)).0 h)),
      elim [ inl h ↦ cc h | inr h ↦ (usd_card_of_json-Loads name (loads raw)).1 h ],
    )
  ]
