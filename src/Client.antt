-- ===== src/Client.antt =====
-- The cluster client of validator/rancher_client.py: `_get_all_pages`, its query parameters and the
-- message that `_auth_headers` signs. One GET is a parameter: its payload, or the error.
pub mod Pages
pub mod Signing
pub mod Served
use kubetee_subnet.Base.{
  ℕ, zero, suc, Option, none, some, List, [], ◌∷◌, ◌++◌, String, string_eq, ◌==◌, if◌then◌else◌,
  Result, ok, err,
}
use kubetee_subnet.Text.{append}
use kubetee_subnet.Dict.{Dict, insert, contains}
use kubetee_subnet.Float.{Float}
use kubetee_subnet.Json.{Json, arr, Fields, get, is_truthy, to_str}
use kubetee_subnet.Rancher.{dicts, dict_or_empty}

-- RancherEvidenceError, or the AttributeError of pagination data that is no dict.
pub data PageError : Type 0 where
  transport : PageError
  no_data_list : PageError
  no_dict : PageError

-- `params.setdefault("limit", "1000")`
abbrev pub with_limit : Dict String String → Dict String String
with_limit params = if contains "limit" params then params else insert "limit" "1000" params

-- `page_params`
abbrev pub page_params : Dict String String → Option String → Dict String String
page_params params none = with_limit params
page_params params (some marker) = insert "marker" marker (with_limit params)

-- `f"{path}\n{query}\n{ts}"` of `_auth_headers`
abbrev pub signed_message : String → String → String → String
signed_message path query ts = append path (append "\n" (append query (append "\n" ts)))

-- What a client signs with: the bearer token, or the hotkey, with the hex digits of a signature; the time in
-- seconds and the client's version, as texts.
pub record Signer : Type 0 where
  pub token : String
  pub address : String
  pub sign_hex : String → String
  pub ts : String
  pub version : String

-- `_auth_headers`
unfoldable pub auth_headers : Signer → String → String → Dict String String
auth_headers s path query =
    if s.token == ""
    then ("BT-Validator-Hotkey", s.address)
      ∷ ("BT-Validator-Signature", s.sign_hex (signed_message path query s.ts))
      ∷ ("BT-Validator-Ts", s.ts)
      ∷ ("BT-Validator-Version", s.version)
      ∷ []
    else ("Authorization", append "Bearer " s.token) ∷ []

-- `headers.update(…)`
abbrev pub with_headers : Dict String String → Dict String String → Dict String String
with_headers headers [] = headers
with_headers headers ((k, v) ∷ more) = with_headers (insert k v headers) more

-- The headers of `_get`
abbrev pub get_headers : Signer → String → String → Dict String String
get_headers s path query =
    with_headers
      (("Accept", "application/json") ∷ ("User-Agent", append "kubetee-validator/" s.version) ∷ [])
      (auth_headers s path query)

module _ {F : Type 0} ⦃f : Float F⦄ where
  -- `marker or None`
  abbrev pub marker_of : Json F → Option String
  marker_of marker = if is_truthy marker then some (to_str marker) else none

  abbrev pub with_pagination :
      List (Fields F) → Option (Fields F) → Result PageError (List (Fields F) × Option String)
  with_pagination items none = err no_dict
  with_pagination items (some pagination) = ok (items, marker_of (get "marker" pagination))

  abbrev pub items_of : Fields F → Json F → Result PageError (List (Fields F) × Option String)
  items_of payload (arr xs) = with_pagination (dicts xs) (dict_or_empty (get "pagination" payload))
  items_of payload _ = err no_data_list

  -- The items of one page, and the marker of the next one.
  unfoldable pub page_of :
      Result PageError (Fields F) → Result PageError (List (Fields F) × Option String)
  page_of (err e) = err e
  page_of (ok payload) = items_of payload (get "data" payload)

  -- What a page comes to: an exception, the last page's items, or the next request.
  abbrev pub after_page :
      List (Fields F)
      → (String → List (Fields F) → Option (Result PageError (List (Fields F))))
      → Result PageError (List (Fields F) × Option String)
      → Option (Result PageError (List (Fields F)))
  after_page items next (err e) = some (err e)
  after_page items next (ok (page, none)) = some (ok (items ++ page))
  after_page items next (ok (page, some marker)) = next marker (items ++ page)

  -- The loop of `_get_all_pages`: the fuel is the number of requests, and `none` is that it ran out.
  unfoldable pub get_all_pages :
      (Dict String String → Result PageError (Fields F))
      → Dict String String
      → ℕ
      → Option String
      → List (Fields F)
      → Option (Result PageError (List (Fields F)))
  get_all_pages fetch params zero marker items = none
  get_all_pages fetch params (suc fuel) marker items =
      after_page items (λ m xs. get_all_pages fetch params fuel (some m) xs)
        (page_of (fetch (page_params params marker)))
