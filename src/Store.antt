-- ===== src/Store.antt =====
-- validator/hippius_store.py: the object store of the publisher. Bytes, SHA-256 and HMAC are parameters; a
-- request is what `urlopen` gets, and a reply is what it came to.
pub mod Public
use Prim.Native.String.{◌++◌}
use kubetee_subnet.Base.{
  Option, none, some, List, [], ◌∷◌, String, string_eq, if◌then◌else◌, Result, ok, err, ◌>>=◌,
}
use kubetee_subnet.Text.{is_before}
use kubetee_subnet.Dict.{Dict, get_or, keys, insert}
use kubetee_subnet.Json.{Json, Fields, as_obj}
use kubetee_subnet.PriceFeed.{Response, url_error, other_failure, body}

-- HippiusError, or any other exception.
pub data StoreError : Type 0 where
  hippius_error : StoreError
  other_exception : StoreError

abbrev pub default_bucket : String
default_bucket = "kubetee-validator"

abbrev pub store_host : String
store_host = "s3.hippius.com"

abbrev pub region : String
region = "auto"

abbrev pub service : String
service = "s3"

unfoldable pub object_url : String → String
object_url key = "https://" ++ store_host ++ "/" ++ default_bucket ++ "/" ++ key

abbrev pub object_or_error : {A : Type 0} → Option A → Result StoreError A
object_or_error none = err hippius_error
object_or_error (some fs) = ok fs

-- `_get_public`, on the reply; an HTTPError is a URLError.
unfoldable pub get_public : {F : Type 0} → Response F → Result StoreError (Fields F)
get_public url_error = err hippius_error
get_public other_failure = err other_exception
get_public (body none) = err hippius_error
get_public (body (some payload)) = object_or_error (as_obj payload)

abbrev pub or_nothing : {A : Type 0} → Result StoreError A → Result StoreError (Option A)
or_nothing (ok fs) = ok (some fs)
or_nothing (err hippius_error) = ok none
or_nothing (err other_exception) = err other_exception

unfoldable pub fetch_published_payout :
    {F : Type 0} → Response F → Result StoreError (Option (Fields F))
unfolding get_public
fetch_published_payout reply = or_nothing (get_public reply)

abbrev pub place_name : String → List String → List String
place_name k [] = k ∷ []
place_name k (j ∷ names) =
    let later = place_name k names in if is_before k j then k ∷ j ∷ names else j ∷ later

-- `sorted(names)`
abbrev pub sorted_names : List String → List String
sorted_names [] = []
sorted_names (k ∷ names) = place_name k (sorted_names names)

-- `sep.join(parts)`
abbrev pub join : String → List String → String
join sep [] = ""
join sep (part ∷ []) = part
join sep (part ∷ next ∷ parts) = part ++ sep ++ join sep (next ∷ parts)

-- `"".join(f"{k}:{headers[k]}\n" for k in names)`
abbrev pub header_lines : Dict String String → List String → String
header_lines headers [] = ""
header_lines headers (k ∷ names) =
    k ++ ":" ++ get_or k headers "" ++ "\n" ++ header_lines headers names

pub record Crypto (B : Type 0) : Type 0 where
  pub utf8 : String → B
  pub hex : B → String
  pub sha256 : B → B
  pub hmac : B → B → B

pub record PutRequest (B : Type 0) : Type 0 where
  pub url : String
  pub headers : Dict String String
  pub payload : B

module _ {B : Type 0} (crypto : Crypto B) where
  -- `_sign`
  abbrev pub sign : B → String → B
  sign key message = crypto.hmac key (crypto.utf8 message)

  unfoldable pub signature_key : String → String → String → String → B
  signature_key secret date region_name service_name =
      sign (sign (sign (sign (crypto.utf8 ("AWS4" ++ secret)) date) region_name) service_name)
        "aws4_request"

  -- `_hmac_hex`
  abbrev pub hmac_hex : B → String → String
  hmac_hex key message = crypto.hex (sign key message)

  abbrev pub signed_dict : String → String → String → Dict String String
  signed_dict content_type body_sha256 amz_date =
      ("content-type", content_type)
      ∷ ("host", store_host)
      ∷ ("x-amz-acl", "public-read")
      ∷ ("x-amz-content-sha256", body_sha256)
      ∷ ("x-amz-date", amz_date)
      ∷ []

  abbrev pub canonical_request : String → Dict String String → String → String
  canonical_request key headers body_sha256 = join "\n" (
      "PUT"
      ∷ ("/" ++ default_bucket ++ "/" ++ key)
      ∷ ""
      ∷ header_lines headers (sorted_names (keys headers))
      ∷ join ";" (sorted_names (keys headers))
      ∷ body_sha256
      ∷ [])

  abbrev pub credential_scope : String → String
  credential_scope date_stamp = date_stamp ++ "/" ++ region ++ "/" ++ service ++ "/aws4_request"

  abbrev pub string_to_sign : String → String → String → String
  string_to_sign amz_date date_stamp request = join "\n" (
      "AWS4-HMAC-SHA256"
      ∷ amz_date
      ∷ credential_scope date_stamp
      ∷ crypto.hex (crypto.sha256 (crypto.utf8 request))
      ∷ [])

  abbrev pub authorization : String → String → List String → String → String
  authorization access_key date_stamp names signature =
      "AWS4-HMAC-SHA256 Credential="
      ++ access_key
      ++ "/"
      ++ credential_scope date_stamp
      ++ ", SignedHeaders="
      ++ join ";" names
      ++ ", Signature="
      ++ signature

  -- `_put`, at the time that `amz_date` and `date_stamp` are of.
  unfoldable pub put : String → String → String → String → String → B → String → PutRequest B
  unfolding signature_key object_url
  put access_key secret_key amz_date date_stamp key payload content_type =
      let body_sha256 = crypto.hex (crypto.sha256 payload) in
      let headers = signed_dict content_type body_sha256 amz_date in
      let request = canonical_request key headers body_sha256 in
      let signature =
        hmac_hex (signature_key secret_key date_stamp region service)
          (string_to_sign amz_date date_stamp request) in
      record {
        url = object_url key;
        headers = insert "User-Agent" "kubetee-validator/0.1" (
            insert "Authorization"
              (authorization access_key date_stamp (sorted_names (keys headers)) signature)
              headers);
        payload = payload;
      }
