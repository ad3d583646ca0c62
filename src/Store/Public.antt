-- ===== src/Store/Public.antt =====
-- A PUT of validator/hippius_store.py, as a server checks it by the definition of AWS Signature Version 4.
-- What the server computes is written out here, apart from the client's functions.
use Prim.Native.String.{◌++◌}
use Prim.Native.Char.{code}
use kubetee_subnet.Base.{
  ℕ, ◌/◌, ◌%◌, ◌≡◌, refl, ap, zero, suc, Bool, true, ◌||◌, ◌&&◌, leb, some, List, [], ◌∷◌, String,
  string_eq, nat_eq, ◌==◌, if◌then◌else◌, Bool-cases, inl, inr,
}
use kubetee_subnet.Dict.{Dict, get_or, lookup}
use kubetee_subnet.Store.{Crypto, PutRequest, put, object_url, signature_key}

-- The characters that a path keeps as they are: letters, digits, `-`, `.`, `_`, `~` and the slash.
abbrev pub is_unreserved : ℕ → Bool
is_unreserved c =
    leb 48 c && leb c 57
    || leb 65 c && leb c 90
    || leb 97 c && leb c 122
    || c == 45
    || c == 46
    || c == 47
    || c == 95
    || c == 126

abbrev nth_digit : ℕ → String → String
nth_digit n String.[] = ""
nth_digit zero (String.◌∷◌ c s) = String.◌∷◌ c ""
nth_digit (suc n) (String.◌∷◌ c s) = nth_digit n s

-- `%XX`
abbrev percent : ℕ → String
percent c = "%" ++ nth_digit (c / 16) "0123456789ABCDEF" ++ nth_digit (c % 16) "0123456789ABCDEF"

-- The encoding of a path, for ASCII text.
abbrev pub uri_encode : String → String
uri_encode String.[] = ""
uri_encode (String.◌∷◌ c s) =
    let rest = uri_encode s in
    if is_unreserved (code c) then String.◌∷◌ c rest else percent (code c) ++ rest

-- A key that needs no encoding.
abbrev pub is_plain : String → Bool
is_plain String.[] = true
is_plain (String.◌∷◌ c s) = is_unreserved (code c) && is_plain s

uri_encode-plain : (key : String) → is_plain key ≡ true → uri_encode key ≡ key
uri_encode-plain String.[] h = refl
uri_encode-plain (String.◌∷◌ c s) h = elim (Bool-cases (is_unreserved (code c))) [
  | inl e ↦ rw e (ap (λ t. String.◌∷◌ c t) (uri_encode-plain s (rw e at h)))
  | inr e ↦ cc (rw e at h)
]

-- Parts with a separator between them.
abbrev pub between : String → List String → String
between sep [] = ""
between sep (part ∷ []) = part
between sep (part ∷ next ∷ parts) = part ++ sep ++ between sep (next ∷ parts)

-- `name:value` and a line feed for each header.
abbrev pub canonical_headers : List String → Dict String String → String
canonical_headers [] headers = ""
canonical_headers (name ∷ names) headers =
    name ++ ":" ++ get_or name headers "" ++ "\n" ++ canonical_headers names headers

-- The headers that the client signs, in the order of their names.
abbrev pub signed_names : List String
signed_names = "content-type" ∷ "host" ∷ "x-amz-acl" ∷ "x-amz-content-sha256" ∷ "x-amz-date" ∷ []

abbrev pub scope_of : String → String
scope_of date_stamp = date_stamp ++ "/" ++ "auto" ++ "/" ++ "s3" ++ "/aws4_request"

module _ {B : Type 0} (crypto : Crypto B) where
  -- The method, the path, the empty query, the headers, their names and the hash of the body that arrived.
  abbrev pub seen_request : String → Dict String String → B → String
  seen_request path headers payload = between "\n" (
      "PUT"
      ∷ ("/" ++ "kubetee-validator" ++ "/" ++ path)
      ∷ ""
      ∷ canonical_headers signed_names headers
      ∷ between ";" signed_names
      ∷ crypto.hex (crypto.sha256 payload)
      ∷ [])

  -- HMAC(HMAC(HMAC(HMAC("AWS4" + secret, date), "auto"), "s3"), "aws4_request")
  abbrev pub derived_key : String → String → B
  derived_key secret_key date_stamp =
      let date_key = crypto.hmac (crypto.utf8 ("AWS4" ++ secret_key)) (crypto.utf8 date_stamp) in
      let region_key = crypto.hmac date_key (crypto.utf8 "auto") in
      let service_key = crypto.hmac region_key (crypto.utf8 "s3") in
      crypto.hmac service_key (crypto.utf8 "aws4_request")

  abbrev pub seen_signature : String → String → String → Dict String String → B → String
  seen_signature secret_key date_stamp path headers payload = crypto.hex (
      crypto.hmac (derived_key secret_key date_stamp) (
        crypto.utf8 (
          between "\n" (
            "AWS4-HMAC-SHA256"
            ∷ get_or "x-amz-date" headers ""
            ∷ scope_of date_stamp
            ∷ crypto.hex (crypto.sha256 (crypto.utf8 (seen_request path headers payload)))
            ∷ []))))

  -- The request is for an object of the pinned bucket and asks for public reading, the hash that it
  -- declares is that of the body, its time is of the day of its scope, and the signature is the one that
  -- the server computes.
  pub record IsPublicPut (access_key secret_key date_stamp time key : String) (r : PutRequest B)
      : Type 0 where
    pub url : r.url ≡ "https://" ++ "s3.hippius.com" ++ "/" ++ "kubetee-validator" ++ "/" ++ key
    pub host : lookup "host" r.headers ≡ some "s3.hippius.com"
    pub public : lookup "x-amz-acl" r.headers ≡ some "public-read"
    pub hashed :
        lookup "x-amz-content-sha256" r.headers ≡ some (crypto.hex (crypto.sha256 r.payload))
    pub dated : lookup "x-amz-date" r.headers ≡ some (date_stamp ++ "T" ++ time ++ "Z")
    pub authorized :
        lookup "Authorization" r.headers
        ≡ some (
            "AWS4-HMAC-SHA256 Credential="
            ++ access_key
            ++ "/"
            ++ scope_of date_stamp
            ++ ", SignedHeaders="
            ++ between ";" signed_names
            ++ ", Signature="
            ++ seen_signature secret_key date_stamp (uri_encode key) r.headers r.payload)

  -- Every PUT under a key of unreserved characters and slashes is one that a server accepts by Signature
  -- Version 4, and that leaves the object of the pinned bucket public, whatever is written and whenever.
  -- The path is signed as it stands, so other keys are left out.
  pub put-IsPublicPut :
      (access_key secret_key date_stamp time key : String) (payload : B) (content_type : String)
      → is_plain key ≡ true
      → IsPublicPut access_key secret_key date_stamp time key (
          put crypto access_key secret_key
            (date_stamp ++ "T" ++ time ++ "Z")
            date_stamp
            key
            payload
            content_type)
  unfolding put object_url signature_key
  put-IsPublicPut access_key secret_key date_stamp time key payload content_type plain = record {
    url = refl;
    host = refl;
    public = refl;
    hashed = refl;
    dated = refl;
    authorized = rw (uri_encode-plain key plain) refl;
  }
