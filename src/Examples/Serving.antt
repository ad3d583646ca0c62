-- ===== src/Examples/Serving.antt =====
-- The theorems on the proxy and on versions, at concrete inputs.
use kubetee_subnet.Base.{
  pos, pos, ℕ, String, ◌≡◌, refl, true, some, [], ◌∷◌, string_eq, ◌==◌, if◌then◌else◌,
}
use kubetee_subnet.Text.{strip}
use kubetee_subnet.Version.{parse_semver, more_digits, version_at_least}
use kubetee_subnet.Proxy.{Request, Server, handle}
use kubetee_subnet.Proxy.Gate.{Outcome, handle-IsAdmitted}

newer : version_at_least "1.10.0" "v1.9.4" ≡ true
unfolding version_at_least parse_semver more_digits strip
newer = refl

older : version_at_least "v1.9.4" "1.3.4" ≡ true
unfolding version_at_least parse_semver more_digits strip
older = refl

abbrev pub server : Server ℕ
server = record {
  min_version = "";
  now = 1000;
  parse_int = λ s. some (pos 990);
  metagraph = some (record { uid = 3; hotkey = "5Reader"; is_validator = true } ∷ []);
  from_hex = λ s. some s;
  verify_sr25519 = λ message sig hotkey. sig == "ab";
  urlencode = λ q. "clusterId=c-1";
  list_clusters = some 1;
  list_nodes = λ id. some 2;
}

abbrev header_of : String → String
header_of name =
    if name == "BT-Validator-Hotkey"
    then "5Reader"
    else if name == "BT-Validator-Signature"
    then "ab"
    else if name == "BT-Validator-Ts"
    then "990"
    else ""

abbrev request : Request
request = record {
  method = "GET";
  path = "/v3/nodes";
  query = ("clusterId", "c-1" ∷ []) ∷ [];
  header = header_of;
}

handle-IsAdmitted_example : Outcome server request (handle server request)
handle-IsAdmitted_example = handle-IsAdmitted server request
