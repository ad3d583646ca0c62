-- ===== src/Examples/Fetching.antt =====
-- The theorems on the cluster client, at concrete inputs.
use kubetee_subnet.Base.{
  String, ◌≡◌, refl, none, some, [], ◌∷◌, string_eq, if◌then◌else◌, Result, ok, arith,
}
use kubetee_subnet.Text.{strip}
use kubetee_subnet.Dict.{Dict, contains}
use kubetee_subnet.Float.Rational.{Fraction, fraction_float}
use kubetee_subnet.Json.{str, obj, arr, nil, cons, Fields, end, field, to_str}
use kubetee_subnet.Proxy.{Handled, nodes_route, nodes, ok_with, handle, client_version_allowed}
use kubetee_subnet.Base.{ℕ, true}
use kubetee_subnet.Client.{Signer, signed_message}
use kubetee_subnet.Client.Served.{IsTrusted, request_of, handle-request_of}
use kubetee_subnet.Client.{PageError, page_params, page_of, get_all_pages}
use kubetee_subnet.Client.Pages.{
  Serves, last, more, IsWhole, get_all_pages-Serves, get_all_pages-IsWhole,
}
use kubetee_subnet.Client.Signing.{IsUnderstood, params_of, page_params-IsUnderstood}
use kubetee_subnet.Examples.Serving.{server}

abbrev cluster : String → Fields Fraction
cluster id = field "id" (str id) end

-- Two pages: the first one carries the marker of the second.
abbrev fetch : Dict String String → Result PageError (Fields Fraction)
fetch query =
    if contains "marker" query
    then ok (field "data" (arr (cons (obj (cluster "c-2")) nil)) end)
    else ok (
        field "data" (arr (cons (obj (cluster "c-1")) nil))
          (field "pagination" (obj (field "marker" (str "m") end)) end))

served : Serves fetch [] none ((cluster "c-1" ∷ []) ∷ (cluster "c-2" ∷ []) ∷ [])
unfolding page_of to_str
served = more (cluster "c-1" ∷ []) "m" refl (last (cluster "c-2" ∷ []) refl)

get_all_pages-Serves_example :
    get_all_pages fetch [] 5 none [] ≡ some (ok (cluster "c-1" ∷ cluster "c-2" ∷ []))
get_all_pages-Serves_example =
    get_all_pages-Serves fetch [] 5 none [] ((cluster "c-1" ∷ []) ∷ (cluster "c-2" ∷ []) ∷ [])
      served (omega arith)

fetched : get_all_pages fetch [] 2 none [] ≡ some (ok (cluster "c-1" ∷ cluster "c-2" ∷ []))
unfolding get_all_pages page_of to_str
fetched = refl

get_all_pages-IsWhole_example : IsWhole fetch [] none [] (cluster "c-1" ∷ cluster "c-2" ∷ [])
get_all_pages-IsWhole_example =
    get_all_pages-IsWhole fetch [] 2 none [] (cluster "c-1" ∷ cluster "c-2" ∷ []) fetched

filled : strip "c-1" ≡ "c-1"
unfolding strip
filled = refl

page_params-IsUnderstood_example :
    IsUnderstood server nodes_route "/v3/nodes" "990"
      (page_params (params_of nodes_route "c-1") (some "m"))
page_params-IsUnderstood_example =
    page_params-IsUnderstood server nodes_route "/v3/nodes" "990" "c-1" (some "m") (rw filled refl)

abbrev signer : Signer
signer = record {
  token = "";
  address = "5Reader";
  sign_hex = λ message. "ab";
  ts = "990";
  version = "1.4.0";
}

stripped : strip "ab" ≡ "ab"
unfolding strip
stripped = refl

trusted : (message : String) → IsTrusted server signer message
unfolding client_version_allowed
trusted message = record {
  miners = record { uid = 3; hotkey = "5Reader"; is_validator = true } ∷ [];
  m = record { uid = 3; hotkey = "5Reader"; is_validator = true };
  sig = "ab";
  is_reader = refl;
  given = refl;
  timely = refl;
  known = refl;
  found = refl;
  validator = refl;
  decoded = rw stripped refl;
  verified = refl;
  allowed = refl;
}

abbrev two_nodes : Handled ℕ
two_nodes = record { reply = ok_with 2; calls = nodes "c-1" ∷ [] }

handle-request_of_example :
    handle server
      (request_of server signer nodes_route (page_params (params_of nodes_route "c-1") none))
    ≡ two_nodes
handle-request_of_example =
    handle-request_of server signer nodes_route "c-1" none (rw filled refl) (
      trusted (
        signed_message "/v3/nodes"
          (server.urlencode (page_params (params_of nodes_route "c-1") none)) "990"))
