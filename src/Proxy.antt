-- ===== src/Proxy.antt =====
-- The read-only proxy of validator/rancher_proxy.py: `_handle`, `_client_version_allowed` and
-- `_verify_hotkey_with_msg`. The URL parser, `int`, `bytes.fromhex`, sr25519 and the upstream client are
-- parameters, and logging is left out.
pub mod Signed
pub mod Gate
use kubetee_subnet.Base.{
  ℤ, pos, negsuc, ℕ, suc, ◌+◌, ◌-◌, ltb, Bool, true, false, not, ◌&&◌, ◌||◌, Option, none, some,
  List, [], ◌∷◌, ◌++◌, String, string_eq, ◌==◌, if◌then◌else◌, any, is_empty, filter,
}
use kubetee_subnet.Text.{append, strip}
use kubetee_subnet.Dict.{Dict, keys, lookup, insert}
use kubetee_subnet.Epoch.{Miner}
use kubetee_subnet.Version.{version_at_least}

-- A request, its URL and query parsed. `header name` is `self.headers.get(name, "")`.
pub record Request : Type 0 where
  pub method : String
  pub path : String
  pub query : Dict String (List String)
  pub header : String → String

-- What the server relies on.
pub record Server (P : Type 0) : Type 0 where
  -- `KUBETEE_PROXY_MIN_VERSION`, stripped
  pub min_version : String
  pub now : ℕ
  pub parse_int : String → Option ℤ
  -- `none` where `chain.metagraph` raises
  pub metagraph : Option (List Miner)
  pub from_hex : String → Option String
  -- message, signature, address
  pub verify_sr25519 : String → String → String → Bool
  pub urlencode : Dict String String → String
  -- `none` where the upstream client raises
  pub list_clusters : Option P
  pub list_nodes : String → Option P

-- A call of the upstream client.
pub data Call : Type 0 where
  clusters : Call
  nodes : String → Call

pub data Reply (P : Type 0) : Type 0 where
  forbidden : Reply P
  -- http.server's 501, for a method that the handler has no `do_` for.
  not_implemented : Reply P
  bad_gateway : Reply P
  ok_with : P → Reply P

-- The reply, and the upstream calls that were made for it.
pub record Handled (P : Type 0) : Type 0 where
  pub reply : Reply P
  pub calls : List Call

-- `(required, optional)` of a path in `_ALLOWLIST`; "" is the None of a path without one.
pub data Route : Type 0 where
  clusters_route : Route
  nodes_route : Route

abbrev pub allowlist : Dict String Route
allowlist = ("/v3/clusters", clusters_route) ∷ ("/v3/nodes", nodes_route) ∷ []

abbrev pub rejected_methods : List String
rejected_methods = "POST" ∷ "PUT" ∷ "DELETE" ∷ "PATCH" ∷ []

abbrev pub optional : List String
optional = "limit" ∷ "marker" ∷ []

abbrev pub required : Route → Option String
required clusters_route = none
required nodes_route = some "clusterId"

-- `query.get(key)[0]`, where there is one.
abbrev pub first_value : String → Dict String (List String) → Option String
first_value key query = elim (lookup key query) [
  | none ↦ none
  | some [] ↦ none
  | some (v ∷ vs) ↦ some v
]

abbrev pub keep_required : String → Option String → Option (Dict String String)
keep_required key none = none
keep_required key (some v) = if strip v == "" then none else some ((key, v) ∷ [])

-- `clean_query` with what is required: `none` is the 403.
abbrev pub clean_required : Option String → Dict String (List String) → Option (Dict String String)
clean_required none query = some []
clean_required (some key) query = keep_required key (first_value key query)

abbrev pub add_found : String → Option String → Dict String String → Dict String String
add_found key none clean = clean
add_found key (some v) clean = insert key v clean

abbrev pub clean_optional :
    List String → Dict String (List String) → Dict String String → Dict String String
clean_optional [] query clean = clean
clean_optional (key ∷ ks) query clean =
    clean_optional ks query (add_found key (first_value key query) clean)

abbrev pub is_known : Route → String → Bool
is_known clusters_route key = any (λ k. k == key) optional
is_known nodes_route key = key == "clusterId" || any (λ k. k == key) optional

-- `_client_version_allowed`
unfoldable pub client_version_allowed : String → String → Bool
client_version_allowed minimum client = minimum == "" || version_at_least client minimum

-- `abs(now - ts) > 60`
abbrev pub is_outside : ℕ → ℤ → Bool
is_outside now (pos ts) = ltb 60 ((now - ts) + (ts - now))
is_outside now (negsuc n) = ltb 60 (now + suc n)

-- `next((m for m in miners if m.hotkey == hotkey), None)`
abbrev pub find_miner : String → List Miner → Option Miner
find_miner hotkey [] = none
find_miner hotkey (m ∷ ms) =
    let rest = find_miner hotkey ms in if m.hotkey == hotkey then some m else rest

module _ {P : Type 0} (srv : Server P) where
  abbrev pub verifies : String → String → Option String → Bool
  verifies hotkey auth_msg none = false
  verifies hotkey auth_msg (some sig) = srv.verify_sr25519 auth_msg sig hotkey

  abbrev pub signed_by : String → String → String → Option Miner → Bool
  signed_by hotkey signature_hex auth_msg none = false
  signed_by hotkey signature_hex auth_msg (some m) =
      m.is_validator && verifies hotkey auth_msg (srv.from_hex (strip signature_hex))

  abbrev pub signed_among : String → String → String → Option (List Miner) → Bool
  signed_among hotkey signature_hex auth_msg none = false
  signed_among hotkey signature_hex auth_msg (some miners) =
      signed_by hotkey signature_hex auth_msg (find_miner hotkey miners)

  abbrev pub is_timely : Option ℤ → Bool
  is_timely none = false
  is_timely (some ts) = not (is_outside srv.now ts)

  -- `_verify_hotkey_with_msg`
  unfoldable pub verify_hotkey_with_msg : String → String → String → String → Bool
  verify_hotkey_with_msg hotkey signature_hex ts_raw auth_msg =
      not (hotkey == "" || signature_hex == "" || ts_raw == "")
      && is_timely (srv.parse_int ts_raw)
      && signed_among hotkey signature_hex auth_msg srv.metagraph

  -- `f"{path}\n{urlencode(clean_query)}\n{ts_raw}"`
  abbrev pub message_of : String → Dict String String → String → String
  message_of path clean ts_raw =
      append path (append "\n" (append (srv.urlencode clean) (append "\n" ts_raw)))

  abbrev pub reply_of : Option P → Reply P
  reply_of none = bad_gateway
  reply_of (some payload) = ok_with payload

  -- `clean_query["clusterId"]` is inside the try.
  abbrev pub forward_nodes : Option String → Handled P
  forward_nodes none = record { reply = bad_gateway; calls = [] }
  forward_nodes (some id) = record { reply = reply_of (srv.list_nodes id); calls = nodes id ∷ [] }

  abbrev pub forward : Route → Dict String String → Handled P
  forward clusters_route clean = record {
    reply = reply_of srv.list_clusters;
    calls = clusters ∷ [];
  }
  forward nodes_route clean = forward_nodes (lookup "clusterId" clean)

  abbrev pub denied : Handled P
  denied = record { reply = forbidden; calls = [] }

  abbrev pub is_authentic : Request → Dict String String → Bool
  is_authentic r clean =
      verify_hotkey_with_msg (r.header "BT-Validator-Hotkey") (r.header "BT-Validator-Signature")
        (r.header "BT-Validator-Ts") (message_of r.path clean (r.header "BT-Validator-Ts"))

  -- The request past the query checks.
  abbrev pub authorise : Request → Route → Dict String String → Handled P
  authorise r route clean =
      if not (is_authentic r clean)
      then denied
      else if not (client_version_allowed srv.min_version (strip (r.header "BT-Validator-Version")))
      then denied
      else forward route clean

  abbrev pub check_query : Request → Route → Option (Dict String String) → Handled P
  check_query r route none = denied
  check_query r route (some clean) =
      if is_empty (filter (λ k. not (is_known route k)) (keys r.query))
      then authorise r route (clean_optional optional r.query clean)
      else denied

  abbrev pub check_path : Request → Option Route → Handled P
  check_path r none = denied
  check_path r (some route) = check_query r route (clean_required (required route) r.query)

  abbrev pub unsupported : Handled P
  unsupported = record { reply = not_implemented; calls = [] }

  -- `do_GET`, through `_handle`, and the `do_` of the rejected methods, through `_reject_method`
  unfoldable pub handle : Request → Handled P
  handle r =
      if r.method == "GET"
      then check_path r (lookup r.path allowlist)
      else if any (λ m. m == r.method) rejected_methods
      then denied
      else unsupported
