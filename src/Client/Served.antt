-- ===== src/Client/Served.antt =====
-- A reader's request of validator/rancher_client.py at the proxy of validator/rancher_proxy.py.
use kubetee_subnet.Base.{
  ◌≡◌, refl, true, false, ◌||◌, Option, none, some, List, [], ◌∷◌, String, string_eq, ◌==◌, or_else,
}
use kubetee_subnet.Text.{strip}
use kubetee_subnet.Dict.{Dict, lookup}
use kubetee_subnet.Epoch.{Miner}
use kubetee_subnet.Proxy.{
  Server, Request, Handled, Route, clusters_route, nodes_route, clusters, nodes, reply_of,
  is_timely, find_miner, client_version_allowed, verify_hotkey_with_msg, handle,
}
use kubetee_subnet.Client.{Signer, page_params, signed_message, auth_headers, get_headers}
use kubetee_subnet.Client.Signing.{params_of, singles}

abbrev pub path_of : Route → String
path_of clusters_route = "/v3/clusters"
path_of nodes_route = "/v3/nodes"

abbrev pub header_in : Dict String String → String → String
header_in headers name = or_else (lookup name headers) ""

module _ {P : Type 0} (srv : Server P) where
  -- The request for a page, its query parsed to one value for each parameter.
  abbrev pub request_of : Signer → Route → Dict String String → Request
  request_of s route params = record {
    method = "GET";
    path = path_of route;
    query = singles params;
    header = header_in (get_headers s (path_of route) (srv.urlencode params));
  }

  abbrev pub upstream_answer : Route → String → Handled P
  upstream_answer clusters_route id = record {
    reply = reply_of srv srv.list_clusters;
    calls = clusters ∷ [];
  }
  upstream_answer nodes_route id = record {
    reply = reply_of srv (srv.list_nodes id);
    calls = nodes id ∷ [];
  }

  -- A reader with a validator's hotkey, whose signature of the message verifies, whose clock is right and
  -- whose version is let in.
  pub record IsTrusted (s : Signer) (message : String) : Type 0 where
    pub miners : List Miner
    pub m : Miner
    pub sig : String
    pub is_reader : s.token ≡ ""
    pub given : (s.address == "" || s.sign_hex message == "" || s.ts == "") ≡ false
    pub timely : is_timely srv (srv.parse_int s.ts) ≡ true
    pub known : srv.metagraph ≡ some miners
    pub found : find_miner s.address miners ≡ some m
    pub validator : m.is_validator ≡ true
    pub decoded : srv.from_hex (strip (s.sign_hex message)) ≡ some sig
    pub verified : srv.verify_sr25519 message sig s.address ≡ true
    pub allowed : client_version_allowed srv.min_version (strip s.version) ≡ true

  verify_lem :
      (s : Signer) (message : String)
      → IsTrusted s message
      → verify_hotkey_with_msg srv s.address (s.sign_hex message) s.ts message ≡ true
  unfolding verify_hotkey_with_msg
  verify_lem s message t =
      rw (t.given, t.timely, t.known, t.found, t.validator, t.decoded, t.verified) refl

  -- A reader's request for a page of the clusters, or of the nodes of a cluster whose id is not blank,
  -- is served: the proxy makes the one upstream call for it and passes on what that gives, if the reader
  -- signs with the hotkey of a validator of the metagraph, its signature verifies, its clock is within
  -- 60 s and its version is let in.
  pub handle-request_of :
      (s : Signer) (route : Route) (id : String) (marker : Option String)
      → (strip id == "") ≡ false
      → IsTrusted s (
          signed_message
            (path_of route)
            (srv.urlencode (page_params (params_of route id) marker))
            s.ts)
      → handle srv (request_of s route (page_params (params_of route id) marker))
        ≡ upstream_answer route id
  unfolding handle auth_headers
  handle-request_of s clusters_route id none h t =
      rw (t.is_reader, verify_lem s _ t, t.allowed) refl
  handle-request_of s clusters_route id (some k) h t =
      rw (t.is_reader, verify_lem s _ t, t.allowed) refl
  handle-request_of s nodes_route id none h t =
      rw (t.is_reader, h, verify_lem s _ t, t.allowed) refl
  handle-request_of s nodes_route id (some k) h t =
      rw (t.is_reader, h, verify_lem s _ t, t.allowed) refl
