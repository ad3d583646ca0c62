-- ===== src/Client/Signing.antt =====
-- A reader's requests in validator/rancher_client.py, as the proxy of validator/rancher_proxy.py takes them.
use kubetee_subnet.Base.{
  ◌≡◌, refl, true, false, not, Option, none, some, List, [], ◌∷◌, String, string_eq, ◌==◌, filter,
  is_empty,
}
use kubetee_subnet.Text.{strip}
use kubetee_subnet.Dict.{Dict, keys, map_values}
use kubetee_subnet.Proxy.{
  Server, Route, clusters_route, nodes_route, optional, required, clean_required, clean_optional,
  is_known, message_of,
}
use kubetee_subnet.Client.{page_params, signed_message}

-- The parameters of `list_clusters` and `list_nodes`.
abbrev pub params_of : Route → String → Dict String String
params_of clusters_route id = []
params_of nodes_route id = ("clusterId", id) ∷ []

-- A query whose parameters have one value each, as it is parsed.
abbrev pub singles : Dict String String → Dict String (List String)
singles params = map_values (λ v. v ∷ []) params

module _ {P : Type 0} (srv : Server P) where
  -- The proxy takes the query, and the message that it checks is the one that the client signed.
  pub record IsUnderstood (route : Route) (path ts : String) (params : Dict String String)
      : Type 0 where
    pub clean : Dict String String
    pub taken : clean_required (required route) (singles params) ≡ some clean
    pub known : is_empty (filter (λ k. not (is_known route k)) (keys (singles params))) ≡ true
    pub same :
        message_of srv path (clean_optional optional (singles params) clean) ts
        ≡ signed_message path (srv.urlencode params) ts

  -- The proxy understands each request of a reader for a page of the clusters, or of the nodes of a
  -- cluster whose id is not blank: it lets the query through, and it checks the signature of the very
  -- message that the reader signed, if each parameter is parsed to its one value.
  pub page_params-IsUnderstood :
      (route : Route) (path ts id : String) (marker : Option String)
      → (strip id == "") ≡ false
      → IsUnderstood route path ts (page_params (params_of route id) marker)
  page_params-IsUnderstood clusters_route path ts id none h = record {
    clean = [];
    taken = refl;
    known = refl;
    same = refl;
  }
  page_params-IsUnderstood clusters_route path ts id (some m) h = record {
    clean = [];
    taken = refl;
    known = refl;
    same = refl;
  }
  page_params-IsUnderstood nodes_route path ts id none h = record {
    clean = ("clusterId", id) ∷ [];
    taken = rw h refl;
    known = refl;
    same = refl;
  }
  page_params-IsUnderstood nodes_route path ts id (some m) h = record {
    clean = ("clusterId", id) ∷ [];
    taken = rw h refl;
    known = refl;
    same = refl;
  }
