-- ===== src/Proxy/Gate.antt =====
-- What the proxy of validator/rancher_proxy.py lets through to the upstream client.
use kubetee_subnet.Base.{
  ◌≡◌, refl, sym, ap, ◌∙◌, ◌⊎◌, inl, inr, true, false, not, Option, none, some, List, [], ◌∷◌,
  String, string_eq, ◌==◌, All, filter, is_empty, any, Bool-cases,
}
use kubetee_subnet.Text.{strip}
use kubetee_subnet.Dict.{Dict, keys, lookup}
use kubetee_subnet.Proxy.{
  Request, Server, Call, clusters, nodes, forbidden, not_implemented, rejected_methods, Handled,
  Route, clusters_route, nodes_route, allowlist, required, clean_required, optional, first_value,
  clean_optional, is_known, client_version_allowed, keep_required, add_found, forward_nodes,
  message_of, forward, is_authentic, authorise, check_query, handle,
}
use kubetee_subnet.Proxy.Signed.{IsSigned, verify-IsSigned}

-- A key that no filter keeps.
All-is_known :
    (route : Route) (ks : List String)
    → is_empty (filter (λ k. not (is_known route k)) ks) ≡ true
    → All (λ k. is_known route k ≡ true) ks
All-is_known route [] h = tt
All-is_known route (k ∷ ks) h = elim (Bool-cases (is_known route k)) [
  | inl e ↦ (e, All-is_known route ks (rw e at h))
  | inr e ↦ cc (rw e at h)
]

clean-cluster_id :
    (id : String) (limit marker : Option String)
    → lookup "clusterId"
        (add_found "marker" marker (add_found "limit" limit (("clusterId", id) ∷ [])))
      ≡ some id
clean-cluster_id id none none = refl
clean-cluster_id id (some l) none = refl
clean-cluster_id id none (some m) = refl
clean-cluster_id id (some l) (some m) = refl

-- The upstream call that a request asks for.
abbrev pub Asks : Request → Call → Type 0
Asks r clusters = r.path ≡ "/v3/clusters"
Asks r (nodes id) =
    (r.path ≡ "/v3/nodes")
    × (first_value "clusterId" r.query ≡ some id)
    × ((strip id == "") ≡ false)

module _ {P : Type 0} (srv : Server P) where
  -- A request that makes an upstream call.
  pub record IsAdmitted (r : Request) (call : Call) : Type 0 where
    pub route : Route
    pub base : Dict String String
    pub listed : lookup r.path allowlist ≡ some route
    pub taken : clean_required (required route) r.query ≡ some base
    pub get : r.method ≡ "GET"
    pub asks : Asks r call
    pub known : All (λ k. is_known route k ≡ true) (keys r.query)
    pub signed :
        IsSigned srv
          (r.header "BT-Validator-Hotkey")
          (r.header "BT-Validator-Signature")
          (r.header "BT-Validator-Ts")
          (message_of srv r.path
            (clean_optional optional r.query base)
            (r.header "BT-Validator-Ts"))
    pub recent :
        client_version_allowed srv.min_version (strip (r.header "BT-Validator-Version")) ≡ true

  abbrev pub Judged : Request → Handled P → Type 0
  Judged r h =
      ((h.reply ≡ forbidden) × (h.calls ≡ []))
      ⊎ ((call : Call) × (h.calls ≡ call ∷ []) × IsAdmitted r call)

  -- A method that is neither GET nor one of those that are rejected: no upstream call.
  abbrev pub IsUnsupported : Request → Handled P → Type 0
  IsUnsupported r h =
      (h.reply ≡ not_implemented)
      × (h.calls ≡ [])
      × ((r.method == "GET") ≡ false)
      × (any (λ m. m == r.method) rejected_methods ≡ false)

  abbrev pub Outcome : Request → Handled P → Type 0
  Outcome r h = Judged r h ⊎ IsUnsupported r h

  -- The checks behind the query's.
  authorise-Judged :
      (r : Request) (route : Route) (base : Dict String String) (call : Call)
      → lookup r.path allowlist ≡ some route
      → clean_required (required route) r.query ≡ some base
      → r.method ≡ "GET"
      → Asks r call
      → All (λ k. is_known route k ≡ true) (keys r.query)
      → (forward srv route (clean_optional optional r.query base)).calls ≡ call ∷ []
      → Judged r (authorise srv r route (clean_optional optional r.query base))
  authorise-Judged r route base call listed taken get asks known sent =
      elim (Bool-cases (is_authentic srv r (clean_optional optional r.query base))) [
        | inr e ↦ rw e (inl (refl, refl))
        | inl e ↦
            elim (Bool-cases
              (client_version_allowed srv.min_version (strip (r.header "BT-Validator-Version")))) [
                | inr v ↦ rw (e, v) (inl (refl, refl))
                | inl v ↦
                    rw (e, v)
                      (inr (
                        call,
                        sent,
                        record {
                          route = route;
                          base = base;
                          listed = listed;
                          taken = taken;
                          get = get;
                          asks = asks;
                          known = known;
                          signed = verify-IsSigned srv _ _ _ _ e;
                          recent = v;
                        },
                      ))
              ]
      ]

  check_query-Judged :
      (r : Request) (route : Route) (base : Dict String String) (call : Call)
      → lookup r.path allowlist ≡ some route
      → clean_required (required route) r.query ≡ some base
      → r.method ≡ "GET"
      → Asks r call
      → (forward srv route (clean_optional optional r.query base)).calls ≡ call ∷ []
      → Judged r (check_query srv r route (some base))
  check_query-Judged r route base call listed taken get asks sent =
      elim (Bool-cases (is_empty (filter (λ k. not (is_known route k)) (keys r.query)))) [
        | inr e ↦ rw e (inl (refl, refl))
        | inl e ↦ rw e (
            authorise-Judged r route base call listed taken get asks
              (All-is_known route (keys r.query) e) sent)
      ]

  nodes-Judged :
      (r : Request) (o : Option String)
      → lookup r.path allowlist ≡ some nodes_route
      → r.method ≡ "GET"
      → r.path ≡ "/v3/nodes"
      → first_value "clusterId" r.query ≡ o
      → Judged r (check_query srv r nodes_route (keep_required "clusterId" o))
  nodes-Judged r none listed get path e = inl (refl, refl)
  nodes-Judged r (some id) listed get path e = elim (Bool-cases (strip id == "")) [
    | inl blank ↦ rw blank (inl (refl, refl))
    | inr filled ↦
        let taken : keep_required "clusterId" (some id) ≡ some (("clusterId", id) ∷ []) =
          rw filled refl in
        rw filled (
          check_query-Judged r nodes_route (("clusterId", id) ∷ []) (nodes id) listed
            (ap (keep_required "clusterId") e ∙ taken) get (path, e, filled)
            (ap (λ o. (forward_nodes srv o).calls)
              (clean-cluster_id id (first_value "limit" r.query) (first_value "marker" r.query))))
  ]

  -- A request is either refused with 403 and makes no upstream call, or it makes exactly one, the one
  -- that its path asks for; or, where its method is neither GET nor one that is rejected, it gets a 501
  -- and makes no call. In the second case it is a GET, it has no query parameter but the allowed ones, a
  -- validator of the metagraph signed its path, query and time with the hotkey it names, the time is no
  -- more than 60 seconds away, and the client's version is allowed.
  pub handle-IsAdmitted : (r : Request) → Outcome r (handle srv r)
  unfolding handle
  handle-IsAdmitted r = elim (Bool-cases (r.method == "GET")) [
    | inr e ↦ elim (Bool-cases (any (λ m. m == r.method) rejected_methods)) [
      | inl rejected ↦ rw (e, rejected) (inl (inl (refl, refl)))
      | inr other ↦ rw (e, other) (inr (refl, refl, refl, refl))
    ]
    | inl get ↦ elim (Bool-cases ("/v3/clusters" == r.path)) [
      | inl p ↦
          rw (get, p)
            (inl (
              check_query-Judged r clusters_route [] clusters (rw p refl) refl
                ((string_eq.beq_iff r.method "GET").0 get)
                (sym ((string_eq.beq_iff "/v3/clusters" r.path).0 p)) refl))
      | inr p ↦ elim (Bool-cases ("/v3/nodes" == r.path)) [
        | inr q ↦ rw (get, p, q) (inl (inl (refl, refl)))
        | inl q ↦
            rw (get, p, q)
              (inl (
                nodes-Judged r (first_value "clusterId" r.query) (rw (p, q) refl)
                  ((string_eq.beq_iff r.method "GET").0 get)
                  (sym ((string_eq.beq_iff "/v3/nodes" r.path).0 q)) refl))
      ]
    ]
  ]
