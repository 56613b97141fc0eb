-- ===== src/Server/Run/Safety.antt =====
-- What a caller may get of the running server, at any time.
use mathlib.Core.List.{Memᴰ}
use federated_catalog_rs.Prelude.{
  String, ◌≡◌, refl, sym, ◌∙◌, subst, ◌⊎◌, inl, inr, Option, some, none, List, [], ◌∷◌, ok, All,
  All-of, ok-injective,
}
use federated_catalog_rs.Text.Splitting.{lacks-Lacks}
use federated_catalog_rs.Platform.{Platform, http_post}
use federated_catalog_rs.Catalog.{Catalog}
use federated_catalog_rs.Sorting.Laws.{All-sort_by}
use federated_catalog_rs.Store.{all, paginate}
use federated_catalog_rs.Store.Contract.{IsCache}
use federated_catalog_rs.Crawler.Config.{ParticipantEntry}
use federated_catalog_rs.HttpApi.Auth.{Reply}
use federated_catalog_rs.HttpApi.Auth.Laws.{IsConsistent, Outcome}
use federated_catalog_rs.HttpApi.Handlers.Laws.{
  HasStatus, Shows, CatalogOutcome, catalog_request-CatalogOutcome,
}
use federated_catalog_rs.HttpApi.Router.{
  AppState, Dispatcher, IsRouting, HttpRequest, serve, post_route, catalog_request_endpoint,
}
use federated_catalog_rs.Server.Run.{Running, Reach, waiting}
use federated_catalog_rs.Server.Run.Invariant.{IsFetched, Reach-IsValid}

-- A catalog request, with the `Authorization` header if there is one
abbrev pub catalog_request_of : Option String → HttpRequest
catalog_request_of header = record {
  method = http_post;
  path = "/dsp/catalog/request";
  node_id = none;
  authorization = header;
}

module _ (P : Platform) (dispatch : Dispatcher) (routing : IsRouting dispatch) (app : AppState P)
    (consistent : IsConsistent P app.dsp_auth) (participants : List ParticipantEntry) where
  -- A catalog request is refused with 401, or the response shows exactly what its authorization lets
  -- the caller see of the cached catalogs, all of which are known.
  abbrev pub KnownOutcome :
      (Catalog → Type 0) → Option String → Running P dispatch app participants → Reply → Type 0
  KnownOutcome IsKnown header t r =
      HasStatus 401 r
      ⊎ (allowed : Option (List String)) × Outcome P app.dsp_auth header t.world (ok allowed)
        × (s : Shows P app.cache app.dsp_auth consistent t.state allowed r) × All IsKnown s.catalogs

  pub Known-map :
      (A B : Catalog → Type 0)
      → ((c : Catalog) → A c → B c)
      → (header : Option String) (t : Running P dispatch app participants) (r : Reply)
      → KnownOutcome A header t r
      → KnownOutcome B header t r
  Known-map A B f header t r (inl refused) = inl refused
  Known-map A B f header t r (inr (allowed, o, s, k)) = inr (allowed, o, s, All-map s.catalogs k)
    where
      All-map : (cs : List Catalog) → All A cs → All B cs
      All-map [] h = tt
      All-map (c ∷ cs) (p, h) = (f c p, All-map cs h)

module _ (P : Platform) (dispatch : Dispatcher) (routing : IsRouting dispatch) (app : AppState P)
    (consistent : IsConsistent P app.dsp_auth) (participants : List ParticipantEntry)
    (laws : IsCache app.cache) where
  known :
      (IsKnown : Catalog → Type 0) (state : app.cache.State) (catalogs : List Catalog)
      → laws.IsSound state
      → ((c : Catalog) → laws.view state c.origin_node ≡ some c → IsKnown c)
      → app.cache.query all state ≡ ok catalogs
      → All IsKnown catalogs
  unfolding paginate
  known IsKnown state catalogs sound f q =
      let (xs, e, enumerates) = laws.query_result all state sound in
      subst (All IsKnown) (ok-injective (sym e ∙ q))
        (All-sort_by (λ c. c.id) IsKnown xs (All-of xs (λ c m. f c (enumerates.held c m))))

  outcome_known :
      (IsKnown : Catalog → Type 0) (header : Option String)
      (t : Running P dispatch app participants) (r : Reply)
      → laws.IsSound t.state
      → ((c : Catalog) → laws.view t.state c.origin_node ≡ some c → IsKnown c)
      → CatalogOutcome P app.cache app.dsp_auth consistent header t.state t.world r
      → KnownOutcome P dispatch routing app consistent participants IsKnown header t r
  outcome_known IsKnown header t r sound f (inl refused) = inl refused
  outcome_known IsKnown header t r sound f (inr (allowed, o, s)) =
      inr (allowed, o, s, known IsKnown t.state s.catalogs sound f s.queried)

  -- Whenever a catalog request comes in at a server that started with a sound cache and a consistent
  -- authorization, it is refused with 401, or it is answered with 200 and exactly the datasets that
  -- its authorization lets the caller see, of catalogs that were there at the start or that a crawl
  -- of a configured participant fetched.
  pub Reach-KnownOutcome :
      (c0 : app.cache.State) (w0 : P.World) (t : Running P dispatch app participants)
      (header : Option String)
      → laws.IsSound c0
      → Reach P dispatch app participants (record { state = c0; world = w0; scheduler = waiting }) t
      → KnownOutcome P dispatch routing app consistent participants
          (λ c. (laws.view c0 c.origin_node ≡ some c) ⊎ IsFetched P app.holder participants c)
          header
          t
          (serve P dispatch app (catalog_request_of header) t.state t.world).0
  unfolding serve
  Reach-KnownOutcome c0 w0 t header sound reach =
      let valid = Reach-IsValid P dispatch app participants laws c0 w0 t sound reach in
      let dispatched =
        routing.literal (post_route "/dsp/catalog/request" catalog_request_endpoint)
          (Memᴰ.tail (Memᴰ.tail (Memᴰ.tail (Memᴰ.head refl))))
          (lacks-Lacks b'{' "/dsp/catalog/request" refl) in
      rw dispatched (
        outcome_known
          (λ c. (laws.view c0 c.origin_node ≡ some c) ⊎ IsFetched P app.holder participants c)
          header t _ valid.sound (λ c h. valid.origin c.origin_node c h)
          (catalog_request-CatalogOutcome P app.cache app.dsp_auth consistent laws header t.state
            valid.sound t.world))
