-- ===== src/HttpApi/Handlers/Served.antt =====
-- What `GET /catalog` serves of a crawl.
use federated_catalog_rs.Prelude.{String, ◌≡◌, ap, ◌∙◌, Option, some, List}
use federated_catalog_rs.Json.{or_else}
use federated_catalog_rs.Platform.{Platform}
use federated_catalog_rs.Catalog.{node_id}
use federated_catalog_rs.Store.{CatalogCache}
use federated_catalog_rs.Store.Contract.{IsCache}
use federated_catalog_rs.Store.Lookup.{to_list, query-for_node}
use federated_catalog_rs.Dcp.Holder.{HolderIdentity}
use federated_catalog_rs.Crawler.Config.{ParticipantEntry}
use federated_catalog_rs.Crawler.Crawl.{crawl_once}
use federated_catalog_rs.Crawler.Crawl.Laws.{crawls, latest, view-crawl_once, IsSound-crawl_once}
use federated_catalog_rs.HttpApi.Auth.{reply, catalog_list}
use federated_catalog_rs.HttpApi.Handlers.{get_catalog, list_reply}

module _ (P : Platform) (cache : CatalogCache) (laws : IsCache cache)
    (holder : Option (HolderIdentity P)) where
  get_catalog-view :
      (id : String) (state : cache.State)
      → laws.IsSound state
      → get_catalog cache (some id) state
        ≡ reply 200 (catalog_list (to_list (laws.view state (node_id id))))
  unfolding get_catalog
  get_catalog-view id state h = ap list_reply (query-for_node cache laws (node_id id) state h)

  -- A successful crawl is visible at once: after a cycle over a sound cache, `GET /catalog` for a
  -- node is answered with the last catalog that the cycle fetched for the node, or with what the
  -- cache held before if it fetched none.
  pub get_catalog-crawl_once :
      (id : String) (ps : List ParticipantEntry) (state : cache.State) (w : P.World)
      → laws.IsSound state
      → get_catalog cache (some id) (crawl_once P cache holder ps state w).1
        ≡ reply 200 (
            catalog_list (
              to_list (
                or_else
                  (latest (node_id id) (crawls P holder ps w))
                  (laws.view state (node_id id)))))
  get_catalog-crawl_once id ps state w h =
      get_catalog-view id (crawl_once P cache holder ps state w).1
        (IsSound-crawl_once P cache laws holder ps state w h)
      ∙ ap (λ o. reply 200 (catalog_list (to_list o)))
          (view-crawl_once P cache laws holder ps state w (node_id id) h)
