-- ===== src/Store/Oxigraph.antt =====
-- `oxigraph_backend::OxigraphCatalogCache` of crates/rdf-store/src/lib.rs. The graph store
-- (contreforts-kg and oxigraph), the percent encoding and serde_json are parameters.
pub mod Healthy
pub mod Graphs
pub mod Writes
pub mod Listing
pub mod Laws
use federated_catalog_rs.Prelude.{
  String, Bool, true, false, Option, none, some, List, [], ◌∷◌, Result, ok, err, map_err, ◌>>=◌,
}
use federated_catalog_rs.Text.{◌+++◌}
use federated_catalog_rs.Catalog.{Catalog, NodeId}
use federated_catalog_rs.Store.{
  CatalogQuery, CatalogCache, StoreError, backend, StoreResult, paginate,
}

-- An RDF term, over the texts `J` that literals hold
pub data Term (J : Type 0) : Type 0 where
  named_node blank_node : String → Term J
  literal : J → Term J

pub data NamedOrBlankNode : Type 0 where
  named blank : String → NamedOrBlankNode

pub record Quad (J : Type 0) : Type 0 where
  pub subject : String
  pub predicate : String
  pub object : Term J
  pub graph : String

-- What the backend calls. `JsonText` is the text that serde_json writes, which the code only passes
-- on; the errors appear by what they render as.
pub record Backend : Type 1 where
  pub JsonText : Type 0
  pub GraphStore : Type 0
  pub in_memory : Result GraphStore String
  pub open_path : String → Result GraphStore String
  pub remove_subject_from_named_graph :
      String → String → GraphStore → Result (Unit {0}) String × GraphStore
  pub insert_in_named_graph :
      String → String → Term JsonText → String → GraphStore → Result (Unit {0}) String × GraphStore
  pub quads_for_pattern :
      Option String
      → Option String
      → Option (Term JsonText)
      → Option String
      → GraphStore
      → List (Result (Quad JsonText) String)
  pub named_graphs : GraphStore → List (Result NamedOrBlankNode String)
  pub to_json : Catalog → Result JsonText String
  pub from_json : JsonText → Result Catalog String
  pub urlencode : String → String
  pub new_named_node : String → Result String String
  pub debug_term : Term JsonText → String

abbrev pub node_ns : String
node_ns = "https://federated-catalog-rs.internal/nodes/"

-- The predicate's IRI. The source's `expect` on this constant cannot fail and is not modelled.
abbrev pub catalog_json_predicate : String
catalog_json_predicate = "https://federated-catalog-rs.internal/ns#catalogJson"

-- `collect` into a `Result`: the first error, or all the values
unfoldable pub collect {ℓ} : {A E : Type ℓ} → List (Result A E) → Result (List A) E
collect [] = ok []
collect (err e ∷ rs) = err e
collect (ok a ∷ rs) = collect rs >>= λ xs. ok (a ∷ xs)

module _ (b : Backend) where
  unfoldable pub node_iri : NodeId → StoreResult String
  node_iri n =
      map_err (λ e. backend ("invalid node IRI: " +++ e))
        (b.new_named_node (node_ns +++ b.urlencode n.id))

  unfoldable pub in_memory : StoreResult b.GraphStore
  in_memory = map_err backend b.in_memory

  -- `open`: the state of the store that is at a path, or a fresh one
  unfoldable pub open_path : String → StoreResult b.GraphStore
  open_path path = map_err backend (b.open_path path)

  -- The text of a literal, or the error for any other object
  abbrev pub literal_value : Term b.JsonText → StoreResult b.JsonText
  literal_value (literal json) = ok json
  literal_value (named_node s) =
      err (backend ("expected a literal catalogJson object, got " +++ b.debug_term (named_node s)))
  literal_value (blank_node s) =
      err (backend ("expected a literal catalogJson object, got " +++ b.debug_term (blank_node s)))

  -- What `load_graph` does with the first quad.
  abbrev pub decode_quad : Result (Quad b.JsonText) String → StoreResult (Option Catalog)
  decode_quad r = do
    quad ← map_err backend r
    json ← literal_value quad.object
    catalog ← map_err (λ e. backend ("failed to deserialize catalog: " +++ e)) (b.from_json json)
    ok (some catalog)

  abbrev pub decode_first : List (Result (Quad b.JsonText) String) → StoreResult (Option Catalog)
  decode_first [] = ok none
  decode_first (r ∷ rs) = decode_quad r

  unfoldable pub load_graph : String → b.GraphStore → StoreResult (Option Catalog)
  load_graph graph_iri s =
      decode_first
        (b.quads_for_pattern (some graph_iri) (some catalog_json_predicate) none (some graph_iri) s)

  abbrev pub first_exists : List (Result (Quad b.JsonText) String) → StoreResult Bool
  first_exists [] = ok false
  first_exists (r ∷ rs) = map_err backend r >>= λ quad. ok true

  unfoldable pub has_subject : String → b.GraphStore → StoreResult Bool
  has_subject subject s =
      first_exists (b.quads_for_pattern (some subject) none none (some subject) s)

  -- The two writes of `upsert`, the second only after the first
  abbrev pub replace_graph :
      String → b.JsonText → b.GraphStore → StoreResult (Unit {0}) × b.GraphStore
  replace_graph subject json s =
      let (removed, s') = b.remove_subject_from_named_graph subject subject s in
      elim removed [
        | err e ↦ (err (backend e), s')
        | ok _ ↦
            let (inserted, s'') =
              b.insert_in_named_graph subject catalog_json_predicate (literal json) subject s' in
            (map_err backend inserted, s'')
      ]

  unfoldable pub upsert : Catalog → b.GraphStore → StoreResult (Unit {0}) × b.GraphStore
  upsert c s = elim (node_iri c.origin_node) [
    | err e ↦ (err e, s)
    | ok subject ↦ elim (b.to_json c) [
      | err e ↦ (err (backend ("failed to serialize catalog: " +++ e)), s)
      | ok json ↦ replace_graph subject json s
    ]
  ]

  abbrev pub cons_some : Option Catalog → List Catalog → List Catalog
  cons_some none cs = cs
  cons_some (some c) cs = c ∷ cs

  -- The loop over the graph names
  unfoldable pub load_graphs : List NamedOrBlankNode → b.GraphStore → StoreResult (List Catalog)
  load_graphs [] s = ok []
  load_graphs (blank g ∷ gs) s = load_graphs gs s
  load_graphs (named g ∷ gs) s =
      load_graph g s >>= λ loaded. load_graphs gs s >>= λ rest. ok (cons_some loaded rest)

  -- The results of a query before they are ordered
  unfoldable pub collect_results : Option NodeId → b.GraphStore → StoreResult (List Catalog)
  collect_results (some node) s = do
    subject ← node_iri node
    loaded ← load_graph subject s
    ok (cons_some loaded [])
  collect_results none s = do
    graph_names ← map_err backend (collect (b.named_graphs s))
    load_graphs graph_names s

  unfoldable pub query : CatalogQuery → b.GraphStore → StoreResult (List Catalog)
  query q s = collect_results q.origin_node s >>= λ results. ok (paginate q results)

  abbrev pub remove_if : Bool → String → b.GraphStore → StoreResult Bool × b.GraphStore
  remove_if false subject s = (ok false, s)
  remove_if true subject s =
      let (removed, s') = b.remove_subject_from_named_graph subject subject s in
      (map_err backend removed >>= (λ _. ok true), s')

  unfoldable pub delete : NodeId → b.GraphStore → StoreResult Bool × b.GraphStore
  delete node s = elim (node_iri node) [
    | err e ↦ (err e, s)
    | ok subject ↦ elim (has_subject subject s) [
      | err e ↦ (err e, s)
      | ok existed ↦ remove_if existed subject s
    ]
  ]

  abbrev pub oxigraph : CatalogCache
  oxigraph = record { State = b.GraphStore; upsert = upsert; query = query; delete = delete }
