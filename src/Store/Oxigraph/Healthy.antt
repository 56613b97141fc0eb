-- ===== src/Store/Oxigraph/Healthy.antt =====
-- The documented behaviour of the libraries under the Oxigraph cache, when storage does not fail.
use mathlib.Core.List.{Memᴰ}
use federated_catalog_rs.Prelude.{
  String, ◌≡◌, ◌≢◌, Bool, true, not, ◌&&◌, Option, none, some, List, [], ◌∷◌, map, filter, ok, All,
  ◌==◌, if◌then◌else◌,
}
use federated_catalog_rs.Text.{◌+++◌}
use federated_catalog_rs.Catalog.{Catalog}
use federated_catalog_rs.Store.Oxigraph.{Backend, Quad, Term, NamedOrBlankNode, named, node_ns}

abbrev pub fits_predicate : Option String → String → Bool
fits_predicate none p = true
fits_predicate (some q) p = p == q

abbrev pub fits : {J : Type 0} → String → Option String → Quad J → Bool
fits subject predicate q = q.subject == subject && fits_predicate predicate q.predicate

abbrev pub IsDistinct {ℓ} : {A : Type ℓ} → List A → Type ℓ
IsDistinct [] = Unit
IsDistinct (x ∷ xs) = All (λ y. x ≢ y) xs × IsDistinct xs

pub record IsHealthy (b : Backend) : Type 1 where
  -- the quads of a named graph, in the order in which the store iterates
  pub quads : b.GraphStore → String → List (Quad b.JsonText)
  pub empty : b.GraphStore
  pub in_memory_empty : b.in_memory ≡ ok empty
  pub quads-empty : (g : String) → quads empty g ≡ []
  pub quads_for_pattern_lem :
      (subject graph : String) (predicate : Option String) (s : b.GraphStore)
      → b.quads_for_pattern (some subject) predicate none (some graph) s
        ≡ map ok (filter (fits subject predicate) (quads s graph))
  pub remove_result :
      (subject graph : String) (s : b.GraphStore)
      → (b.remove_subject_from_named_graph subject graph s).0 ≡ ok tt
  pub quads-remove :
      (subject graph g : String) (s : b.GraphStore)
      → quads (b.remove_subject_from_named_graph subject graph s).1 g ≡ (
          if graph == g
          then filter (λ (q : Quad b.JsonText). not (q.subject == subject)) (quads s g)
          else quads s g)
  pub insert_result :
      (subject predicate : String) (o : Term b.JsonText) (graph : String) (s : b.GraphStore)
      → (b.insert_in_named_graph subject predicate o graph s).0 ≡ ok tt
  pub quads-insert_into_empty :
      (subject predicate : String) (o : Term b.JsonText) (graph : String) (s : b.GraphStore)
      → quads s graph ≡ []
      → quads (b.insert_in_named_graph subject predicate o graph s).1 graph
        ≡ record { subject = subject; predicate = predicate; object = o; graph = graph } ∷ []
  pub quads-insert_elsewhere :
      (subject predicate : String) (o : Term b.JsonText) (graph g : String) (s : b.GraphStore)
      → graph ≢ g
      → quads (b.insert_in_named_graph subject predicate o graph s).1 g ≡ quads s g
  -- the store lists each graph once; it may list graphs that are empty by now
  pub graphs : b.GraphStore → List NamedOrBlankNode
  pub named_graphs_lem : (s : b.GraphStore) → b.named_graphs s ≡ map ok (graphs s)
  pub graphs-distinct : (s : b.GraphStore) → IsDistinct (graphs s)
  pub graphs_complete : (s : b.GraphStore) (g : String) → quads s g ≢ [] → Memᴰ (named g) (graphs s)
  -- serde_json reads back what it wrote
  pub json : Catalog → b.JsonText
  pub to_json_lem : (c : Catalog) → b.to_json c ≡ ok (json c)
  pub from_json_lem : (c : Catalog) → b.from_json (json c) ≡ ok c
  -- percent encoding loses nothing, and makes a valid IRI of any text
  pub urlencode_inj : (s t : String) → b.urlencode s ≡ b.urlencode t → s ≡ t
  pub new_named_node_lem :
      (s : String) → b.new_named_node (node_ns +++ b.urlencode s) ≡ ok (node_ns +++ b.urlencode s)
