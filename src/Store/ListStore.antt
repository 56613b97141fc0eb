-- ===== src/Store/ListStore.antt =====
-- A graph store that keeps its quads in a list: it behaves as `IsHealthy` asks, so the theorems on
-- the Oxigraph cache can be run.
use mathlib.Core.List.{Memᴰ}
use federated_catalog_rs.Prelude.{
  String, ◌≡◌, refl, ◌≢◌, Bool, true, false, not, ◌&&◌, Option, none, some, List, [], ◌∷◌, map,
  filter, any, ok, All, ◌==◌, if◌then◌else◌, eq_iff, eq_refl, arith, text-cases, Bool-cases, inl,
  inr, ap, sym, subst,
}
use federated_catalog_rs.Catalog.{Catalog}
use federated_catalog_rs.Store.Oxigraph.{Backend, Quad, Term, NamedOrBlankNode, named}
use federated_catalog_rs.Store.Oxigraph.Healthy.{IsHealthy, IsDistinct, fits_predicate}

abbrev pub Quads : Type 0
Quads = List (Quad Catalog)

abbrev pub quads_of : Quads → String → Quads
quads_of s g = filter (λ (q : Quad Catalog). q.graph == g) s

abbrev fits_graph : Option String → String → Bool
fits_graph none g = true
fits_graph (some h) g = g == h

abbrev pub pattern_quads :
    Option String → Option String → Option (Term Catalog) → Option String → Quads → Quads
pattern_quads subject predicate object graph s =
    filter
      (λ (q : Quad Catalog).
        fits_predicate subject q.subject && fits_predicate predicate q.predicate)
      (filter (λ (q : Quad Catalog). fits_graph graph q.graph) s)

-- The names in a list, each once
abbrev pub names : List String → List String
names [] = []
names (x ∷ xs) = let rest = names xs in if any (λ y. y == x) rest then rest else x ∷ rest

abbrev pub graphs_of : Quads → List NamedOrBlankNode
graphs_of s = map named (names (map (λ (q : Quad Catalog). q.graph) s))

abbrev pub removed : String → String → Quads → Quads
removed subject graph s =
    filter (λ (q : Quad Catalog). not (q.graph == graph && q.subject == subject)) s

abbrev pub list_store : Backend
list_store = record {
  JsonText = Catalog;
  GraphStore = Quads;
  in_memory = ok [];
  open_path = λ path. ok [];
  remove_subject_from_named_graph = λ subject graph s. (ok tt, removed subject graph s);
  insert_in_named_graph = λ subject predicate o graph s.
      (ok tt, record { subject = subject; predicate = predicate; object = o; graph = graph } ∷ s);
  quads_for_pattern =
      λ subject predicate o graph s. map ok (pattern_quads subject predicate o graph s);
  named_graphs = λ s. map ok (graphs_of s);
  to_json = λ c. ok c;
  from_json = λ c. ok c;
  urlencode = λ s. s;
  new_named_node = λ s. ok s;
  debug_term = λ t. "";
}

any-false :
    (x : String) (ys : List String)
    → any (λ y. y == x) ys ≡ false
    → All (λ h. named x ≢ h) (map named ys)
any-false x [] e = tt
any-false x (y ∷ ys) e =
    ((λ p. let same : x ≡ y = cc in ground (arith, eq_iff y x)), any-false x ys (ground arith))

pub names-IsDistinct : (xs : List String) → IsDistinct (map named (names xs))
names-IsDistinct [] = tt
names-IsDistinct (x ∷ xs) = elim (Bool-cases (any (λ y. y == x) (names xs))) [
  | inl e ↦ rw e (names-IsDistinct xs)
  | inr e ↦ rw e (any-false x (names xs) e, names-IsDistinct xs)
]

any-Memᴰ :
    (x : String) (ys : List String) → any (λ y. y == x) ys ≡ true → Memᴰ (named x) (map named ys)
any-Memᴰ x [] e = absurd (ground arith)
any-Memᴰ x (y ∷ ys) e = elim (text-cases y x) [
  | inl (t, same) ↦ Memᴰ.head (ap named (sym same))
  | inr (t, other) ↦ Memᴰ.tail (any-Memᴰ x ys (ground arith))
]

pub names_complete :
    (x : String) (xs : List String)
    → any (λ y. y == x) xs ≡ true
    → Memᴰ (named x) (map named (names xs))
names_complete x [] e = absurd (ground arith)
names_complete x (y ∷ ys) e = elim (Bool-cases (any (λ z. z == y) (names ys))) [
  | inl seen ↦ rw seen (elim (text-cases y x) [
    | inl (t, same) ↦
        subst (λ z. Memᴰ (named z) (map named (names ys))) same (any-Memᴰ y (names ys) seen)
    | inr (t, other) ↦ names_complete x ys (ground arith)
  ])
  | inr new ↦ rw new (elim (text-cases y x) [
    | inl (t, same) ↦ Memᴰ.head (ap named (sym same))
    | inr (t, other) ↦ Memᴰ.tail (names_complete x ys (ground arith))
  ])
]

pub quads_names :
    (s : Quads) (g : String)
    → quads_of s g ≢ []
    → any (λ y. y == g) (map (λ (q : Quad Catalog). q.graph) s) ≡ true
quads_names [] g h = absurd (h refl)
quads_names (q ∷ s) g h = ground (arith, quads_names s g)

pub quads-removed :
    (subject graph g : String) (s : Quads)
    → quads_of (removed subject graph s) g ≡ (
        if graph == g
        then filter (λ (q : Quad Catalog). not (q.subject == subject)) (quads_of s g)
        else quads_of s g)
quads-removed subject graph g [] = ground arith
quads-removed subject graph g (q ∷ s) =
    ground (
      arith,
      quads-removed subject graph g s,
      eq_iff q.graph graph,
      eq_iff q.graph g,
      eq_iff graph g,
    )

pub quads-added :
    (q : Quad Catalog) (s : Quads) → quads_of s q.graph ≡ [] → quads_of (q ∷ s) q.graph ≡ q ∷ []
quads-added q s e = rw (eq_refl q.graph, e)

pub quads-added_elsewhere :
    (q : Quad Catalog) (g : String) (s : Quads) → q.graph ≢ g → quads_of (q ∷ s) g ≡ quads_of s g
quads-added_elsewhere q g s h = ground (arith, eq_iff q.graph g)

abbrev pub list_store_healthy : IsHealthy list_store
list_store_healthy = record {
  quads = quads_of;
  empty = [];
  in_memory_empty = refl;
  quads-empty = λ g. refl;
  quads_for_pattern_lem = λ subject graph predicate s. refl;
  remove_result = λ subject graph s. refl;
  quads-remove = quads-removed;
  insert_result = λ subject predicate o graph s. refl;
  quads-insert_into_empty = λ subject predicate o graph s e.
      quads-added (record { subject = subject; predicate = predicate; object = o; graph = graph }) s
        e;
  quads-insert_elsewhere = λ subject predicate o graph g s h.
      quads-added_elsewhere
        (record { subject = subject; predicate = predicate; object = o; graph = graph }) g s h;
  graphs = graphs_of;
  named_graphs_lem = λ s. refl;
  graphs-distinct = λ s. names-IsDistinct (map (λ (q : Quad Catalog). q.graph) s);
  graphs_complete = λ s g h. names_complete g _ (quads_names s g h);
  json = λ c. c;
  to_json_lem = λ c. refl;
  from_json_lem = λ c. refl;
  urlencode_inj = λ s t e. e;
  new_named_node_lem = λ s. refl;
}
