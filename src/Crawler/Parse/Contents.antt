-- ===== src/Crawler/Parse/Contents.antt =====
-- The datasets and the identity of a parsed catalog.
use mathlib.Core.List.{append_assoc, append-nil}
use federated_catalog_rs.Prelude.{
  String, ◌≡◌, refl, true, false, Option, none, some, List, [], ◌∷◌, ◌++◌, ◌==◌, arith,
  Option-cases, inl, inr, sym, ap, ◌∙◌,
}
use federated_catalog_rs.Json.{
  Value, null, bool, number, string, array, object, Items, nil, item, Members, end, member, lookup,
  get, get_array, get_str, as_array, and_then, unwrap_or,
}
use federated_catalog_rs.Catalog.{Catalog, DataService, Dataset, Distribution}
use federated_catalog_rs.Crawler.Config.{ParticipantEntry}
use federated_catalog_rs.Crawler.Parse.{
  get_id, access_service, parse_distribution, parse_distributions, or_empty, add_dataset,
  add_datasets, add_own, collect_datasets_and_services, collect_member, collect_array,
  collect_items, parse_catalog_response,
}

-- The datasets that a response advertises, read off the response alone
abbrev access_id : Option Value → String
access_id (some (string id)) = id
access_id (some (object ms)) = unwrap_or (get_id (object ms)) ""
access_id _ = ""

abbrev pub distributions_of : Items → List Distribution
distributions_of nil = []
distributions_of (item v vs) =
    record {
      format = unwrap_or (get_str "format" v) "";
      access_service = access_id (get "accessService" v);
    }
    ∷ distributions_of vs

abbrev dataset_of : Value → List Dataset
dataset_of v = elim (get_id v) [
  | none ↦ []
  | some id ↦
      record {
        id = id;
        properties = [];
        distributions = distributions_of (or_empty (get_array "distribution" v));
      }
      ∷ []
]

abbrev pub datasets_of : Items → List Dataset
datasets_of nil = []
datasets_of (item v vs) = dataset_of v ++ datasets_of vs

abbrev pub own_datasets : Value → List Dataset
own_datasets v = datasets_of (or_empty (get_array "dataset" v))

unfoldable mutual
  pub advertised : Value → List Dataset
  advertised (object ms) = own_datasets (object ms) ++ advertised_by_member ms
  advertised null = own_datasets null
  advertised (bool b) = own_datasets (bool b)
  advertised (number n) = own_datasets (number n)
  advertised (string s) = own_datasets (string s)
  advertised (array vs) = own_datasets (array vs)

  pub advertised_by_member : Members → List Dataset
  advertised_by_member end = []
  advertised_by_member (member name v ms) = elim (name == "catalog") [
    | true ↦ advertised_by_array v
    | false ↦ advertised_by_member ms
  ]

  pub advertised_by_array : Value → List Dataset
  advertised_by_array (array vs) = advertised_by_items vs
  advertised_by_array null = []
  advertised_by_array (bool b) = []
  advertised_by_array (number n) = []
  advertised_by_array (string s) = []
  advertised_by_array (object ms) = []

  pub advertised_by_items : Items → List Dataset
  advertised_by_items nil = []
  advertised_by_items (item v vs) = advertised v ++ advertised_by_items vs

access_service-id :
    (o : Option Value) (services : List DataService) → (access_service o services).0 ≡ access_id o
access_service-id (some (object ms)) services = refl
access_service-id (some (string s)) services = refl
access_service-id (some (array s)) services = refl
access_service-id (some null) services = refl
access_service-id (some (bool s)) services = refl
access_service-id (some (number s)) services = refl
access_service-id none services = refl

parse_distributions_lem :
    (vs : Items) (services : List DataService)
    → (parse_distributions vs services).0 ≡ distributions_of vs
unfolding parse_distributions parse_distribution
parse_distributions_lem nil services = refl
parse_distributions_lem (item v vs) services = cc (
  access_service-id (get "accessService" v) services,
  parse_distributions_lem vs (parse_distribution v services).1,
)

add_dataset-datasets :
    (v : Value) (c : Catalog) → (add_dataset v c).datasets ≡ c.datasets ++ dataset_of v
unfolding add_dataset
add_dataset-datasets v c = elim (Option-cases (get_id v)) [
  | inl e ↦ rw (e, add_dataset, dataset_of) (sym (append-nil c.datasets))
  | inr (id, e) ↦ rw (
    e,
    add_dataset,
    dataset_of,
    parse_distributions_lem (or_empty (get_array "distribution" v)) c.data_services,
  )
]

add_datasets-datasets :
    (vs : Items) (c : Catalog) → (add_datasets vs c).datasets ≡ c.datasets ++ datasets_of vs
unfolding add_datasets
add_datasets-datasets nil c = sym (append-nil c.datasets)
add_datasets-datasets (item v vs) c =
    add_datasets-datasets vs (add_dataset v c)
    ∙ ap (λ (ds : List Dataset). ds ++ datasets_of vs) (add_dataset-datasets v c)
    ∙ append_assoc c.datasets (dataset_of v) (datasets_of vs)

add_own-datasets : (v : Value) (c : Catalog) → (add_own v c).datasets ≡ c.datasets ++ own_datasets v
unfolding add_own
add_own-datasets v c = add_datasets-datasets (or_empty (get_array "dataset" v)) _

mutual
  unfolding advertised collect_datasets_and_services

  collect-datasets :
      (v : Value) (c : Catalog)
      → (collect_datasets_and_services v c).datasets ≡ c.datasets ++ advertised v
  collect-datasets (object ms) c =
      collect_member-datasets ms (add_own (object ms) c)
      ∙ ap (λ (ds : List Dataset). ds ++ advertised_by_member ms) (add_own-datasets (object ms) c)
      ∙ append_assoc c.datasets (own_datasets (object ms)) (advertised_by_member ms)
  collect-datasets null c = add_own-datasets null c
  collect-datasets (bool b) c = add_own-datasets (bool b) c
  collect-datasets (number n) c = add_own-datasets (number n) c
  collect-datasets (string s) c = add_own-datasets (string s) c
  collect-datasets (array vs) c = add_own-datasets (array vs) c

  collect_member-datasets :
      (ms : Members) (c : Catalog)
      → (collect_member ms c).datasets ≡ c.datasets ++ advertised_by_member ms
  collect_member-datasets end c = sym (append-nil c.datasets)
  collect_member-datasets (member name v ms) c =
      ground (arith, collect_array-datasets v c, collect_member-datasets ms c)

  collect_array-datasets :
      (v : Value) (c : Catalog) → (collect_array v c).datasets ≡ c.datasets ++ advertised_by_array v
  collect_array-datasets (array vs) c = collect_items-datasets vs c
  collect_array-datasets null c = sym (append-nil c.datasets)
  collect_array-datasets (bool b) c = sym (append-nil c.datasets)
  collect_array-datasets (number n) c = sym (append-nil c.datasets)
  collect_array-datasets (string s) c = sym (append-nil c.datasets)
  collect_array-datasets (object ms) c = sym (append-nil c.datasets)

  collect_items-datasets :
      (vs : Items) (c : Catalog)
      → (collect_items vs c).datasets ≡ c.datasets ++ advertised_by_items vs
  collect_items-datasets nil c = sym (append-nil c.datasets)
  collect_items-datasets (item v vs) c =
      collect_items-datasets vs (collect_datasets_and_services v c)
      ∙ ap (λ (ds : List Dataset). ds ++ advertised_by_items vs) (collect-datasets v c)
      ∙ append_assoc c.datasets (advertised v) (advertised_by_items vs)

-- The recursion over the members finds what `get("catalog")` finds.
collect_member_lem :
    (ms : Members) (c : Catalog)
    → collect_member ms c ≡ collect_items (or_empty (and_then (lookup "catalog" ms) as_array)) c
unfolding collect_datasets_and_services lookup
collect_member_lem end c = refl
collect_member_lem (member name (array vs) ms) c = ground (arith, collect_member_lem ms c)
collect_member_lem (member name null ms) c = ground (arith, collect_member_lem ms c)
collect_member_lem (member name (bool b) ms) c = ground (arith, collect_member_lem ms c)
collect_member_lem (member name (number n) ms) c = ground (arith, collect_member_lem ms c)
collect_member_lem (member name (string s) ms) c = ground (arith, collect_member_lem ms c)
collect_member_lem (member name (object os) ms) c = ground (arith, collect_member_lem ms c)

pub collect_lem :
    (v : Value) (c : Catalog)
    → collect_datasets_and_services v c
      ≡ collect_items (or_empty (get_array "catalog" v)) (add_own v c)
unfolding collect_datasets_and_services get_array get
collect_lem (object ms) c = collect_member_lem ms (add_own (object ms) c)
collect_lem null c = refl
collect_lem (bool b) c = refl
collect_lem (number n) c = refl
collect_lem (string s) c = refl
collect_lem (array vs) c = refl

module _ (v : Value) (p : ParticipantEntry) (uuid : String) where
  -- The parsed catalog has exactly the datasets that the response advertises, in order: its own
  -- `dataset` entries that have an id, with all their distributions, then those of each nested
  -- `catalog` entry, to any depth.
  pub parsed_datasets : (parse_catalog_response v p uuid).datasets ≡ advertised v
  unfolding parse_catalog_response
  parsed_datasets = collect-datasets v _
