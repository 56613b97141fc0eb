-- ===== src/Crawler/Parse/Mentions.antt =====
-- The services that a response mentions, and that the parser adds just these, one after the other.
use federated_catalog_rs.Prelude.{
  ◌≡◌, refl, true, false, Option, none, some, List, [], ◌∷◌, ◌++◌, ◌==◌, arith, Option-cases, inl,
  inr, sym, ap, ◌∙◌,
}
use federated_catalog_rs.Json.{
  Value, null, bool, number, string, array, object, Items, nil, item, Members, end, member, get,
  get_array,
}
use federated_catalog_rs.Catalog.{Catalog, DataService}
use federated_catalog_rs.Crawler.Parse.{
  get_id, parse_data_service, add_service, add_parsed_service, add_services, access_service,
  parse_distribution, parse_distributions, or_empty, add_dataset, add_datasets, add_own,
  collect_datasets_and_services, collect_member, collect_array, collect_items,
}

-- The services that a response mentions, in the order in which the parser meets them
abbrev mention : Option DataService → List DataService
mention none = []
mention (some s) = s ∷ []

abbrev mentioned_by_access : Option Value → List DataService
mentioned_by_access (some (object ms)) = mention (parse_data_service (object ms))
mentioned_by_access _ = []

abbrev pub mentioned_by_services : Items → List DataService
mentioned_by_services nil = []
mentioned_by_services (item v vs) = mention (parse_data_service v) ++ mentioned_by_services vs

abbrev pub mentioned_by_distributions : Items → List DataService
mentioned_by_distributions nil = []
mentioned_by_distributions (item v vs) =
    mentioned_by_access (get "accessService" v) ++ mentioned_by_distributions vs

abbrev mentioned_by_dataset : Value → List DataService
mentioned_by_dataset v = elim (get_id v) [
  | none ↦ []
  | some id ↦ mentioned_by_distributions (or_empty (get_array "distribution" v))
]

abbrev pub mentioned_by_datasets : Items → List DataService
mentioned_by_datasets nil = []
mentioned_by_datasets (item v vs) = mentioned_by_dataset v ++ mentioned_by_datasets vs

abbrev mentioned_by_own : Value → List DataService
mentioned_by_own v =
    mentioned_by_services (or_empty (get_array "service" v))
    ++ mentioned_by_datasets (or_empty (get_array "dataset" v))

unfoldable mutual
  pub mentioned : Value → List DataService
  mentioned (object ms) = mentioned_by_own (object ms) ++ mentioned_by_member ms
  mentioned null = mentioned_by_own null
  mentioned (bool b) = mentioned_by_own (bool b)
  mentioned (number n) = mentioned_by_own (number n)
  mentioned (string s) = mentioned_by_own (string s)
  mentioned (array vs) = mentioned_by_own (array vs)

  pub mentioned_by_member : Members → List DataService
  mentioned_by_member end = []
  mentioned_by_member (member name v ms) = elim (name == "catalog") [
    | true ↦ mentioned_by_array v
    | false ↦ mentioned_by_member ms
  ]

  pub mentioned_by_array : Value → List DataService
  mentioned_by_array (array vs) = mentioned_by_items vs
  mentioned_by_array null = []
  mentioned_by_array (bool b) = []
  mentioned_by_array (number n) = []
  mentioned_by_array (string s) = []
  mentioned_by_array (object ms) = []

  pub mentioned_by_items : Items → List DataService
  mentioned_by_items nil = []
  mentioned_by_items (item v vs) = mentioned v ++ mentioned_by_items vs

-- Adding each of a list of services
abbrev pub add_all : List DataService → List DataService → List DataService
add_all [] services = services
add_all (s ∷ ss) services = add_all ss (add_service s services)

pub add_all-append :
    (xs ys services : List DataService)
    → add_all (xs ++ ys) services ≡ add_all ys (add_all xs services)
add_all-append [] ys services = refl
add_all-append (x ∷ xs) ys services = add_all-append xs ys (add_service x services)

add_parsed_service-mention :
    (v : Value) (services : List DataService)
    → add_parsed_service v services ≡ add_all (mention (parse_data_service v)) services
unfolding add_parsed_service
add_parsed_service-mention v services = ground arith

add_services-mentioned :
    (vs : Items) (services : List DataService)
    → add_services vs services ≡ add_all (mentioned_by_services vs) services
unfolding add_services
add_services-mentioned nil services = refl
add_services-mentioned (item v vs) services =
    add_services-mentioned vs (add_parsed_service v services)
    ∙ ap (add_all (mentioned_by_services vs)) (add_parsed_service-mention v services)
    ∙ sym (add_all-append (mention (parse_data_service v)) (mentioned_by_services vs) services)

access_service-mentioned :
    (o : Option Value) (services : List DataService)
    → (access_service o services).1 ≡ add_all (mentioned_by_access o) services
access_service-mentioned (some (object ms)) services =
    add_parsed_service-mention (object ms) services
access_service-mentioned (some (string s)) services = refl
access_service-mentioned (some (array s)) services = refl
access_service-mentioned (some null) services = refl
access_service-mentioned (some (bool s)) services = refl
access_service-mentioned (some (number s)) services = refl
access_service-mentioned none services = refl

parse_distributions-mentioned :
    (vs : Items) (services : List DataService)
    → (parse_distributions vs services).1 ≡ add_all (mentioned_by_distributions vs) services
unfolding parse_distributions parse_distribution
parse_distributions-mentioned nil services = refl
parse_distributions-mentioned (item v vs) services =
    parse_distributions-mentioned vs (parse_distribution v services).1
    ∙ ap (add_all (mentioned_by_distributions vs))
        (access_service-mentioned (get "accessService" v) services)
    ∙ sym (
        add_all-append (mentioned_by_access (get "accessService" v)) (mentioned_by_distributions vs)
          services)

add_dataset-mentioned :
    (v : Value) (c : Catalog)
    → (add_dataset v c).data_services ≡ add_all (mentioned_by_dataset v) c.data_services
unfolding add_dataset
add_dataset-mentioned v c = elim (Option-cases (get_id v)) [
  | inl e ↦ rw (e, add_dataset, mentioned_by_dataset)
  | inr (id, e) ↦
      rw (e, add_dataset, mentioned_by_dataset)
        (parse_distributions-mentioned (or_empty (get_array "distribution" v)) c.data_services)
]

add_datasets-mentioned :
    (vs : Items) (c : Catalog)
    → (add_datasets vs c).data_services ≡ add_all (mentioned_by_datasets vs) c.data_services
unfolding add_datasets
add_datasets-mentioned nil c = refl
add_datasets-mentioned (item v vs) c =
    add_datasets-mentioned vs (add_dataset v c)
    ∙ ap (add_all (mentioned_by_datasets vs)) (add_dataset-mentioned v c)
    ∙ sym (add_all-append (mentioned_by_dataset v) (mentioned_by_datasets vs) c.data_services)

add_own-mentioned :
    (v : Value) (c : Catalog)
    → (add_own v c).data_services ≡ add_all (mentioned_by_own v) c.data_services
unfolding add_own
add_own-mentioned v c =
    let services = or_empty (get_array "service" v) in
    let datasets = or_empty (get_array "dataset" v) in
    add_datasets-mentioned datasets
      (record c { data_services = add_services services c.data_services })
    ∙ ap (add_all (mentioned_by_datasets datasets))
        (add_services-mentioned services c.data_services)
    ∙ sym (
        add_all-append (mentioned_by_services services) (mentioned_by_datasets datasets)
          c.data_services)

mutual
  unfolding mentioned collect_datasets_and_services

  pub collect-mentioned :
      (v : Value) (c : Catalog)
      → (collect_datasets_and_services v c).data_services ≡ add_all (mentioned v) c.data_services
  collect-mentioned (object ms) c =
      collect_member-mentioned ms (add_own (object ms) c)
      ∙ ap (add_all (mentioned_by_member ms)) (add_own-mentioned (object ms) c)
      ∙ sym (add_all-append (mentioned_by_own (object ms)) (mentioned_by_member ms) c.data_services)
  collect-mentioned null c = add_own-mentioned null c
  collect-mentioned (bool b) c = add_own-mentioned (bool b) c
  collect-mentioned (number n) c = add_own-mentioned (number n) c
  collect-mentioned (string s) c = add_own-mentioned (string s) c
  collect-mentioned (array vs) c = add_own-mentioned (array vs) c

  collect_member-mentioned :
      (ms : Members) (c : Catalog)
      → (collect_member ms c).data_services ≡ add_all (mentioned_by_member ms) c.data_services
  collect_member-mentioned end c = refl
  collect_member-mentioned (member name v ms) c =
      ground (arith, collect_array-mentioned v c, collect_member-mentioned ms c)

  collect_array-mentioned :
      (v : Value) (c : Catalog)
      → (collect_array v c).data_services ≡ add_all (mentioned_by_array v) c.data_services
  collect_array-mentioned (array vs) c = collect_items-mentioned vs c
  collect_array-mentioned null c = refl
  collect_array-mentioned (bool b) c = refl
  collect_array-mentioned (number n) c = refl
  collect_array-mentioned (string s) c = refl
  collect_array-mentioned (object ms) c = refl

  collect_items-mentioned :
      (vs : Items) (c : Catalog)
      → (collect_items vs c).data_services ≡ add_all (mentioned_by_items vs) c.data_services
  collect_items-mentioned nil c = refl
  collect_items-mentioned (item v vs) c =
      collect_items-mentioned vs (collect_datasets_and_services v c)
      ∙ ap (add_all (mentioned_by_items vs)) (collect-mentioned v c)
      ∙ sym (add_all-append (mentioned v) (mentioned_by_items vs) c.data_services)
