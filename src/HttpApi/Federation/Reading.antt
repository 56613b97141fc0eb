-- ===== src/HttpApi/Federation/Reading.antt =====
-- Reading a serialized DSP catalog: its datasets and its services.
use mathlib.Core.List.{append-nil, map-append}
use federated_catalog_rs.Prelude.{
  String, ◌≡◌, refl, sym, ap, ◌∙◌, Option, none, some, List, [], ◌∷◌, ◌++◌, map,
}
use federated_catalog_rs.Json.{Items, item, of_list, get, get_str, get_array, lookup}
use federated_catalog_rs.Platform.{Platform}
use federated_catalog_rs.Catalog.{Dataset, DataService, Distribution}
use federated_catalog_rs.Crawler.Parse.{get_id, parse_data_service}
use federated_catalog_rs.Crawler.Parse.Contents.{
  distributions_of, datasets_of, advertised, advertised_by_items,
}
use federated_catalog_rs.Crawler.Parse.Mentions.{
  mentioned, mentioned_by_items, mentioned_by_services, mentioned_by_distributions,
  mentioned_by_datasets,
}
use federated_catalog_rs.HttpApi.Wire.{
  DspCatalog, DspCatalogs, dsp_catalog, no_catalogs, one_catalog, DspDataset, DspDistribution,
  DspDataService, dsp_dataset, dsp_distribution,
}
use federated_catalog_rs.HttpApi.Wire.Encoding.{
  distribution_value, dataset_value, service_value, catalog_value, catalog_items,
}
use federated_catalog_rs.HttpApi.Handlers.Shown.{documents, documents_of}

-- A dataset as it comes over the wire: all but its properties
abbrev pub exported : Dataset → Dataset
exported d = record d { properties = [] }

abbrev read_distribution : DspDistribution → Distribution
read_distribution d = record { format = d.format; access_service = d.access_service }

abbrev pub read_dataset : DspDataset → Dataset
read_dataset d = record {
  id = d.id;
  properties = [];
  distributions = map read_distribution d.distribution;
}

abbrev pub read_service : DspDataService → DataService
read_service s = record { id = s.id; endpoint_url = s.endpoint_url; endpoint_description = none }

unfoldable mutual
  -- The services of a response, and of the catalogs nested in it
  pub offered : DspCatalog → List DspDataService
  offered (dsp_catalog context id ld_type participant_id dataset service catalogs) =
      service ++ offered_by catalogs

  pub offered_by : DspCatalogs → List DspDataService
  offered_by no_catalogs = []
  offered_by (one_catalog c cs) = offered c ++ offered_by cs

distributions_lem :
    (ds : List DspDistribution)
    → distributions_of (of_list (map distribution_value ds)) ≡ map read_distribution ds
unfolding get_id get_str get lookup
distributions_lem [] = refl
distributions_lem (d ∷ ds) = ap (◌∷◌ (read_distribution d)) (distributions_lem ds)

mentions_nothing :
    (ds : List DspDistribution)
    → mentioned_by_distributions (of_list (map distribution_value ds)) ≡ []
unfolding get_id get_str get lookup
mentions_nothing [] = refl
mentions_nothing (d ∷ ds) = mentions_nothing ds

dataset_lem :
    (context : Option (List String)) (d : DspDataset) (vs : Items)
    → datasets_of (item (dataset_value (record d { context = context })) vs)
      ≡ read_dataset d ∷ datasets_of vs
unfolding get_id get_str get_array get lookup
dataset_lem none d vs =
    ap (λ ds. record (read_dataset d) { distributions = ds } ∷ datasets_of vs)
      (distributions_lem d.distribution)
dataset_lem (some context) d vs =
    ap (λ ds. record (read_dataset d) { distributions = ds } ∷ datasets_of vs)
      (distributions_lem d.distribution)

datasets_lem :
    (ds : List DspDataset) → datasets_of (of_list (map dataset_value ds)) ≡ map read_dataset ds
datasets_lem [] = refl
datasets_lem (d ∷ ds) =
    dataset_lem d.context d (of_list (map dataset_value ds))
    ∙ ap (◌∷◌ (read_dataset d)) (datasets_lem ds)

dataset_mentions :
    (context : Option (List String)) (d : DspDataset) (vs : Items)
    → mentioned_by_datasets (item (dataset_value (record d { context = context })) vs)
      ≡ mentioned_by_datasets vs
unfolding get_id get_str get_array get lookup
dataset_mentions none d vs =
    ap (λ ss. ss ++ mentioned_by_datasets vs) (mentions_nothing d.distribution)
dataset_mentions (some context) d vs =
    ap (λ ss. ss ++ mentioned_by_datasets vs) (mentions_nothing d.distribution)

datasets_mention :
    (ds : List DspDataset) → mentioned_by_datasets (of_list (map dataset_value ds)) ≡ []
datasets_mention [] = refl
datasets_mention (d ∷ ds) =
    dataset_mentions d.context d (of_list (map dataset_value ds)) ∙ datasets_mention ds

services_lem :
    (ss : List DspDataService)
    → mentioned_by_services (of_list (map service_value ss)) ≡ map read_service ss
unfolding parse_data_service get_id get_str get lookup
services_lem [] = refl
services_lem (s ∷ ss) = ap (◌∷◌ (read_service s)) (services_lem ss)

mentions_own :
    (ds : List DspDataset) (ss : List DspDataService)
    → mentioned_by_services (of_list (map service_value ss))
        ++ mentioned_by_datasets (of_list (map dataset_value ds))
      ≡ map read_service ss
mentions_own ds ss =
    ap (◌++◌ (mentioned_by_services (of_list (map service_value ss)))) (datasets_mention ds)
    ∙ append-nil _
    ∙ services_lem ss

-- What is read in a catalog: its own, and then that of the catalogs nested in it
mutual
  unfolding advertised catalog_value documents get_array get lookup

  pub advertised-catalog_value :
      (c : DspCatalog) → advertised (catalog_value c) ≡ map read_dataset (documents c)
  advertised-catalog_value (dsp_catalog context id ld_type participant_id ds ss no_catalogs) =
      append-nil _ ∙ datasets_lem ds ∙ ap (map read_dataset) (sym (append-nil ds))
  advertised-catalog_value
        (dsp_catalog context id ld_type participant_id ds ss (one_catalog c cs)) =
      ap (λ xs. xs ++ advertised_by_items (catalog_items (one_catalog c cs))) (datasets_lem ds)
      ∙ ap (◌++◌ (map read_dataset ds)) (advertised-catalog_items (one_catalog c cs))
      ∙ sym (map-append read_dataset ds (documents_of (one_catalog c cs)))

  advertised-catalog_items :
      (cs : DspCatalogs)
      → advertised_by_items (catalog_items cs) ≡ map read_dataset (documents_of cs)
  advertised-catalog_items no_catalogs = refl
  advertised-catalog_items (one_catalog c cs) =
      ap (λ xs. xs ++ advertised_by_items (catalog_items cs)) (advertised-catalog_value c)
      ∙ ap (◌++◌ (map read_dataset (documents c))) (advertised-catalog_items cs)
      ∙ sym (map-append read_dataset (documents c) (documents_of cs))

mutual
  unfolding mentioned catalog_value offered get_array get lookup

  pub mentioned-catalog_value :
      (c : DspCatalog) → mentioned (catalog_value c) ≡ map read_service (offered c)
  mentioned-catalog_value (dsp_catalog context id ld_type participant_id ds ss no_catalogs) =
      append-nil _ ∙ mentions_own ds ss ∙ ap (map read_service) (sym (append-nil ss))
  mentioned-catalog_value (dsp_catalog context id ld_type participant_id ds ss (one_catalog c cs)) =
      ap (λ xs. xs ++ mentioned_by_items (catalog_items (one_catalog c cs))) (mentions_own ds ss)
      ∙ ap (◌++◌ (map read_service ss)) (mentioned-catalog_items (one_catalog c cs))
      ∙ sym (map-append read_service ss (offered_by (one_catalog c cs)))

  mentioned-catalog_items :
      (cs : DspCatalogs) → mentioned_by_items (catalog_items cs) ≡ map read_service (offered_by cs)
  mentioned-catalog_items no_catalogs = refl
  mentioned-catalog_items (one_catalog c cs) =
      ap (λ xs. xs ++ mentioned_by_items (catalog_items cs)) (mentioned-catalog_value c)
      ∙ ap (◌++◌ (map read_service (offered c))) (mentioned-catalog_items cs)
      ∙ sym (map-append read_service (offered c) (offered_by cs))

pub dsp_dataset-read :
    (P : Platform) (d : Dataset) (w : P.World) → read_dataset (dsp_dataset P d w).0 ≡ exported d
unfolding dsp_dataset
dsp_dataset-read P d w =
    ap (λ ds. record d { properties = []; distributions = ds }) (same d.distributions)
  where
    same : (ds : List Distribution) → map read_distribution (map dsp_distribution ds) ≡ ds
    same [] = refl
    same (x ∷ xs) = ap (◌∷◌ x) (same xs)
