-- ===== src/HttpApi/Federation/Offers.antt =====
-- The services that the body of a catalog response offers.
use mathlib.Core.List.{append-nil, map-append}
use federated_catalog_rs.Prelude.{
  String, ◌≡◌, refl, sym, ap, ◌∙◌, Option, none, List, [], ◌∷◌, ◌++◌, map, leb, length,
  if◌then◌else◌, Bool-cases, inl, inr,
}
use federated_catalog_rs.Platform.{Platform}
use federated_catalog_rs.Catalog.{Catalog, Dataset, DataService}
use federated_catalog_rs.HttpApi.Wire.{DspCatalogs, dsp_data_service}
use federated_catalog_rs.HttpApi.Handlers.{
  catalog_body, flat_body, federation_body, nested_catalog, nested_catalogs, add_catalog,
  flatten_catalogs,
}
use federated_catalog_rs.HttpApi.Auth.{visible_datasets}
use federated_catalog_rs.HttpApi.Federation.Reading.{read_service, offered, offered_by}

-- A service as it comes over the wire: all but its description
abbrev pub undescribed : DataService → DataService
undescribed s = record s { endpoint_description = none }

abbrev services_if_any : List Dataset → List DataService → List DataService
services_if_any [] ss = []
services_if_any (d ∷ ds) ss = ss

-- The services of the catalogs of which the caller may see a dataset
abbrev pub services_of_visible : Option (List String) → List Catalog → List DataService
services_of_visible allowed [] = []
services_of_visible allowed (c ∷ cs) =
    services_if_any (visible_datasets allowed c.datasets) c.data_services
    ++ services_of_visible allowed cs

-- The services that a response offers: those of the only catalog, or those of the visible ones
abbrev pub offered_services : Option (List String) → List Catalog → List DataService
offered_services allowed cs =
    if leb (length cs) 1 then (flatten_catalogs cs).1 else services_of_visible allowed cs

read_service-data_services :
    (ss : List DataService) → map read_service (map dsp_data_service ss) ≡ map undescribed ss
read_service-data_services [] = refl
read_service-data_services (s ∷ ss) = ap (◌∷◌ (undescribed s)) (read_service-data_services ss)

module _ (P : Platform) (allowed : Option (List String)) where
  offered-nested_catalog :
      (c : Catalog) (ds : List Dataset) (w : P.World) (rest : DspCatalogs)
      → map read_service (offered_by (add_catalog (nested_catalog P c ds w).0 rest))
        ≡ map undescribed (services_if_any ds c.data_services) ++ map read_service (offered_by rest)
  unfolding offered
  offered-nested_catalog c [] w rest = refl
  offered-nested_catalog c (d ∷ ds) w rest =
      map-append read_service (map dsp_data_service c.data_services ++ []) (offered_by rest)
      ∙ ap (λ xs. map read_service xs ++ map read_service (offered_by rest)) (append-nil _)
      ∙ ap (λ ys. ys ++ map read_service (offered_by rest))
          (read_service-data_services c.data_services)

  offered-nested_catalogs :
      (cs : List Catalog) (w : P.World)
      → map read_service (offered_by (nested_catalogs P allowed cs w).0)
        ≡ map undescribed (services_of_visible allowed cs)
  unfolding nested_catalogs offered
  offered-nested_catalogs [] w = refl
  offered-nested_catalogs (c ∷ cs) w =
      let own = visible_datasets allowed c.datasets in
      let (first, w1) = nested_catalog P c own w in
      offered-nested_catalog c own w (nested_catalogs P allowed cs w1).0
      ∙ ap (◌++◌ (map undescribed (services_if_any own c.data_services)))
          (offered-nested_catalogs cs w1)
      ∙ sym (map-append undescribed (services_if_any own c.data_services) _)

  pub offered-catalog_body :
      (cs : List Catalog) (w : P.World)
      → map read_service (offered (catalog_body P allowed cs w).0)
        ≡ map undescribed (offered_services allowed cs)
  unfolding catalog_body flat_body federation_body offered
  offered-catalog_body cs w = elim (Bool-cases (leb (length cs) 1)) [
    | inl e ↦
        rw e (
          ap (map read_service) (append-nil _) ∙ read_service-data_services (flatten_catalogs cs).1)
    | inr e ↦ rw e (offered-nested_catalogs cs w)
  ]
