-- ===== src/HttpApi/Handlers/Shown.antt =====
-- Which datasets and catalogs the body of a catalog response shows.
use mathlib.Core.List.{append-nil, map-append}
use federated_catalog_rs.Prelude.{
  String, ◌≡◌, refl, sym, ap, ◌∙◌, Bool, Option, none, some, List, [], ◌∷◌, ◌++◌, map, filter, leb,
  length, Bool-cases, inl, inr, arith, true, false, if◌then◌else◌,
}
use federated_catalog_rs.Platform.{Platform}
use federated_catalog_rs.Catalog.{Catalog, Dataset, node_id_to_string}
use federated_catalog_rs.Json.{unwrap_or}
use federated_catalog_rs.HttpApi.Wire.{
  DspCatalog, DspCatalogs, dsp_catalog, no_catalogs, one_catalog, DspDataset, dsp_dataset,
  map_world, new_urn_uuid,
}
use federated_catalog_rs.HttpApi.Auth.{visible_datasets, contains}
use federated_catalog_rs.HttpApi.Handlers.{
  flatten_catalogs, add_catalog, nested_catalog, nested_catalogs, flat_body, federation_body,
  catalog_body,
}

abbrev pub dataset_id : Dataset → String
dataset_id d = d.id

abbrev pub dsp_id : DspDataset → String
dsp_id d = d.id

unfoldable mutual
  -- The datasets of a response, and of the catalogs nested in it
  pub documents : DspCatalog → List DspDataset
  documents (dsp_catalog context id ld_type participant_id dataset service catalogs) =
      dataset ++ documents_of catalogs

  pub documents_of : DspCatalogs → List DspDataset
  documents_of no_catalogs = []
  documents_of (one_catalog c cs) = documents c ++ documents_of cs

-- Their ids
abbrev pub shown : DspCatalog → List String
shown c = map dsp_id (documents c)

-- Each nested catalog has a dataset, and nests no other.
abbrev pub IsNested : DspCatalog → Type 0
IsNested (dsp_catalog context id ld_type participant_id dataset service catalogs) =
    (d : DspDataset) × (ds : List DspDataset) × (dataset ≡ d ∷ ds) × (catalogs ≡ no_catalogs)

abbrev pub AllNested : DspCatalogs → Type 0
AllNested no_catalogs = Unit
AllNested (one_catalog c cs) = IsNested c × AllNested cs

abbrev pub nested_in : DspCatalog → DspCatalogs
nested_in (dsp_catalog context id ld_type participant_id dataset service catalogs) = catalogs

-- The participants of nested catalogs, each with the ids of its datasets
abbrev pub group_of : DspCatalog → String × List String
group_of (dsp_catalog _ _ _ participant_id dataset _ _) = (participant_id, map dsp_id dataset)

abbrev pub groups : DspCatalogs → List (String × List String)
groups no_catalogs = []
groups (one_catalog c cs) = group_of c ∷ groups cs

-- What they ought to be: the participant of a cached catalog, with what the caller may see of it
abbrev pub visible_group : Option (List String) → Catalog → String × List String
visible_group allowed c = (
  unwrap_or c.participant_id (node_id_to_string c.origin_node),
  map dataset_id (visible_datasets allowed c.datasets),
)

abbrev pub has_ids : String × List String → Bool
has_ids (participant, []) = false
has_ids (participant, id ∷ ids) = true

-- The datasets that the caller may see, in the order of the catalogs, and their ids
abbrev pub visible_in : Option (List String) → List Catalog → List Dataset
visible_in allowed catalogs = visible_datasets allowed (flatten_catalogs catalogs).0

abbrev pub visible_ids : Option (List String) → List Catalog → List String
visible_ids allowed catalogs = map dataset_id (visible_in allowed catalogs)

filter-append :
    {A : Type 0} (p : A → Bool) (xs ys : List A) → filter p (xs ++ ys) ≡ filter p xs ++ filter p ys
filter-append p [] ys = refl
filter-append p (x ∷ xs) ys = ground (arith, filter-append p xs ys)

visible-append :
    (allowed : Option (List String)) (xs ys : List Dataset)
    → visible_datasets allowed (xs ++ ys)
      ≡ visible_datasets allowed xs ++ visible_datasets allowed ys
unfolding visible_datasets
visible-append none xs ys = refl
visible-append (some ids) xs ys = filter-append (λ d. contains ids d.id) xs ys

visible-nil : (allowed : Option (List String)) → visible_datasets allowed [] ≡ []
unfolding visible_datasets
visible-nil none = refl
visible-nil (some ids) = refl

visible_in-cons :
    (allowed : Option (List String)) (c : Catalog) (cs : List Catalog)
    → visible_in allowed (c ∷ cs) ≡ visible_datasets allowed c.datasets ++ visible_in allowed cs
unfolding flatten_catalogs
visible_in-cons allowed c cs = visible-append allowed c.datasets (flatten_catalogs cs).0

dsp_dataset-id : (P : Platform) (d : Dataset) (w : P.World) → dsp_id (dsp_dataset P d w).0 ≡ d.id
unfolding dsp_dataset
dsp_dataset-id P d w = refl

-- What a reader `f` of a document sees is what `g` says of the dataset that it was made of.
module _ (P : Platform) {B : Type 0} (f : DspDataset → B) (g : Dataset → B)
    (reads : (d : Dataset) (w : P.World) → f (dsp_dataset P d w).0 ≡ g d) where
  reads-map_world :
      (ds : List Dataset) (w : P.World) → map f (map_world (dsp_dataset P) ds w).0 ≡ map g ds
  reads-map_world [] w = refl
  reads-map_world (d ∷ ds) w = cc (reads d w, reads-map_world ds (dsp_dataset P d w).1)

  reads-nested_catalog :
      (c : Catalog) (ds : List Dataset) (w : P.World) (rest : DspCatalogs)
      → map f (documents_of (add_catalog (nested_catalog P c ds w).0 rest))
        ≡ map g ds ++ map f (documents_of rest)
  unfolding documents
  reads-nested_catalog c [] w rest = refl
  reads-nested_catalog c (d ∷ ds) w rest =
      let own = (map_world (dsp_dataset P) (d ∷ ds) (new_urn_uuid P w).1).0 in
      map-append f (own ++ []) (documents_of rest)
      ∙ ap (λ xs. map f xs ++ map f (documents_of rest)) (append-nil own)
      ∙ ap (λ ys. ys ++ map f (documents_of rest)) (reads-map_world (d ∷ ds) (new_urn_uuid P w).1)

  reads-nested_catalogs :
      (allowed : Option (List String)) (cs : List Catalog) (w : P.World)
      → map f (documents_of (nested_catalogs P allowed cs w).0) ≡ map g (visible_in allowed cs)
  unfolding nested_catalogs flatten_catalogs documents
  reads-nested_catalogs allowed [] w = ap (map g) (sym (visible-nil allowed))
  reads-nested_catalogs allowed (c ∷ cs) w =
      let own = visible_datasets allowed c.datasets in
      let (first, w1) = nested_catalog P c own w in
      reads-nested_catalog c own w (nested_catalogs P allowed cs w1).0
      ∙ ap (◌++◌ (map g own)) (reads-nested_catalogs allowed cs w1)
      ∙ sym (ap (map g) (visible_in-cons allowed c cs) ∙ map-append g own (visible_in allowed cs))

  pub reads-catalog_body :
      (allowed : Option (List String)) (cs : List Catalog) (w : P.World)
      → map f (documents (catalog_body P allowed cs w).0) ≡ map g (visible_in allowed cs)
  unfolding catalog_body flat_body federation_body documents
  reads-catalog_body allowed cs w = elim (Bool-cases (leb (length cs) 1)) [
    | inl e ↦
        rw e
          (ap (map f) (append-nil _) ∙ reads-map_world (visible_in allowed cs) (new_urn_uuid P w).1)
    | inr e ↦ rw e (reads-nested_catalogs allowed cs w)
  ]

module _ (P : Platform) where
  AllNested-nested_catalog :
      (c : Catalog) (ds : List Dataset) (w : P.World) (rest : DspCatalogs)
      → AllNested rest
      → AllNested (add_catalog (nested_catalog P c ds w).0 rest)
  AllNested-nested_catalog c [] w rest h = h
  AllNested-nested_catalog c (d ∷ ds) w rest h = ((_, _, refl, refl), h)

  AllNested-nested_catalogs :
      (allowed : Option (List String)) (cs : List Catalog) (w : P.World)
      → AllNested (nested_catalogs P allowed cs w).0
  unfolding nested_catalogs
  AllNested-nested_catalogs allowed [] w = tt
  AllNested-nested_catalogs allowed (c ∷ cs) w =
      AllNested-nested_catalog c (visible_datasets allowed c.datasets) w _
        (AllNested-nested_catalogs allowed cs _)

  -- The body of a catalog response shows exactly the datasets that the caller may see, in the order
  -- of the catalogs, whether it is flat or nests a catalog for each node.
  pub shown-catalog_body :
      (allowed : Option (List String)) (cs : List Catalog) (w : P.World)
      → shown (catalog_body P allowed cs w).0 ≡ visible_ids allowed cs
  shown-catalog_body allowed cs w =
      reads-catalog_body P dsp_id dataset_id (dsp_dataset-id P) allowed cs w

  groups-nested_catalog :
      (c : Catalog) (ds : List Dataset) (w : P.World) (rest : DspCatalogs)
      → groups (add_catalog (nested_catalog P c ds w).0 rest)
        ≡ filter has_ids
            ((unwrap_or c.participant_id (node_id_to_string c.origin_node), map dataset_id ds) ∷ [])
          ++ groups rest
  groups-nested_catalog c [] w rest = refl
  groups-nested_catalog c (d ∷ ds) w rest =
      ap (λ ids. (unwrap_or c.participant_id (node_id_to_string c.origin_node), ids) ∷ groups rest)
        (reads-map_world P dsp_id dataset_id (dsp_dataset-id P) (d ∷ ds) (new_urn_uuid P w).1)

  groups-nested_catalogs :
      (allowed : Option (List String)) (cs : List Catalog) (w : P.World)
      → groups (nested_catalogs P allowed cs w).0 ≡ filter has_ids (map (visible_group allowed) cs)
  unfolding nested_catalogs
  groups-nested_catalogs allowed [] w = refl
  groups-nested_catalogs allowed (c ∷ cs) w =
      let own = visible_datasets allowed c.datasets in
      let (first, w1) = nested_catalog P c own w in
      groups-nested_catalog c own w (nested_catalogs P allowed cs w1).0
      ∙ ap (◌++◌ (filter has_ids (visible_group allowed c ∷ [])))
          (groups-nested_catalogs allowed cs w1)
      ∙ sym (filter-append has_ids (visible_group allowed c ∷ []) (map (visible_group allowed) cs))

  -- The body of a response for at most one node nests no catalog. For several nodes it nests one for
  -- each that has a dataset that the caller may see, in order, with the node's participant and exactly
  -- the ids that the caller may see of it; so a node without one is left out. No nested catalog nests
  -- another.
  pub nested-catalog_body :
      (allowed : Option (List String)) (cs : List Catalog) (w : P.World)
      → (groups (nested_in (catalog_body P allowed cs w).0)
          ≡ (if leb (length cs) 1 then [] else filter has_ids (map (visible_group allowed) cs)))
        × AllNested (nested_in (catalog_body P allowed cs w).0)
  unfolding catalog_body flat_body federation_body
  nested-catalog_body allowed cs w = elim (Bool-cases (leb (length cs) 1)) [
    | inl e ↦ rw e (refl, tt)
    | inr e ↦ rw e (groups-nested_catalogs allowed cs w, AllNested-nested_catalogs allowed cs w)
  ]
