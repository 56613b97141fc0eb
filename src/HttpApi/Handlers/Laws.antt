-- ===== src/HttpApi/Handlers/Laws.antt =====
-- The status of a reply, and what the replies give away.
use federated_catalog_rs.Prelude.{
  ℕ, String, ◌≡◌, refl, ◌≢◌, subst, All, sym, ap, ◌∙◌, ◌⊎◌, inl, inr, Option, none, some, List, [],
  ◌∷◌, Result, ok, err, map, find, ◌==◌, arith, text-cases,
}
use mathlib.Core.List.{Memᴰ}
use federated_catalog_rs.Platform.{Platform}
use federated_catalog_rs.Catalog.{Catalog, Dataset}
use federated_catalog_rs.Store.{CatalogCache, StoreResult, all}
use federated_catalog_rs.Store.Contract.{IsCache}
use federated_catalog_rs.HttpApi.Wire.{DspCatalog, DspDataset, dsp_dataset, not_found}
use federated_catalog_rs.HttpApi.Auth.{
  Reply, reply, panicked, dsp_catalog_body, dsp_dataset_body, DspAuthConfig, authorize,
  visible_datasets, unauthorized_response,
}
use federated_catalog_rs.HttpApi.Auth.Laws.{
  IsConsistent, Outcome, unrestricted, restricted, refused, authorize-Outcome,
}
use federated_catalog_rs.HttpApi.Handlers.{
  flatten_catalogs, flatten_cache, flatten_result, catalog_body, catalog_reply, authorized_catalog,
  catalog_request, dataset_reply, found_reply, get_dsp_dataset,
}
use federated_catalog_rs.HttpApi.Handlers.Shown.{dataset_id, shown, visible_ids, shown-catalog_body}

-- The status of a response that the handler gave
abbrev pub HasStatus : ℕ → Reply → Type 0
HasStatus n (reply status body) = status ≡ n
HasStatus n panicked = Unit → ⊥

module _ (P : Platform) (cache : CatalogCache) (auth : DspAuthConfig P)
    (consistent : IsConsistent P auth) where
  refused_status :
      (header : Option String) (w : P.World) (r : Result (Option (List String)) Reply)
      → Outcome P auth header w r
      → (e : Reply) → r ≡ err e
      → HasStatus 401 e
  unfolding unauthorized_response
  refused_status header w (err _) (refused w1 n) e h =
      subst (HasStatus 401) {x = (unauthorized_response P w1).0} (ground (arith, h)) refl
  refused_status header w (ok _) (unrestricted m) e h = ground arith
  refused_status header w (ok _) (restricted t ids n b g) e h = ground arith

  -- A catalog response of status 200 to a caller with this access
  pub record Shows (state : cache.State) (allowed : Option (List String)) (r : Reply) : Type 0 where
    pub body : DspCatalog
    pub catalogs : List Catalog
    pub queried : cache.query all state ≡ ok catalogs
    pub responded : r ≡ reply 200 (dsp_catalog_body body)
    pub shows_visible : shown body ≡ visible_ids allowed catalogs

  -- What a catalog request over this state may come to
  abbrev pub CatalogOutcome : Option String → cache.State → P.World → Reply → Type 0
  CatalogOutcome header state w r =
      HasStatus 401 r
      ⊎ (allowed : Option (List String)) × Outcome P auth header w (ok allowed)
        × Shows state allowed r

  module _ (laws : IsCache cache) (header : Option String) (state : cache.State)
      (sound : laws.IsSound state) where
    reply-Shows :
        (allowed : Option (List String)) (w : P.World) (r : StoreResult (List Catalog))
        → cache.query all state ≡ r
        → ((cs : List Catalog) × (r ≡ ok cs))
        → Shows state allowed (catalog_reply P cache auth r allowed w).0
    reply-Shows allowed w (ok cs) q h = record {
      body = (catalog_body P allowed cs w).0;
      catalogs = cs;
      queried = q;
      responded = refl;
      shows_visible = shown-catalog_body P allowed cs w;
    }
    reply-Shows allowed w (err e) q (cs, h) = ground arith

    authorized-CatalogOutcome :
        (w : P.World) (a : Result (Option (List String)) Reply × P.World)
        → Outcome P auth header w a.0
        → CatalogOutcome header state w (authorized_catalog P cache auth a state).0
    authorized-CatalogOutcome w (ok allowed, w1) o =
        let (xs, q, e) = laws.query_result all state sound in
        inr (allowed, o, reply-Shows allowed w1 (cache.query all state) refl (_, q))
    authorized-CatalogOutcome w (err r, w1) o = inl (refused_status header w (err r) o r refl)

    -- Over a sound state of a cache that keeps its contract, with a consistent authorization, a catalog
    -- request is refused with 401, or it is answered
    -- with 200 and a body that shows exactly the cached datasets that the caller's authorization
    -- lets it see. So it is never answered with 404 or 500, nor does the handler panic.
    pub catalog_request-CatalogOutcome :
        (w : P.World)
        → CatalogOutcome header state w (catalog_request P cache auth header state w).0
    unfolding catalog_request
    catalog_request-CatalogOutcome w =
        authorized-CatalogOutcome w (authorize P auth header w)
          (authorize-Outcome P auth consistent header w)

module _ (P : Platform) (cache : CatalogCache) (auth : DspAuthConfig P) where
  flatten_cache-ok :
      (s : cache.State) (cs : List Catalog)
      → cache.query all s ≡ ok cs
      → flatten_cache cache s ≡ ok (flatten_catalogs cs)
  unfolding flatten_cache
  flatten_cache-ok s cs q = ap flatten_result q

  -- If the request is authorized, a lookup by id gives the same reply, and leaves the same world, over
  -- any two states that can be queried and whose visible datasets are the same: it tells a caller nothing of the datasets that it may not see.
  pub get_dsp_dataset-visible :
      (header : Option String) (id : String) (s t : cache.State) (w w1 : P.World)
      (allowed : Option (List String)) (cs ds : List Catalog)
      → authorize P auth header w ≡ (ok allowed, w1)
      → cache.query all s ≡ ok cs
      → cache.query all t ≡ ok ds
      → visible_datasets allowed (flatten_catalogs cs).0
        ≡ visible_datasets allowed (flatten_catalogs ds).0
      → get_dsp_dataset P cache auth header id s w ≡ get_dsp_dataset P cache auth header id t w
  unfolding get_dsp_dataset
  get_dsp_dataset-visible header id s t w w1 allowed cs ds a q r v = rw a (
      ap (λ f. (found_reply P cache auth f allowed id w1)) (flatten_cache-ok s cs q)
      ∙ ap (λ xs. dataset_reply P (find (λ d. d.id == id) xs) w1) v
      ∙ sym (ap (λ f. (found_reply P cache auth f allowed id w1)) (flatten_cache-ok t ds r)))

  -- What a reply to a lookup in a list of datasets says
  abbrev pub Found : String → List Dataset → Reply → Type 0
  Found id datasets r =
      ((body : DspDataset) × (r ≡ reply 200 (dsp_dataset_body body))
        × (body.id ≡ id)
        × Memᴰ id (map dataset_id datasets))
      ⊎ HasStatus 404 r × All (λ d. d.id ≢ id) datasets

  find_cases :
      (id : String) (xs : List Dataset)
      → ((d : Dataset) × (find (λ x. x.id == id) xs ≡ some d)
          × (d.id ≡ id)
          × Memᴰ id (map dataset_id xs))
        ⊎ (find (λ x. x.id == id) xs ≡ none) × All (λ x. x.id ≢ id) xs
  find_cases id [] = inr (refl, tt)
  find_cases id (x ∷ xs) = elim (text-cases x.id id) [
    | inl (e, p) ↦ inl (x, rw e refl, p, Memᴰ.head (sym p))
    | inr (e, p) ↦ elim (find_cases id xs) [
      | inl (d, f, q, m) ↦ inl (d, rw e f, q, Memᴰ.tail m)
      | inr (f, q) ↦ inr (rw e f, (p, q))
    ]
  ]

  dataset_reply-Found :
      (id : String) (xs : List Dataset) (w : P.World)
      → Found id xs (dataset_reply P (find (λ d. d.id == id) xs) w).0
  unfolding dsp_dataset not_found
  dataset_reply-Found id xs w = elim (find_cases id xs) [
    | inl (d, f, q, m) ↦ rw f (inl (_, refl, q, m))
    | inr (f, q) ↦ rw f (inr (refl, q))
  ]

  -- If the request is authorized and the state can be queried, a lookup by id is answered with a visible dataset that has this id; or none has, and the status
  -- is 404.
  pub get_dsp_dataset_lem :
      (header : Option String) (id : String) (s : cache.State) (w w1 : P.World)
      (allowed : Option (List String)) (cs : List Catalog)
      → authorize P auth header w ≡ (ok allowed, w1)
      → cache.query all s ≡ ok cs
      → Found id
          (visible_datasets allowed (flatten_catalogs cs).0)
          (get_dsp_dataset P cache auth header id s w).0
  unfolding get_dsp_dataset
  get_dsp_dataset_lem header id s w w1 allowed cs a q =
      rw (a, flatten_cache-ok s cs q)
        (dataset_reply-Found id (visible_datasets allowed (flatten_catalogs cs).0) w1)
