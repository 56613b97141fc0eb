-- ===== src/Crawler/Parse/Services.antt =====
-- The data services of a parsed catalog: no two of one id, and the first mention of an id is kept.
use federated_catalog_rs.Crawler.Parse.Mentions.{mentioned, add_all, collect-mentioned}
use federated_catalog_rs.Prelude.{
  String, ◌≡◌, refl, ◌≢◌, Bool, false, none, List, [], ◌∷◌, ◌++◌, any, find, All, ◌==◌,
  if◌then◌else◌, eq_iff, arith, Bool-cases, inl, inr, sym, ap, ◌∙◌,
}
use mathlib.Core.List.{append_assoc, append-nil}
use federated_catalog_rs.Json.{Value}
use federated_catalog_rs.Sorting.{HasDistinctKeys}
use federated_catalog_rs.Catalog.{DataService}
use federated_catalog_rs.Crawler.Config.{ParticipantEntry}
use federated_catalog_rs.Crawler.Parse.{service_id, add_service, parse_catalog_response}

abbrev pub with_id : String → DataService → Bool
with_id i s = s.id == i

any-find :
    (i : String) (services : List DataService)
    → any (with_id i) services ≡ false
    → find (with_id i) services ≡ none
any-find i [] h = refl
any-find i (s ∷ ss) h = ground (arith, any-find i ss)

find-append :
    (i : String) (xs ys : List DataService)
    → find (with_id i) (xs ++ ys)
      ≡ (if any (with_id i) xs then find (with_id i) xs else find (with_id i) ys)
find-append i [] ys = refl
find-append i (x ∷ xs) ys = ground (arith, find-append i xs ys)

-- One service more is found last.
find-add_service :
    (i : String) (s : DataService) (services rest : List DataService)
    → find (with_id i) (add_service s services ++ rest) ≡ find (with_id i) (services ++ s ∷ rest)
unfolding add_service
find-add_service i s services rest = elim (Bool-cases (any (with_id s.id) services)) [
  | inl e ↦
      rw (e, find-append i services rest, find-append i services (s ∷ rest))
        (ground (arith, eq_iff s.id i))
  | inr e ↦ rw e (ap (find (with_id i)) (append_assoc services (s ∷ []) rest))
]

find-add_all :
    (i : String) (xs services : List DataService)
    → find (with_id i) (add_all xs services) ≡ find (with_id i) (services ++ xs)
find-add_all i [] services = ap (find (with_id i)) (sym (append-nil services))
find-add_all i (x ∷ xs) services =
    find-add_all i xs (add_service x services) ∙ find-add_service i x services xs

apart :
    (s : DataService) (services : List DataService)
    → any (with_id s.id) services ≡ false
    → All (λ t. service_id t ≢ service_id s) services
apart s [] h = tt
apart s (t ∷ ts) h = ((λ e. ground (arith, eq_iff t.id s.id)), apart s ts (ground arith))

HasDistinctKeys-snoc :
    (s : DataService) (services : List DataService)
    → HasDistinctKeys service_id services
    → All (λ t. service_id t ≢ service_id s) services
    → HasDistinctKeys service_id (services ++ s ∷ [])
HasDistinctKeys-snoc s [] h k = (tt, tt)
HasDistinctKeys-snoc s (t ∷ ts) (p, h) (q, k) =
    (All-snoc (λ x. service_id t ≢ service_id x) ts p q, HasDistinctKeys-snoc s ts h k)
  where
    All-snoc :
        (P : DataService → Type 0) (xs : List DataService) → All P xs → P s → All P (xs ++ s ∷ [])
    All-snoc P [] g r = (r, tt)
    All-snoc P (x ∷ xs) (r, g) m = (r, All-snoc P xs g m)

add_service-distinct :
    (s : DataService) (services : List DataService)
    → HasDistinctKeys service_id services
    → HasDistinctKeys service_id (add_service s services)
unfolding add_service
add_service-distinct s services h = elim (Bool-cases (any (with_id s.id) services)) [
  | inl e ↦ rw e h
  | inr e ↦ rw e (HasDistinctKeys-snoc s services h (apart s services e))
]

add_all-distinct :
    (xs services : List DataService)
    → HasDistinctKeys service_id services
    → HasDistinctKeys service_id (add_all xs services)
add_all-distinct [] services h = h
add_all-distinct (x ∷ xs) services h =
    add_all-distinct xs (add_service x services) (add_service-distinct x services h)

module _ (v : Value) (p : ParticipantEntry) (uuid : String) where
  parsed-mentioned : (parse_catalog_response v p uuid).data_services ≡ add_all (mentioned v) []
  unfolding parse_catalog_response
  parsed-mentioned = collect-mentioned v _

  -- For every id, the parsed catalog's service of that id is the first one of that id that the
  -- response mentions, in the order `service`, then the `accessService` objects of the datasets that
  -- have an id, then the nested catalogs; an id that is never mentioned has none.
  pub parsed_services_first :
      (i : String)
      → find (with_id i) (parse_catalog_response v p uuid).data_services
        ≡ find (with_id i) (mentioned v)
  parsed_services_first i = rw parsed-mentioned (find-add_all i (mentioned v) [])

  -- No two services of a parsed catalog have the same id.
  pub parsed_services-distinct :
      HasDistinctKeys service_id (parse_catalog_response v p uuid).data_services
  parsed_services-distinct = rw parsed-mentioned (add_all-distinct (mentioned v) [] tt)
