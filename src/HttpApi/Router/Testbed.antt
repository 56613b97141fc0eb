-- ===== src/HttpApi/Router/Testbed.antt =====
-- A router for the tests, which matches as the hypotheses on axum say.
use federated_catalog_rs.Prelude.{
  ℕ, String, ◌≡◌, refl, ◌≢◌, Bool, true, false, ◌&&◌, Option, none, some, List, [], ◌∷◌, All, arith,
  ap, ◌∙◌, ◌==◌, if◌then◌else◌,
}
use federated_catalog_rs.Text.{◌+++◌, is_empty, strip_prefix}
use federated_catalog_rs.Text.Splitting.{Lacks, lacks, strip_prefix-append}
use federated_catalog_rs.Sorting.Unique.{All-Memᴰ}
use federated_catalog_rs.Platform.{Method, http_get, http_post}
use federated_catalog_rs.HttpApi.Router.{
  get_dsp_dataset_endpoint, Route, build_router, Dispatch, matched, unmatched, Dispatcher,
  IsRouting,
}

abbrev same_method : Method → Method → Bool
same_method http_get http_get = true
same_method http_get http_post = false
same_method http_post http_get = false
same_method http_post http_post = true

abbrev literally : List Route → Method → String → Dispatch
literally [] m path = unmatched 404
literally (r ∷ rs) m path =
    let rest = literally rs m path in
    if same_method r.method m && r.pattern' == path then matched r.endpoint "" else rest

abbrev by_prefix : Option String → List Route → Method → String → Dispatch
by_prefix none rs m path = literally rs m path
by_prefix (some c) rs http_get path =
    if is_empty c then unmatched 404 else matched get_dsp_dataset_endpoint c
by_prefix (some c) rs http_post path = unmatched 405

unfoldable pub dispatch : Dispatcher
unfolding strip_prefix
dispatch rs m path = by_prefix (strip_prefix "/dsp/catalog/datasets/" path) rs m path

Lacks-lacks : (k : ℕ) (s : String) → Lacks k s → lacks k s ≡ true
Lacks-lacks k String.[] h = refl
Lacks-lacks k (String.◌∷◌ c s) (p, h) = ground (arith, Lacks-lacks k s h)

nonempty : (c : String) → c ≢ "" → is_empty c ≡ false
nonempty String.[] h = absurd (h refl)
nonempty (String.◌∷◌ c s) h = refl

id_route :
    Lacks b'{' "/dsp/catalog/datasets/{id}"
    → dispatch build_router http_get "/dsp/catalog/datasets/{id}"
      ≡ matched get_dsp_dataset_endpoint ""
id_route l = ground (arith, Lacks-lacks b'{' "/dsp/catalog/datasets/{id}" l)

routes_literally :
    All
      (λ r.
        Lacks b'{' r.pattern' → dispatch build_router r.method r.pattern' ≡ matched r.endpoint "")
      build_router
unfolding dispatch
routes_literally = (
  λ l. refl,
  (λ l. refl, (λ l. refl, (λ l. refl, (id_route, (λ l. refl, (λ l. refl, (λ l. refl, tt))))))),
)

pub dispatch-IsRouting : IsRouting dispatch
unfolding dispatch
dispatch-IsRouting = record {
  literal = λ r m l.
      All-Memᴰ
        (λ r.
          Lacks b'{' r.pattern' → dispatch build_router r.method r.pattern' ≡ matched r.endpoint "")
        build_router routes_literally m l;
  captured = λ c n s p.
      ap (λ o. by_prefix o build_router http_get ("/dsp/catalog/datasets/" +++ c))
        (strip_prefix-append "/dsp/catalog/datasets/" c)
      ∙ ap (λ b. if b then unmatched 404 else matched get_dsp_dataset_endpoint c) (nonempty c n);
}
