-- ===== src/Server/Run/Invariant.antt =====
-- What holds in every state that the running server reaches.
use mathlib.Core.List.{Memᴰ, append_assoc}
use mathlib.Core.List.Memᴰ
use federated_catalog_rs.Prelude.{
  suc, String, ◌≡◌, refl, sym, ap, ◌∙◌, subst, ◌⊎◌, inl, inr, Option, some, List, [], ◌∷◌, ◌++◌,
  Result, ok, err, length, length-append, arith, Bool-cases,
}
use federated_catalog_rs.Json.{or_else}
use federated_catalog_rs.Platform.{Platform}
use federated_catalog_rs.Catalog.{Catalog, NodeId, node_id, node_id_eq}
use federated_catalog_rs.Store.Contract.{IsCache}
use federated_catalog_rs.Dcp.Holder.{HolderIdentity}
use federated_catalog_rs.Crawler.Config.{ParticipantEntry}
use federated_catalog_rs.Crawler.Crawl.{CrawlSummary, crawl_one, record_outcome}
use federated_catalog_rs.Crawler.Crawl.Tally.{IsTally, IsTally-record_outcome}
use federated_catalog_rs.Crawler.Crawl.Laws.{
  fetched, crawl_one-origin, IsSound-record_outcome, view-record_outcome,
}
use federated_catalog_rs.HttpApi.Router.{AppState, Dispatcher}
use federated_catalog_rs.Server.Run.{
  Scheduler, waiting, crawling, received, Running, CrawlStep, fetch, store, finish, Step, tick,
  crawl, answer, Reach, here, next,
}

module _ (P : Platform) (holder : Option (HolderIdentity P))
    (participants : List ParticipantEntry) where
  -- A catalog that a crawl of one of the configured participants fetched
  pub record IsFetched (c : Catalog) : Type 0 where
    pub participant : ParticipantEntry
    pub configured : Memᴰ participant participants
    pub asked_in : P.World
    pub after : P.World
    pub crawled : crawl_one P participant holder asked_in ≡ (ok c, after)

module _ (P : Platform) (dispatch : Dispatcher) (app : AppState P)
    (participants : List ParticipantEntry) (laws : IsCache app.cache) where
  -- The participants before those that are left have been tried, and are counted; an outcome that is
  -- not yet recorded is that of the participant's crawl.
  abbrev pub IsOnCourse : Scheduler → Type 0
  IsOnCourse waiting = Unit
  IsOnCourse (crawling ps s) =
      (done : List ParticipantEntry) × (done ++ ps ≡ participants) × IsTally (length done) s
  IsOnCourse (received p o ps s) =
      (done : List ParticipantEntry) × (done ++ p ∷ ps ≡ participants)
      × IsTally (length done) s
      × (w : P.World) × (w' : P.World) × (crawl_one P p app.holder w ≡ (o, w'))

  -- The state `t` that a server which started with the cache `c0` may be in
  pub record IsValid (c0 : app.cache.State) (t : Running P dispatch app participants) : Type 0 where
    pub sound : laws.IsSound t.state
    pub origin :
        (n : NodeId) (c : Catalog)
        → laws.view t.state n ≡ some c
        → (laws.view c0 n ≡ some c) ⊎ IsFetched P app.holder participants c
    pub on_course : IsOnCourse t.scheduler

  length-snoc :
      (done : List ParticipantEntry) (p : ParticipantEntry)
      → suc (length done) ≡ length (done ++ p ∷ [])
  length-snoc done p = omega (arith, length-append done (p ∷ []))

  Memᴰ-middle :
      (done ps : List ParticipantEntry) (p : ParticipantEntry)
      → done ++ p ∷ ps ≡ participants
      → Memᴰ p participants
  Memᴰ-middle done ps p e = subst (Memᴰ p) e (Memᴰ.append_right done (Memᴰ.head refl))

  -- What the view has after an outcome is recorded, it had before, or the crawl fetched it.
  origin-or_else :
      (n : NodeId) (p : ParticipantEntry) (o : Result Catalog String) (c : Catalog)
      (v : Option Catalog)
      → or_else (fetched n p o) v ≡ some c
      → (o ≡ ok c) ⊎ (v ≡ some c)
  origin-or_else n p (err e) c v h = inr h
  origin-or_else n p (ok x) c v h = elim (Bool-cases (node_id_eq (node_id p.id) n)) [
    | inl e ↦ inl (ground (arith, h, e))
    | inr e ↦ inr (ground (arith, h, e))
  ]

  origin-record_outcome :
      (c0 state : app.cache.State) (p : ParticipantEntry) (o : Result Catalog String)
      (s : CrawlSummary) (w w' : P.World) (n : NodeId) (c : Catalog)
      → laws.IsSound state
      → Memᴰ p participants
      → crawl_one P p app.holder w ≡ (o, w')
      → ((m : NodeId) (d : Catalog)
          → laws.view state m ≡ some d
          → (laws.view c0 m ≡ some d) ⊎ IsFetched P app.holder participants d)
      → laws.view (record_outcome P app.cache app.holder p o s state).1 n ≡ some c
      → (laws.view c0 n ≡ some c) ⊎ IsFetched P app.holder participants c
  origin-record_outcome c0 state p o s w w' n c sound m e before h =
      let recorded =
        view-record_outcome P app.cache laws app.holder p o s state n sound
          (λ d q. crawl_one-origin P p app.holder w (e ∙ ap (λ r. (r, w')) q)) in
      elim (origin-or_else n p o c (laws.view state n) (sym recorded ∙ h)) [
        | inl q ↦ inr (record {
          participant = p;
          configured = m;
          asked_in = w;
          after = w';
          crawled = e ∙ ap (λ r. (r, w')) q;
        })
        | inr q ↦ before n c q
      ]

  CrawlStep-IsValid :
      {s t : Running P dispatch app participants} (c0 : app.cache.State)
      → CrawlStep P dispatch app participants s t
      → IsValid c0 s
      → IsValid c0 t
  CrawlStep-IsValid c0 (fetch {w} {p} {ps}) v =
      let (done, e, tally) = v.on_course in
      record { sound = v.sound; origin = v.origin; on_course = (done, e, tally, w, _, refl) }
  CrawlStep-IsValid c0 (store {c} {w} {p} {o} {ps} {s}) v =
      let (done, e, tally, w0, w1, crawled) = v.on_course in
      record {
        sound = IsSound-record_outcome P app.cache laws app.holder p o s c v.sound;
        origin = λ n d h.
            origin-record_outcome c0 c p o s w0 w1 n d v.sound (Memᴰ-middle done ps p e) crawled
              v.origin h;
        on_course = (
          done ++ p ∷ [],
          append_assoc done (p ∷ []) ps ∙ e,
          subst (λ n. IsTally n (record_outcome P app.cache app.holder p o s c).0)
              (length-snoc done p)
              (IsTally-record_outcome P app.cache app.holder (length done) p o s c tally),
        );
      }
  CrawlStep-IsValid c0 finish v = record { sound = v.sound; origin = v.origin; on_course = tt }

  Step-IsValid :
      {s t : Running P dispatch app participants} (c0 : app.cache.State)
      → Step P dispatch app participants s t
      → IsValid c0 s
      → IsValid c0 t
  Step-IsValid c0 tick v = record {
    sound = v.sound;
    origin = v.origin;
    on_course = ([], refl, record { attempted_all = refl; balanced = refl; listed = refl });
  }
  Step-IsValid c0 (crawl st) v = CrawlStep-IsValid c0 st v
  Step-IsValid c0 (answer r) v = record {
    sound = v.sound;
    origin = v.origin;
    on_course = v.on_course;
  }

  -- In every state that a server reaches from a sound cache, whatever requests come in between: the
  -- cache is sound; each catalog in it was there at the start or was fetched by a crawl of a
  -- configured participant; and the scheduler has counted the participants that it has tried in this
  -- cycle.
  pub Reach-IsValid :
      (c0 : app.cache.State) (w0 : P.World) (t : Running P dispatch app participants)
      → laws.IsSound c0
      → Reach P dispatch app participants (record { state = c0; world = w0; scheduler = waiting }) t
      → IsValid c0 t
  Reach-IsValid c0 w0 _ h here = record { sound = h; origin = λ n c e. inl e; on_course = tt }
  Reach-IsValid c0 w0 _ h (next {t} r st) = Step-IsValid c0 st (Reach-IsValid c0 w0 t h r)
