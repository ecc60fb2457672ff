-- ===== src/Api/Services/Overviews.antt =====
-- Each list of services that the API sends is an overview of the table that its query met.
use vkr_public.Base.{◌≡◌, refl, ◌⊎◌, inl, inr, List, [], ◌∷◌, Option-cases}
use vkr_public.Storage.Tables.{Tables, Link}
use vkr_public.Storage.Services.{ServiceInfo, Collation, query_services}
use vkr_public.Storage.Services.Overview.{IsOverview, query_services-IsOverview}
use vkr_public.Api.Services.{query_error, services, get_services, push_services}

-- GET of the services answers 500 where the query fails, and 200 with the overview of the services
-- otherwise.
pub get_services-IsOverview :
    (larger_text : Collation) (link : Link) (db : Tables)
    → (get_services larger_text link db
        ≡ record { status = 500; body = query_error "query failed" })
      ⊎ ((rows : List ServiceInfo) × IsOverview db.metrics rows
          × (get_services larger_text link db ≡ record { status = 200; body = services rows }))
unfolding get_services
get_services-IsOverview larger_text link db =
    elim (Option-cases (query_services larger_text link db)) [
      | inl failed ↦ rw failed (inl refl)
      | inr (rows, e) ↦ rw e (inr (rows, query_services-IsOverview larger_text link db e, refl))
    ]

-- The events are overviews of the tables at some of the pushes, in their order.
abbrev pub Overviews : List (Link × Tables) → List (List ServiceInfo) → Type 0
Overviews [] es = es ≡ []
Overviews ((link, db) ∷ rest) [] = Overviews rest []
Overviews ((link, db) ∷ rest) (e ∷ es) =
    (IsOverview db.metrics e × Overviews rest es) ⊎ Overviews rest (e ∷ es)

Overviews-skip :
    (link : Link) (db : Tables) (rest : List (Link × Tables)) (es : List (List ServiceInfo))
    → Overviews rest es
    → Overviews ((link, db) ∷ rest) es
Overviews-skip link db rest [] h = h
Overviews-skip link db rest (e ∷ es) h = inr h

-- Whatever the fates of the queries, each event of the stream of services is an overview of the
-- table that its query met, in the order of the pushes.
pub push_services-Overviews :
    (larger_text : Collation) (pushes : List (Link × Tables))
    → Overviews pushes (push_services larger_text pushes)
unfolding push_services
push_services-Overviews larger_text [] = refl
push_services-Overviews larger_text ((link, db) ∷ rest) =
    let later = push_services-Overviews larger_text rest in
    elim (Option-cases (query_services larger_text link db)) [
      | inl failed ↦ rw failed (Overviews-skip link db rest (push_services larger_text rest) later)
      | inr (rows, e) ↦ rw e (inl (query_services-IsOverview larger_text link db e, later))
    ]
