-- ===== src/Api/Router/Stores.antt =====
-- What a request does to the store.
use vkr_public.Base.{String, Bool, true, false, ◌≡◌, refl, ◌⊎◌, inl, inr, Option}
use vkr_public.Instant.{Time, TimeText}
use vkr_public.Json.{Json}
use vkr_public.Storage.Tables.{Link}
use vkr_public.Storage.Services.{Collation}
use vkr_public.Api.Thresholds.{Store, handle_set}
use vkr_public.Api.Handler.{Atoi}
use vkr_public.Api.Router.{
  Request, ask_thresholds, put_thresholds, ask_metrics, ask_logs, ask_trace, open_stream,
  ask_health, ask_prometheus, ask_page, unmatched, ask_services, open_services, Answer, passes,
  guarded, set_answer, serve_api,
}

guarded-same : (b : Bool) (s : Store) (a : Answer) → (guarded b s (s, a)).0 ≡ s
guarded-same true s a = refl
guarded-same false s a = refl

guarded-set :
    (b : Bool) (link : Link) (body : Option Json) (s : Store)
    → ((guarded b s (set_answer (handle_set link body s))).0 ≡ s)
      ⊎ ((guarded b s (set_answer (handle_set link body s))).0 ≡ (handle_set link body s).0)
guarded-set true link body s = inr refl
guarded-set false link body s = inl refl

-- Only a PUT of the thresholds changes the store, and it changes it as handleSet does.
pub serve_api_store :
    (clock : TimeText) (atoi : Atoi) (larger_text : Collation) (api_key : String) (link : Link)
    (now : Time) (header : String) (request : Request) (s : Store)
    → ((serve_api clock atoi larger_text api_key link now header request s).0 ≡ s)
      ⊎ ((body : Option Json) × ((serve_api clock atoi larger_text api_key link now header request
              s).0
            ≡ (handle_set link body s).0))
unfolding serve_api
serve_api_store clock atoi larger_text api_key link now header ask_thresholds s = inl refl
serve_api_store clock atoi larger_text api_key link now header ask_health s = inl refl
serve_api_store clock atoi larger_text api_key link now header ask_prometheus s = inl refl
serve_api_store clock atoi larger_text api_key link now header ask_page s = inl refl
serve_api_store clock atoi larger_text api_key link now header (unmatched method path) s = inl refl
serve_api_store clock atoi larger_text api_key link now header
      (open_stream service query_key first since ticks) s =
    inl refl
serve_api_store clock atoi larger_text api_key link now header (open_services query_key pushes) s =
    inl refl
serve_api_store clock atoi larger_text api_key link now header ask_services s =
    inl (guarded-same (passes api_key header) s _)
serve_api_store clock atoi larger_text api_key link now header (ask_metrics service from to) s =
    inl (guarded-same (passes api_key header) s _)
serve_api_store clock atoi larger_text api_key link now header (ask_logs service level limit) s =
    inl (guarded-same (passes api_key header) s _)
serve_api_store clock atoi larger_text api_key link now header (ask_trace trace_id) s =
    inl (guarded-same (passes api_key header) s _)
serve_api_store clock atoi larger_text api_key link now header (put_thresholds body) s =
    elim (guarded-set (passes api_key header) link body s) [
      | inl same ↦ inl same
      | inr set ↦ inr (body, set)
    ]
