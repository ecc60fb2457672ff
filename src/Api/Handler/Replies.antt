-- ===== src/Api/Handler/Replies.antt =====
-- What the replies of the query handlers hold.
use mathlib.Core.List.{Perm}
use vkr_public.Base.{[], ◌∷◌, ◌≤◌}
use vkr_public.Storage.Select.{where_rows}
use vkr_public.Storage.Select.Laws.{IsSorted}
use vkr_public.Storage.Tables.{TraceSpan}
use vkr_public.Storage.Queries.{is_span_of, query_spans_by_trace}
use vkr_public.Storage.Queries.Laws.{query_spans_by_trace-IsSorted}
use vkr_public.Api.Handler.{error_text, get_trace, traced}
use vkr_public.Base.{
  ◌≤◌, String, ◌≡◌, ◌≢◌, refl, false, Option, some, List, arith, ◌==◌, eq_iff, if◌then◌else◌,
  length, none, ◌⊎◌, inl, inr, Bool-cases, Option-cases,
}
use vkr_public.Instant.{Time, TimeText}
use vkr_public.Http.{Reply}
use vkr_public.Storage.Select.Limit.{IsLatest}
use vkr_public.Storage.Tables.{Tables, Link, up, refused, lost}
use vkr_public.Storage.Queries.{in_range, query_metrics, is_log_of, query_logs}
use vkr_public.Storage.Queries.Laws.{query_metrics-IsLatest, query_logs-IsLatest}
use vkr_public.Api.Handler.{
  ApiBody, rows, Atoi, limit_of, parse_time_range, service_required, query_failed, listed,
  get_metrics, get_logs,
}

-- Whatever the limit parameter is, a query for logs asks for 1 to 1000 rows, and for 100 unless the
-- parameter is a number in that range.
pub limit_of_bounds :
    (atoi : Atoi) (l : String)
    → (1 ≤ limit_of atoi l)
      × (limit_of atoi l ≤ 1000)
      × ((limit_of atoi l ≡ 100) ⊎ (atoi.parse l ≡ some (limit_of atoi l)))
unfolding limit_of
limit_of_bounds atoi l = ground arith

-- The outcomes of a handler that needs a service: 400 without one, 500 where the query fails, and
-- 200 with the rows that `P` tells and their number.
abbrev pub Answers : {A : Type 0} → String → (List A → Type 0) → Reply (ApiBody A) → Type 0
Answers service P r =
    ((service ≡ "") × (r ≡ service_required))
    ⊎ ((service ≢ "")
        × ((r ≡ query_failed)
            ⊎ ((found : List _) × P found
                × (r ≡ record { status = 200; body = rows service (length found) found }))))

listed-Answers :
    {A : Type 0} (service : String) (P : List A → Type 0) (o : Option (List A))
    → ((found : List A) → o ≡ some found → P found)
    → Answers service P (if service == "" then service_required else listed service o)
listed-Answers service P o holds = elim (Bool-cases (service == "")) [
  | inl e ↦ rw e (inl ((eq_iff service "").0 e, refl))
  | inr e ↦ elim (Option-cases o) [
    | inl failed ↦ rw (e, failed) (inr (given e, inl refl))
    | inr (found, ok) ↦ rw (e, ok) (inr (given e, inr (found, holds found ok, refl)))
  ]
]
  where
    given : (service == "") ≡ false → service ≢ ""
    given e same = ground (arith, eq_iff service "")

-- GET of the metrics answers 400 without a service, and otherwise 500 or 200 with the newest points of
-- the service in the time range, 1000 at most, and their number.
pub get_metrics-Answers :
    (clock : TimeText) (link : Link) (now : Time) (service from to : String) (db : Tables)
    → let (start, finish) = parse_time_range clock now from to in
      Answers service
        (IsLatest (in_range service start finish) (λ m. m.timestamp) 1000 db.metrics)
        (get_metrics clock link now service from to db)
unfolding get_metrics
get_metrics-Answers clock link now service from to db =
    let (start, finish) = parse_time_range clock now from to in
    listed-Answers service _ (query_metrics link service start finish db)
      (λ found. query_metrics-IsLatest link service start finish db)

-- GET of the logs answers 400 without a service, and otherwise 500 or 200 with the newest entries of
-- the service and the level, as many as the limit allows, and their number.
pub get_logs-Answers :
    (atoi : Atoi) (link : Link) (service level limit : String) (db : Tables)
    → Answers service
        (IsLatest (is_log_of service level) (λ l. l.timestamp) (limit_of atoi limit) db.logs)
        (get_logs atoi link service level limit db)
unfolding get_logs
get_logs-Answers atoi link service level limit db =
    listed-Answers service _ (query_logs link service level (limit_of atoi limit) db)
      (λ found. query_logs-IsLatest link service level (limit_of atoi limit) db)

answered_up :
    (link : Link) (trace_id : String) (db : Tables) {found : List TraceSpan}
    → query_spans_by_trace link trace_id db ≡ some found
    → link ≡ up
unfolding query_spans_by_trace
answered_up up trace_id db h = refl
answered_up refused trace_id db h = cc
answered_up lost trace_id db h = cc

unanswered :
    (link : Link) (trace_id : String) (db : Tables)
    → query_spans_by_trace link trace_id db ≡ none
    → link ≢ up
unfolding query_spans_by_trace
unanswered up trace_id db h works = cc
unanswered refused trace_id db h works = cc works
unanswered lost trace_id db h works = cc works

-- The outcomes of the query of a trace: 500 where it fails, 404 where no span has the identifier, and
-- 200 with all the spans of the trace, by their start, and their number.
abbrev pub Traced : Link → String → Tables → Reply (ApiBody TraceSpan) → Type 0
Traced link trace_id db r =
    ((link ≢ up) × (r ≡ query_failed))
    ⊎ ((link ≡ up)
        × (r ≡ record { status = 404; body = error_text "trace not found" })
        × Perm [] (where_rows (is_span_of trace_id) db.spans))
    ⊎ ((link ≡ up)
        × (s : TraceSpan) × (ss : List TraceSpan) × Perm (s ∷ ss)
            (where_rows (is_span_of trace_id) db.spans)
        × IsSorted (λ a b. a.start_time ≤ b.start_time) (s ∷ ss)
        × (r ≡ record { status = 200; body = rows trace_id (length (s ∷ ss)) (s ∷ ss) }))

traced-Traced :
    (link : Link) (trace_id : String) (db : Tables) (found : List TraceSpan)
    → query_spans_by_trace link trace_id db ≡ some found
    → Traced link trace_id db (traced trace_id (some found))
traced-Traced link trace_id db [] e =
    let (all, _) = query_spans_by_trace-IsSorted link trace_id db e in
    inr (inl (answered_up link trace_id db e, refl, all))
traced-Traced link trace_id db (s ∷ ss) e =
    let (all, sorted) = query_spans_by_trace-IsSorted link trace_id db e in
    inr (inr (answered_up link trace_id db e, s, ss, all, sorted, refl))

-- GET of a trace answers 500 exactly where the database does not answer the query; otherwise it answers
-- 404 where the trace has no span, and 200 with all its spans by their start and their number where
-- it has one.
pub get_trace-Traced :
    (link : Link) (trace_id : String) (db : Tables)
    → Traced link trace_id db (get_trace link trace_id db)
unfolding get_trace
get_trace-Traced link trace_id db = elim (Option-cases (query_spans_by_trace link trace_id db)) [
  | inl failed ↦ rw failed (inl (unanswered link trace_id db failed, refl))
  | inr (found, e) ↦ rw e (traced-Traced link trace_id db found e)
]
