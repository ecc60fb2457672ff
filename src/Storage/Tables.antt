-- ===== src/Storage/Tables.antt =====
-- The rows, and the statements that write them (internal/storage/repository.go).
-- A statement meets one of three fates: the server executes it, it does not (it never arrives, or the
-- server turns it down, as it does a text with a zero byte), or it is executed and the answer is lost.
-- A serial number is used up also where the unique index refuses the row.
pub mod Inserts
use vkr_public.Base.{
  ℕ, ◌+◌, String, Bool, true, false, Option, none, some, List, [], ◌∷◌, ◌++◌, ◌==◌, ◌||◌,
  if◌then◌else◌, StringMap, Assoc, lookup, insert,
}
use vkr_public.Float64.{Float64}
use vkr_public.Instant.{Time, timestamptz}
use vkr_public.Json.{Json}

pub record MetricPoint : Type 0 where
  pub id : ℕ
  pub service_name : String
  pub metric_name : String
  pub value : Float64
  pub labels : StringMap
  pub timestamp : Time

pub record LogEntry : Type 0 where
  pub id : ℕ
  pub service_name : String
  pub level : String
  pub message : String
  pub trace_id : String
  pub fields : StringMap
  pub timestamp : Time

pub record TraceSpan : Type 0 where
  pub id : ℕ
  pub trace_id : String
  pub span_id : String
  pub parent_span_id : String
  pub service_name : String
  pub operation_name : String
  pub start_time : Time
  pub end_time : Time
  pub status : String
  pub attributes : StringMap

-- The tables, with the next number of each serial column.
pub record Tables : Type 0 where
  pub metrics : List MetricPoint
  pub logs : List LogEntry
  pub spans : List TraceSpan
  pub settings : Assoc Json
  pub next_metric : ℕ
  pub next_log : ℕ
  pub next_span : ℕ

pub data Link : Type 0 where
  up refused lost : Link

pub data DbError : Type 0 where
  unreachable unique_violation no_rows unmarshalable : DbError

abbrev pub Outcome : Type 0
Outcome = Tables × Option DbError

abbrev pub exec : Link → (Tables → Outcome) → Tables → Outcome
exec up statement db = statement db
exec refused statement db = (db, some unreachable)
exec lost statement db = ((statement db).0, some unreachable)

unfoldable pub metric_row : ℕ → MetricPoint → MetricPoint
metric_row id m = record m { id = id; timestamp = timestamptz m.timestamp }

unfoldable pub log_row : ℕ → LogEntry → LogEntry
log_row id l = record l { id = id; timestamp = timestamptz l.timestamp }

unfoldable pub span_row : ℕ → TraceSpan → TraceSpan
span_row id s = record s {
  id = id;
  start_time = timestamptz s.start_time;
  end_time = timestamptz s.end_time;
}

unfoldable pub insert_metric : Link → MetricPoint → Tables → Outcome
unfolding metric_row
insert_metric link m = exec link λ db. (
  record db {
    metrics = db.metrics ++ metric_row db.next_metric m ∷ [];
    next_metric = db.next_metric + 1;
  },
  none,
)

unfoldable pub insert_log : Link → LogEntry → Tables → Outcome
unfolding log_row
insert_log link l = exec link λ db.
    (record db { logs = db.logs ++ log_row db.next_log l ∷ []; next_log = db.next_log + 1 }, none)

-- The unique index idx_spans_span_id.
unfoldable pub has_span : String → List TraceSpan → Bool
has_span span_id [] = false
has_span span_id (s ∷ ss) = s.span_id == span_id || has_span span_id ss

unfoldable pub insert_span : Link → TraceSpan → Tables → Outcome
unfolding has_span span_row
insert_span link s = exec link λ db.
    if has_span s.span_id db.spans
    then (record db { next_span = db.next_span + 1 }, some unique_violation)
    else (
      record db { spans = db.spans ++ span_row db.next_span s ∷ []; next_span = db.next_span + 1 },
      none,
    )

-- `none` stands for a value that json.Marshal refuses.
unfoldable pub save_settings : Link → String → Option Json → Tables → Outcome
unfolding insert
save_settings link key none db = (db, some unmarshalable)
save_settings link key (some j) db =
    exec link (λ db. (record db { settings = insert key j db.settings }, none)) db

pub data Loaded : Type 0 where
  row : Json → Loaded
  failed : DbError → Loaded

abbrev found : Option Json → Loaded
found none = failed no_rows
found (some j) = row j

-- The stored value, which the caller decodes.
unfoldable pub load_settings : Link → String → Tables → Loaded
unfolding lookup
load_settings up key db = found (lookup key db.settings)
load_settings refused key db = failed unreachable
load_settings lost key db = failed unreachable
