-- ===== src/Fixtures.antt =====
-- Concrete surroundings for the tests: a text for each instant, a stream that accepts everything, and
-- sample telemetry.
use Prim.Native.String.{String}
use Prim.Native.String.{compare}
use text.Mathlib.Text.{is_le}
use vkr_public.Storage.Services.{Collation}
use vkr_public.Base.{if◌then◌else◌, ◌⊎◌, inl, inr, Bool-cases}
use vkr_public.Base.{ℕ, zero, suc, ◌+◌, ◌*◌, ◌≡◌, refl, ap, none, some, List, [], ◌∷◌, ◌++◌}
use vkr_public.Float64.{ninety_f, FloatOps}
use vkr_public.Instant.{Time, TimeText, zero_time, second}
use vkr_public.Metrics.{Labels, CounterVec}
use vkr_public.Metrics.Counting.{same_labels, same_labels_eq, same_labels_refl}
use vkr_public.Nats.{JetStream}
use vkr_public.Agent.Client
use vkr_public.Agent.Send
use vkr_public.Agent.Status.{status_ok}
use vkr_public.Wire.{PbMetricPoint, PbLogEntry, PbTraceSpan}
use vkr_public.Collector.Publisher.{Message}
use vkr_public.Collector.Requests.{MetricRequest, LogRequest, SpanRequest}

-- Each instant as a text of so many letters.
pub tally : ℕ → String
tally zero = String.[]
tally (suc n) = String.◌∷◌ "a" (tally n)

pub count_letters : String → ℕ
count_letters String.[] = 0
count_letters (String.◌∷◌ c s) = suc (count_letters s)

count_letters-tally : (n : ℕ) → count_letters (tally n) ≡ n
unfolding tally count_letters
count_letters-tally zero = refl
count_letters-tally (suc n) = ap suc (count_letters-tally n)

pub tally_law : (t : Time) → some (count_letters (tally t)) ≡ some t
tally_law t = ap some (count_letters-tally t)

abbrev pub tallies : TimeText
tallies = record {
  format = tally;
  parse = λ s. some (count_letters s);
  parse-format = λ t _ _. tally_law t;
}

pub no_failure : {e : String} → none ≡ some e → ⊥
no_failure h = cc

abbrev pub list_stream : JetStream (List Message)
list_stream = record {
  publish = λ s subject j. (s ++ (subject, j) ∷ [], none);
  stored = λ s. s;
  stored-publish = λ s subject j _. refl;
  stored-publish_failed = λ s subject j h. absurd (no_failure h);
}

abbrev pub noon : Time
noon = zero_time + 63000000000 * second

abbrev pub cpu_point : PbMetricPoint
cpu_point = record {
  service_name = "host-agent";
  metric_name = "cpu_usage_percent";
  value = ninety_f;
  labels = some (("host", "h1") ∷ []);
  timestamp = some noon;
}

abbrev pub warn_entry : PbLogEntry
warn_entry = record {
  service_name = "host-agent";
  level = "warn";
  message = "high CPU usage";
  trace_id = "t1";
  fields = none;
  timestamp = none;
}

abbrev pub heartbeat : PbTraceSpan
heartbeat = record {
  trace_id = "t1";
  span_id = "s1";
  parent_span_id = "";
  service_name = "host-agent";
  operation_name = "metric_collection_interval";
  start_time = some noon;
  end_time = some noon;
  status = "ok";
  attributes = none;
}

abbrev pub cpu_request : MetricRequest
cpu_request = record {
  service_name = "host-agent";
  metric_name = "cpu_usage_percent";
  value = ninety_f;
  labels = some (("host", "h1") ∷ []);
  timestamp = noon;
  trace_id = "t1";
  collector_span_id = "";
}

abbrev pub warn_request : LogRequest
warn_request = record {
  service_name = "host-agent";
  level = "warn";
  message = "high CPU usage";
  trace_id = "t1";
  fields = none;
  timestamp = noon;
}

abbrev pub span_sample : SpanRequest
span_sample = record {
  trace_id = "t1";
  span_id = "s1";
  parent_span_id = "";
  service_name = "host-agent";
  operation_name = "metric_collection_interval";
  start_time = noon;
  end_time = noon;
  status = "ok";
  attributes = none;
}

-- Texts in the order of their bytes.
abbrev pub later_text : String → String → String
later_text s t = if is_le (compare s t) then t else s

pub later_text_choice : (s t : String) → (later_text s t ≡ s) ⊎ (later_text s t ≡ t)
later_text_choice s t = elim (Bool-cases (is_le (compare s t))) [
  | inl e ↦ inr (rw e refl)
  | inr e ↦ inl (rw e refl)
]

abbrev pub byte_order : Collation
byte_order = record { larger = later_text; larger_choice = later_text_choice }

-- Two points of the agent, and a clock.
abbrev pub memory_sample : Client.MetricPoint
memory_sample = record {
  service_name = "host-agent";
  metric_name = "memory_usage_percent";
  value = ninety_f;
  labels = some (("host", "h1") ∷ []);
  timestamp = noon;
}

abbrev pub swap_sample : Client.MetricPoint
swap_sample = record memory_sample { metric_name = "swap_usage_percent" }

abbrev pub sample_batch : List Client.MetricPoint
sample_batch = memory_sample ∷ swap_sample ∷ []

abbrev pub sample_clock : ℕ → Time
sample_clock i = noon

-- A log entry and a span of the agent.
abbrev pub sample_entry : Client.LogEntry
sample_entry = record {
  service_name = "host-agent";
  level = "warn";
  message = "high memory usage";
  trace_id = "t1";
  fields = some (("used", "90.0") ∷ []);
  timestamp = noon;
}

abbrev pub sample_beat : Client.SpanEntry
sample_beat = record {
  trace_id = "t1";
  span_id = "s1";
  parent_span_id = "";
  service_name = "host-agent";
  operation_name = "metric_collection_interval";
  start_time = noon;
  end_time = noon;
  status = "ok";
  attributes = some (("host", "h1") ∷ []);
}

-- The agent, where it runs, and float operations that forget.
abbrev pub host : Send.Surroundings
host = record { host = "h1"; now = noon; clock_text = "2024-01-01 12:00:00" }

abbrev pub agent : Send.Agent
agent = record {
  service_name = "host-agent";
  session_id = "t1";
  alerter = record { token = ""; chat_id = "" };
  fail_count = 0;
  interval_status = status_ok;
}

abbrev pub flat : FloatOps
flat = record {
  of_uint = λ n. n;
  quotient = λ x y. x;
  seconds = λ n. n;
  text_1 = λ x. "0.0";
  text_0 = λ x. "0";
}

-- One number for each combination of labels.
abbrev pub readings : CounterVec (Labels → ℕ)
readings = record {
  inc = λ c l k. if same_labels l k then c k + 1 else c k;
  value = λ c k. c k;
  value-inc_self = λ c l. rw (same_labels_refl l) refl;
  value-inc_other = λ c l k other. elim (Bool-cases (same_labels l k)) [
    | inl same ↦ absurd (other (same_labels_eq l k same))
    | inr differ ↦ rw differ refl
  ];
}
