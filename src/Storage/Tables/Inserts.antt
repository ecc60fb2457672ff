-- ===== src/Storage/Tables/Inserts.antt =====
-- What the statements keep: serial numbers and the unique index, and the settings of other keys.
use vkr_public.Base.{
  ℕ, ◌+◌, ◌<◌, String, ◌≡◌, refl, false, some, List, [], ◌∷◌, ◌++◌, arith, ◌==◌, eq_iff,
  if◌then◌else◌, All, All-append, lookup-insert, Bool-cases, inl, inr,
}
use vkr_public.Json.{Json}
use vkr_public.Storage.Tables.{
  MetricPoint, LogEntry, TraceSpan, Tables, Link, up, refused, lost, Outcome, row, exec, span_row,
  insert_metric, insert_log, has_span, insert_span, save_settings, load_settings,
}

-- Serial numbers below the next one, and no span identifier twice.
abbrev DistinctSpans : List TraceSpan → Type 0
DistinctSpans [] = Unit
DistinctSpans (s ∷ ss) = (has_span s.span_id ss ≡ false) × DistinctSpans ss

pub record IsValid (db : Tables) : Type 0 where
  pub metric_ids : All (λ m. m.id < db.next_metric) db.metrics
  pub log_ids : All (λ l. l.id < db.next_log) db.logs
  pub span_ids : All (λ s. s.id < db.next_span) db.spans
  pub distinct : DistinctSpans db.spans

All-below {ℓ} :
    {A : Type ℓ} (id : A → ℕ) (n : ℕ) (xs : List A)
    → All (λ a. id a < n) xs
    → All (λ a. id a < n + 1) xs
All-below id n [] h = tt
All-below id n (x ∷ xs) (p, h) = (omega arith, All-below id n xs h)

has_span-append :
    (i : String) (ss : List TraceSpan) (s : TraceSpan)
    → has_span i ss ≡ false
    → (s.span_id == i) ≡ false
    → has_span i (ss ++ s ∷ []) ≡ false
unfolding has_span
has_span-append i [] s h k = rw k
has_span-append i (t ∷ ss) s h k = ground (arith, has_span-append i ss s)

DistinctSpans-append :
    (ss : List TraceSpan) (s : TraceSpan)
    → DistinctSpans ss
    → has_span s.span_id ss ≡ false
    → DistinctSpans (ss ++ s ∷ [])
unfolding has_span
DistinctSpans-append [] s d h = (refl, tt)
DistinctSpans-append (t ∷ ss) s (new, d) h = (
  has_span-append t.span_id ss s new
      (ground (arith, eq_iff t.span_id s.span_id, eq_iff s.span_id t.span_id)),
  DistinctSpans-append ss s d (ground arith),
)

exec-IsValid :
    (link : Link) (statement : Tables → Outcome) (db : Tables)
    → IsValid db
    → IsValid (statement db).0
    → IsValid (exec link statement db).0
exec-IsValid up statement db v w = w
exec-IsValid refused statement db v w = v
exec-IsValid lost statement db v w = w

-- InsertMetric keeps the tables well formed, whatever becomes of the statement.
pub insert_metric-IsValid :
    (link : Link) (m : MetricPoint) (db : Tables) → IsValid db → IsValid (insert_metric link m db).0
unfolding insert_metric
insert_metric-IsValid link m db v = exec-IsValid link _ db v (record {
  metric_ids =
      All-append _ db.metrics _ (All-below (λ m. m.id) db.next_metric db.metrics v.metric_ids)
        (omega arith, tt);
  log_ids = v.log_ids;
  span_ids = v.span_ids;
  distinct = v.distinct;
})

-- InsertLog keeps the tables well formed, whatever becomes of the statement.
pub insert_log-IsValid :
    (link : Link) (l : LogEntry) (db : Tables) → IsValid db → IsValid (insert_log link l db).0
unfolding insert_log
insert_log-IsValid link l db v = exec-IsValid link _ db v (record {
  metric_ids = v.metric_ids;
  log_ids =
      All-append _ db.logs _ (All-below (λ l. l.id) db.next_log db.logs v.log_ids)
        (omega arith, tt);
  span_ids = v.span_ids;
  distinct = v.distinct;
})

-- InsertSpan keeps the tables well formed, the index of span identifiers included, whatever becomes
-- of the statement.
pub insert_span-IsValid :
    (link : Link) (s : TraceSpan) (db : Tables) → IsValid db → IsValid (insert_span link s db).0
unfolding insert_span
insert_span-IsValid link s db v =
    exec-IsValid link _ db v (elim (Bool-cases (has_span s.span_id db.spans)) [
      | inl old ↦ rw old (record {
        metric_ids = v.metric_ids;
        log_ids = v.log_ids;
        span_ids = All-below (λ s. s.id) db.next_span db.spans v.span_ids;
        distinct = v.distinct;
      })
      | inr new ↦ rw new (record {
        metric_ids = v.metric_ids;
        log_ids = v.log_ids;
        span_ids =
            All-append _ db.spans _ (All-below (λ s. s.id) db.next_span db.spans v.span_ids)
              (omega arith, tt);
        distinct = DistinctSpans-append db.spans (span_row db.next_span s) v.distinct new;
      })
    ])

-- After SaveSettings has succeeded, LoadSettings finds the saved value under its key, and under any
-- other key what was there before.
pub load_settings-save_settings :
    (key other : String) (j : Json) (db : Tables)
    → load_settings up other (save_settings up key (some j) db).0
      ≡ (if key == other then row j else load_settings up other db)
unfolding load_settings save_settings
load_settings-save_settings key other j db = rw lookup-insert (ground arith)
