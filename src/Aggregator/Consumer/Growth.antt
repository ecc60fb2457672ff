-- ===== src/Aggregator/Consumer/Growth.antt =====
-- No handler of the aggregator takes a row away.
use mathlib.Core.List.{Mem, mem-append_left}
use vkr_public.Base.{◌≡◌, refl, inl, inr, List, [], ◌∷◌, ◌++◌, append-nil, sym, Bool-cases}
use vkr_public.Storage.Tables.{
  Tables, Link, up, refused, lost, MetricPoint, LogEntry, TraceSpan, metric_row, log_row, span_row,
  insert_metric, insert_log, insert_span, has_span,
}
use vkr_public.Aggregator.Consumer.Steps.{Keeps}

-- The second list is the first with more at its end.
abbrev pub Grown {ℓ} : {A : Type ℓ} → List A → List A → Type ℓ
Grown {A} xs ys = (new : List A) × (ys ≡ xs ++ new)

abbrev pub Grows : Tables → Tables → Type 0
Grows db db' = Grown db.metrics db'.metrics × Grown db.logs db'.logs × Grown db.spans db'.spans

Grown-refl {ℓ} : {A : Type ℓ} (xs : List A) → Grown xs xs
Grown-refl xs = ([], sym (append-nil xs))

pub Mem-Grown {ℓ} : {A : Type ℓ} {x : A} {xs ys : List A} → Grown xs ys → Mem x xs → Mem x ys
Mem-Grown {x} {xs} (new, e) h = rw e (mem-append_left new h)

insert_metric-Grows :
    (link : Link) (m : MetricPoint) (db : Tables) → Grows db (insert_metric link m db).0
unfolding insert_metric
insert_metric-Grows up m db =
    ((metric_row db.next_metric m ∷ [], refl), Grown-refl db.logs, Grown-refl db.spans)
insert_metric-Grows refused m db = (Grown-refl db.metrics, Grown-refl db.logs, Grown-refl db.spans)
insert_metric-Grows lost m db =
    ((metric_row db.next_metric m ∷ [], refl), Grown-refl db.logs, Grown-refl db.spans)

insert_log-Grows : (link : Link) (l : LogEntry) (db : Tables) → Grows db (insert_log link l db).0
unfolding insert_log
insert_log-Grows up l db =
    (Grown-refl db.metrics, (log_row db.next_log l ∷ [], refl), Grown-refl db.spans)
insert_log-Grows refused l db = (Grown-refl db.metrics, Grown-refl db.logs, Grown-refl db.spans)
insert_log-Grows lost l db =
    (Grown-refl db.metrics, (log_row db.next_log l ∷ [], refl), Grown-refl db.spans)

insert_span-Grows : (link : Link) (s : TraceSpan) (db : Tables) → Grows db (insert_span link s db).0
unfolding insert_span
insert_span-Grows refused s db = (Grown-refl db.metrics, Grown-refl db.logs, Grown-refl db.spans)
insert_span-Grows link s db = elim (Bool-cases (has_span s.span_id db.spans)) [
  | inl old ↦ rw old (Grown-refl db.metrics, Grown-refl db.logs, Grown-refl db.spans)
  | inr new ↦
      rw new (Grown-refl db.metrics, Grown-refl db.logs, (span_row db.next_span s ∷ [], refl))
]

-- What holds of grown tables is kept by every insert.
pub Keeps_of_Grows :
    (P : Tables → Type 0) → ((db db' : Tables) → Grows db db' → P db → P db') → Keeps P
Keeps_of_Grows P grow = record {
  metric = λ link m db. grow db _ (insert_metric-Grows link m db);
  log = λ link l db. grow db _ (insert_log-Grows link l db);
  span = λ link s db. grow db _ (insert_span-Grows link s db);
}
