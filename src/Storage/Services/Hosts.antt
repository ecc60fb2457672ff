-- ===== src/Storage/Services/Hosts.antt =====
-- The host of a service.
use mathlib.Core.List.{Mem, mem-cons_self, mem-cons_of_mem}
use vkr_public.Base.{String, ◌≡◌, refl, ◌⊎◌, inl, inr, none, some, List, [], ◌∷◌, All, Option-cases}
use vkr_public.Storage.Select.{aggregate}
use vkr_public.Storage.Tables.{MetricPoint}
use vkr_public.Storage.Services.{Collation, host_label, hosts_of, coalesce}

-- The label of one of the points, or no host where none has the label.
abbrev pub HostAmong : List MetricPoint → String → Type 0
HostAmong group host =
    ((host ≡ "") × All (λ m. host_label m.labels ≡ none) group)
    ⊎ ((m : MetricPoint) × Mem m group × (host_label m.labels ≡ some host))

module _ (larger_text : Collation) where
  aggregate-cons :
      (x h : String) (hs : List String)
      → aggregate larger_text.larger hs ≡ some h
      → aggregate larger_text.larger (x ∷ hs) ≡ some (larger_text.larger x h)
  unfolding aggregate
  aggregate-cons x h [] e = cc
  aggregate-cons x h (y ∷ ys) e = cc

  -- The maximum of the hosts of a group, where it has one.
  record Top (group : List MetricPoint) : Type 0 where
    host : String
    found : aggregate larger_text.larger (hosts_of group) ≡ some host
    point : MetricPoint
    member : Mem point group
    labelled : host_label point.labels ≡ some host

  exists-Top :
      (group : List MetricPoint)
      → ((hosts_of group ≡ []) × All (λ m. host_label m.labels ≡ none) group) ⊎ Top group
  unfolding hosts_of aggregate
  exists-Top [] = inl (refl, tt)
  exists-Top (m ∷ ms) = elim (Option-cases (host_label m.labels)) [
    | inl e ↦ elim (exists-Top ms) [
      | inl (empty, nulls) ↦ inl (rw e empty, (e, nulls))
      | inr top ↦ inr (record {
        host = top.host;
        found = rw e (top.found);
        point = top.point;
        member = mem-cons_of_mem m top.member;
        labelled = top.labelled;
      })
    ]
    | inr (h, e) ↦ elim (exists-Top ms) [
      | inl (empty, nulls) ↦ inr (record {
        host = h;
        found = rw (e, empty) refl;
        point = m;
        member = mem-cons_self;
        labelled = e;
      })
      | inr top ↦
          let added = aggregate-cons h top.host (hosts_of ms) top.found in
          elim (larger_text.larger_choice h top.host) [
            | inl mine ↦ inr (record {
              host = h;
              found = rw e (rw mine at added);
              point = m;
              member = mem-cons_self;
              labelled = e;
            })
            | inr theirs ↦ inr (record {
              host = top.host;
              found = rw e (rw theirs at added);
              point = top.point;
              member = mem-cons_of_mem m top.member;
              labelled = top.labelled;
            })
          ]
    ]
  ]

  pub host-HostAmong :
      (group : List MetricPoint)
      → HostAmong group (coalesce (aggregate larger_text.larger (hosts_of group)) "")
  unfolding aggregate
  host-HostAmong group = elim (exists-Top group) [
    | inl (empty, nulls) ↦ inl (rw empty refl, nulls)
    | inr top ↦ inr (top.point, top.member, rw top.found top.labelled)
  ]
