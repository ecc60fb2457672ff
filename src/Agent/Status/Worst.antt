-- ===== src/Agent/Status/Worst.antt =====
-- A heartbeat reports the worst level since the last one.
use vkr_public.Base.{
  String, ◌≡◌, refl, Bool, false, List, [], ◌∷◌, arith, ◌==◌, ◌||◌, eq_iff, if◌then◌else◌,
  Bool-cases, inl, inr,
}
use vkr_public.Agent.Status.{
  status_ok, status_warn, status_error, raise_status, pop_status, raise_all,
}

abbrev pub occurs : String → List String → Bool
occurs x [] = false
occurs x (y ∷ ys) = y == x || occurs x ys

-- The worst of these levels.
abbrev pub worst : List String → String
worst levels =
    if occurs status_error levels
    then status_error
    else if occurs status_warn levels
    then status_warn
    else status_ok

raise_status-error : (level : String) → raise_status level status_error ≡ status_error
unfolding raise_status
raise_status-error level = ground (arith, eq_iff level status_error, eq_iff level status_warn)

raise_status-warn :
    (level : String)
    → raise_status level status_warn ≡ (if level == status_error then status_error else status_warn)
unfolding raise_status
raise_status-warn level = ground (arith, eq_iff level status_error, eq_iff level status_warn)

raise_all-error : (levels : List String) → raise_all levels status_error ≡ status_error
unfolding raise_all
raise_all-error [] = refl
raise_all-error (level ∷ levels) = rw (raise_status-error level) (raise_all-error levels)

raise_all-warn :
    (levels : List String)
    → raise_all levels status_warn
      ≡ (if occurs status_error levels then status_error else status_warn)
unfolding raise_all
raise_all-warn [] = refl
raise_all-warn (level ∷ levels) =
    rw (raise_status-warn level) (elim (Bool-cases (level == status_error)) [
      | inl e ↦ rw e (raise_all-error levels)
      | inr e ↦ rw e (raise_all-warn levels)
    ])

pub raise_all-ok : (levels : List String) → raise_all levels status_ok ≡ worst levels
unfolding raise_all raise_status
raise_all-ok [] = refl
raise_all-ok (level ∷ levels) = elim (Bool-cases (level == status_error)) [
  | inl e ↦ rw e (raise_all-error levels)
  | inr e ↦ elim (Bool-cases (level == status_warn)) [
    | inl f ↦ rw (e, f) (raise_all-warn levels)
    | inr f ↦ rw (e, f) (raise_all-ok levels)
  ]
]

-- After a heartbeat, whatever levels the goroutines raise and in whatever order, the next heartbeat
-- reports the worst of them and resets the status.
pub pop_status-worst :
    (before : String) (levels : List String)
    → pop_status (raise_all levels (pop_status before).1) ≡ (worst levels, status_ok)
unfolding pop_status
pop_status-worst before levels = rw (raise_all-ok levels)
