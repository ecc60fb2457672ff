-- ===== src/Api/Thresholds/Accepted.antt =====
-- What the store accepts, keeps and restores.
use vkr_public.Base.{
  ◌≡◌, refl, true, false, Option, none, some, arith, ◌||◌, ◌⊎◌, inl, inr, Bool-cases, Option-cases,
}
use vkr_public.Float64.{Float64, ltf, lef, is_finite, one_f, hundred_f}
use vkr_public.Json.{Json}
use vkr_public.Http.{Reply}
use vkr_public.Warn.{Warn, warn_is_finite}
use vkr_public.Warn.Laws.{decode_warn-is_finite}
use vkr_public.Storage.Tables.{Link}
use vkr_public.Api.Thresholds.{Store, ThresholdBody, thresholds, is_out_of_range, bound, handle_set}

-- 1 ≤ x ≤ 100
abbrev pub IsPercent : Float64 → Type 0
IsPercent x = (lef one_f x ≡ true) × (lef x hundred_f ≡ true)

pub record IsAccepted (c : Warn) : Type 0 where
  pub cpu : IsPercent c.cpu_warn
  pub mem : IsPercent c.mem_warn
  pub disk : IsPercent c.disk_warn

percent_of_test :
    (x : Float64) → is_finite x ≡ true → (ltf x one_f || ltf hundred_f x) ≡ false → IsPercent x
unfolding ltf lef is_finite
percent_of_test x f h = ground arith

test_of_percent : (x : Float64) → IsPercent x → (ltf x one_f || ltf hundred_f x) ≡ false
unfolding ltf lef
test_of_percent x p = ground arith

pub is_out_of_range-IsAccepted :
    (c : Warn) → warn_is_finite c ≡ true → is_out_of_range c ≡ false → IsAccepted c
unfolding is_out_of_range warn_is_finite
is_out_of_range-IsAccepted c f h = record {
  cpu = percent_of_test c.cpu_warn (ground arith) (ground arith);
  mem = percent_of_test c.mem_warn (ground arith) (ground arith);
  disk = percent_of_test c.disk_warn (ground arith) (ground arith);
}

IsAccepted-is_out_of_range : (c : Warn) → IsAccepted c → is_out_of_range c ≡ false
unfolding is_out_of_range
IsAccepted-is_out_of_range c a =
    rw (test_of_percent _ a.cpu, test_of_percent _ a.mem, test_of_percent _ a.disk)

true_not_false : true ≡ false → ⊥
true_not_false h = cc

some_eq : (c c' : Warn) → some c ≡ some c' → c ≡ c'
some_eq c c' h = cc

-- The body was accepted: it has three thresholds from 1 to 100, and they are the new ones.
abbrev pub WasSet : Option Json → Store × Reply ThresholdBody → Type 0
WasSet body (s', r) =
    (c : Warn) × (bound body ≡ some c)
    × IsAccepted c
    × (s'.cfg ≡ c)
    × (r ≡ record { status = 200; body = thresholds c })

-- It was refused: it has no such three, and neither the store nor the database has changed.
abbrev pub WasRefused : Option Json → Store → Store × Reply ThresholdBody → Type 0
WasRefused body s (s', r) =
    ((c : Warn) → bound body ≡ some c → ¬ IsAccepted c) × (s' ≡ s) × (r.status ≡ 400)

pub bound-is_finite :
    (body : Option Json) {c : Warn} → bound body ≡ some c → warn_is_finite c ≡ true
bound-is_finite none h = cc
bound-is_finite (some j) h = decode_warn-is_finite j h

-- PUT of the thresholds takes exactly the bodies that hold three numbers from 1 to 100, answers 200
-- with them and makes them the current ones; any other body is answered 400 and changes nothing.
pub handle_set_outcome :
    (link : Link) (body : Option Json) (s : Store)
    → WasSet body (handle_set link body s) ⊎ WasRefused body s (handle_set link body s)
unfolding handle_set
handle_set_outcome link body s = elim (Option-cases (bound body)) [
  | inl bad ↦ rw bad (inr ((λ c e. cc), refl, refl))
  | inr (c, good) ↦ elim (Bool-cases (is_out_of_range c)) [
    | inl out ↦
        rw (good, out)
          (inr (
            λ c' e a.
                true_not_false
                  (rw out at (IsAccepted-is_out_of_range c (rw (← some_eq c c' e) at a))),
            refl,
            refl,
          ))
    | inr fits ↦
        rw (good, fits)
          (inl (c, refl, is_out_of_range-IsAccepted c (bound-is_finite body good) fits, refl, refl))
  ]
]
