-- ===== src/Storage/Select/Found.antt =====
-- Where fewer rows are returned than the limit, each row that matches is among them.
use mathlib.Core.List.{
  Mem, Mem-prop, mem-cons_self, mem-cons_of_mem, eq-or-mem_of_mem-cons, append-nil,
}
use mathlib.Core.List.Perm
use mathlib.Core.Logic.Or
use vkr_public.Base.{ℕ, ◌<◌, ◌≡◌, Bool, true, List, [], ◌∷◌, length, Bool-cases, inl, inr}
use vkr_public.Storage.Select.{where_rows}
use vkr_public.Storage.Select.Limit.{IsLatest}

module _ {A : Type 0} (p : A → Bool) (x : A) where
  Mem-where_rows-cons :
      (y : A) (ys : List A) → Mem x (where_rows p ys) → Mem x (where_rows p (y ∷ ys))
  unfolding where_rows
  Mem-where_rows-cons y ys m = elim (Bool-cases (p y)) [
    | inl e ↦ rw e (mem-cons_of_mem y m)
    | inr e ↦ rw e m
  ]

  Mem-where_rows-here : (y : A) (ys : List A) → p x ≡ true → x ≡ y → Mem x (where_rows p (y ∷ ys))
  unfolding where_rows
  Mem-where_rows-here y ys h e = rw (← e) (rw h mem-cons_self)

  pub Mem-where_rows : (xs : List A) → p x ≡ true → Mem x xs → Mem x (where_rows p xs)
  unfolding where_rows
  Mem-where_rows [] h m = m
  Mem-where_rows (y ∷ ys) h m =
      Or.elim Mem-prop (eq-or-mem_of_mem-cons m) (Mem-where_rows-here y ys h)
        (λ m'. Mem-where_rows-cons y ys (Mem-where_rows ys h m'))

  pub Mem-IsLatest :
      {key : A → ℕ} {limit : ℕ} {xs ys : List A}
      → IsLatest p key limit xs ys
      → length ys < limit
      → p x ≡ true
      → Mem x xs
      → Mem x ys
  Mem-IsLatest {xs} {ys} found short h m =
      rw (found.full short, append-nil ys) at
        ((Perm.mem_iff found.complete).1 (Mem-where_rows xs h m))
