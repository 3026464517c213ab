-- ===== src/Clinic/Cabinet.antt =====
-- The functions of lab9/src/clinic.c on the medicine cabinet, which nothing calls: the doctor and
-- the pharmacists write the count themselves. Each runs under the cabinet's mutex. An amount is not
-- negative.
use cs_os.Prelude.{
  ℕ, ◌+◌, ◌-◌, min, ◌≤◌, ◌≡◌, sym, ap, ◌∙◌, Bool, true, arith, not, ℤ, pos, sub_ℕ, ltb_ℤ, pos_part,
  neg_part, if◌then◌else◌,
}
use cs_os.Clinic.System.{Clinic, medicine_cabinet_capacity, min_medicine_required, minus}

-- `a + n` on an `int`.
abbrev plus : ℤ → ℕ → ℤ
plus a n = sub_ℕ (pos_part a + n) (neg_part a)

unfoldable pub clinic_add_medicine : Clinic → ℕ → Clinic
clinic_add_medicine c amount = record c {
  medicine_count =
      if ltb_ℤ (pos medicine_cabinet_capacity) (plus c.medicine_count amount)
      then pos medicine_cabinet_capacity
      else plus c.medicine_count amount;
}

unfoldable pub clinic_use_medicine : Clinic → ℕ → Clinic
clinic_use_medicine c amount = record c {
  medicine_count =
      if ltb_ℤ (minus c.medicine_count amount) (pos 0)
      then pos 0
      else minus c.medicine_count amount;
}

unfoldable pub clinic_has_enough_medicine : Clinic → Bool
clinic_has_enough_medicine c = not (ltb_ℤ c.medicine_count (pos min_medicine_required))

sub_ℕ-zero : (n : ℕ) → sub_ℕ n 0 ≡ pos n
sub_ℕ-zero n = ground arith

plus-pos : (n a : ℕ) → plus (pos n) a ≡ pos (n + a)
plus-pos n a = sub_ℕ-zero (n + a)

-- The two limits.
capped :
    (n a : ℕ)
    → (if ltb_ℤ (pos 6) (plus (pos n) a) then pos 6 else plus (pos n) a) ≡ pos (min 6 (n + a))
capped n a = rw (plus-pos n a) (ground arith)

floored :
    (n a : ℕ) → (if ltb_ℤ (minus (pos n) a) (pos 0) then pos 0 else minus (pos n) a) ≡ pos (n - a)
floored n a = ground arith

-- Between 0 and 6.
abbrev pub IsHolding : Clinic → ℕ → Type 0
IsHolding c n = (c.medicine_count ≡ pos n) × (n ≤ medicine_cabinet_capacity)

-- In a cabinet that holds a number of doses from 0 to 6, adding and using keep it so: adding stops
-- at 6 and using at 0, and using 3 takes exactly 3 where `clinic_has_enough_medicine` says so
-- before.
pub clinic_use_medicine-holds :
    (c : Clinic) (n amount : ℕ)
    → IsHolding c n
    → ((k : ℕ) × IsHolding (clinic_add_medicine c amount) k × (k ≤ n + amount))
      × ((k : ℕ) × IsHolding (clinic_use_medicine c amount) k × (n ≤ k + amount))
      × (clinic_has_enough_medicine c ≡ true
          → (k : ℕ) × IsHolding (clinic_use_medicine c min_medicine_required) k × (k + 3 ≡ n))
unfolding clinic_add_medicine clinic_use_medicine clinic_has_enough_medicine
clinic_use_medicine-holds c n amount (e, l) = (
  (
    min 6 (n + amount),
    (
      ap (λ m. if ltb_ℤ (pos 6) (plus m amount) then pos 6 else plus m amount) e ∙ capped n amount,
      omega arith,
    ),
    omega arith,
  ),
  (
    n - amount,
    (
      ap (λ m. if ltb_ℤ (minus m amount) (pos 0) then pos 0 else minus m amount) e
          ∙ floored n amount,
      omega (arith, l),
    ),
    omega arith,
  ),
  λ enough. (
    n - 3,
    (
      ap (λ m. if ltb_ℤ (minus m 3) (pos 0) then pos 0 else minus m 3) e ∙ floored n 3,
      omega (arith, l),
    ),
    least n (ap (λ m. not (ltb_ℤ m (pos 3))) (sym e) ∙ enough),
  ),
)
  where
    least : (n : ℕ) → not (ltb_ℤ (pos n) (pos 3)) ≡ true → n - 3 + 3 ≡ n
    least n h = ground arith
