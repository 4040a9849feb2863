-- ===== src/Reports/Days.antt =====
-- The days that a report covers (app/features/reports/services/report_service.py).
use fastapi_project_structur.Common.{
  ℕ, ◌+◌, ◌-◌, ◌≤◌, ◌<◌, ◌≡◌, ◌↔◌, refl, Bool, true, false, ◌||◌, arith, ltb, leb, leb→le,
  Bool-cases, inl, inr, if◌then◌else◌,
}
use fastapi_project_structur.Exceptions.{ok, err, AppException}
use fastapi_project_structur.Reports.{
  Zone, Query, query_of, local_dates_to_utc, get_daily_sales, max_report_days, min_report_date,
  max_report_date,
}

passed :
    {A : Type 0} (a b c : Bool) (x y z : AppException) (v w : A)
    → (if a then err x else if b then err y else if c then err z else ok v) ≡ ok w
    → (a ≡ false) × (b ≡ false) × (c ≡ false) × (v ≡ w)
passed true b c x y z v w h = absurd (cc h)
passed false true c x y z v w h = absurd (cc h)
passed false false true x y z v w h = absurd (cc h)
passed false false false x y z v w h = (refl, refl, refl, cc h)

-- The bounds of the dates.
abbrev pub IsRange : (start_date end_date : ℕ) → Type 0
IsRange start_date end_date =
    (start_date ≤ end_date)
    × (min_report_date ≤ start_date)
    × (end_date ≤ max_report_date)
    × (end_date - start_date < max_report_days)

days-IsRange :
    (s e : ℕ)
    → ltb e s ≡ false
    → (ltb s min_report_date || ltb max_report_date e) ≡ false
    → ltb max_report_days (e - s + 1) ≡ false
    → IsRange s e
days-IsRange s e h k l = (ground arith, ground arith, ground arith, ground arith)

-- local_day is the date of an instant: it is at least d from d's midnight on.
module _ (zone : Zone) (local_day : ℕ → ℕ)
    (midnight-day : (d t : ℕ) → (zone.midnight d ≤ t) ↔ (d ≤ local_day t)) where
  covers :
      (s e t : ℕ)
      → ((zone.midnight s ≤ t) × (t < zone.midnight (e + 1)))
        ↔ ((s ≤ local_day t) × (local_day t ≤ e))
  covers s e t =
      let (to_s, from_s) = midnight-day s t in
      let (to_e, from_e) = midnight-day (e + 1) t in
      (
        (λ h. (to_s h.0, lower (local_day t) e (λ k. beyond _ _ h.1 (from_e k)))),
        (λ h.
            (from_s h.0, upper t _ (λ k. beyond (local_day t) (e + 1) (raised _ _ h.1) (to_e k)))),
      )
    where
      beyond : (a b : ℕ) → a < b → b ≤ a → ⊥
      beyond a b h k = omega (arith, h, k)

      lower : (a b : ℕ) → (b + 1 ≤ a → ⊥) → a ≤ b
      lower a b h = elim (Bool-cases (leb (b + 1) a)) [
        | inl e ↦ absurd (h (leb→le (b + 1) a e))
        | inr e ↦ ground arith
      ]

      upper : (a b : ℕ) → (b ≤ a → ⊥) → a < b
      upper a b h = elim (Bool-cases (leb b a)) [
        | inl e ↦ absurd (h (leb→le b a e))
        | inr e ↦ ground arith
      ]

      raised : (a b : ℕ) → a ≤ b → a < b + 1
      raised a b h = omega (arith, h)

  -- If the daily sales are queried, the dates are in order, between 1970-01-01 and 9998-12-31
  -- and at most 366 days, and the queried instants are exactly those whose local date is one
  -- of these days, for a zone in which an instant's date is at least d exactly from d's
  -- midnight on.
  pub get_daily_sales-days :
      (start_date end_date : ℕ) (query : Query)
      → get_daily_sales zone start_date end_date ≡ ok query
      → IsRange start_date end_date
        × ((t : ℕ)
            → ((query.start_at ≤ t) × (t < query.end_at))
              ↔ ((start_date ≤ local_day t) × (local_day t ≤ end_date)))
  unfolding get_daily_sales local_dates_to_utc query_of
  get_daily_sales-days s e query h =
      let (a, b, c, same) = passed _ _ _ _ _ _ _ query h in
      (days-IsRange s e a b c, λ t. rw (← same) (covers s e t))
