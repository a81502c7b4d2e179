-- ===== src/Jobs/Retry.antt =====
-- `retry_delay` of packages/domain/jobs.py: a bounded exponential delay over floats.
use autonomus_academic_assis.Base.{
  ℕ, zero, suc, ◌-◌, ◌≤◌, ◌≡◌, refl, true, ◌||◌, arith, ltb, if◌then◌else◌, Result, ok, raise_if,
  ◌>>◌,
}
use autonomus_academic_assis.Base.Floats.{Floats, FloatLaws}

module _ (F : Floats) where
  open F use {Float, le, lt, eq, double}

  -- Python's `min(maximum, x)`: the first argument unless the second is smaller.
  abbrev capped : Float → Float → Float
  capped maximum x = if lt x maximum then x else maximum

  -- The `for` loop, by the rounds left; it stops as soon as the cap is reached.
  doubled : ℕ → Float → Float → Float
  doubled zero maximum delay = delay
  doubled (suc rounds) maximum delay =
      let next = capped maximum (double delay) in
      let rest = doubled rounds maximum next in if eq next maximum then next else rest

  unfoldable pub retry_delay : ℕ → Float → Float → Result Float
  unfolding doubled
  retry_delay attempts base maximum = do
    raise_if (ltb attempts 1 || le base F.zero || lt maximum base) "Invalid retry policy"
    ok (doubled (attempts - 1) maximum base)

-- The same delay without the early exit: `min(maximum, 2 * delay)`, `rounds` times.
unfoldable pub doubled_fully : (F : Floats) → ℕ → F.Float → F.Float → F.Float
doubled_fully F zero maximum delay = delay
doubled_fully F (suc rounds) maximum delay =
    doubled_fully F rounds maximum (capped F maximum (F.double delay))

module _ {F : Floats} (laws : FloatLaws F) where
  open F use {Float, le, lt, eq, double}

  positive_trans : (a b : Float) → lt F.zero a ≡ true → le a b ≡ true → lt F.zero b ≡ true
  positive_trans a b p h =
      ground (arith, laws.lt_lem F.zero a, laws.lt_lem F.zero b, laws.le_trans a b F.zero)

  capped_bounds :
      (low maximum x : Float)
      → le low maximum ≡ true
      → le low x ≡ true
      → (le low (capped F maximum x) ≡ true) × (le (capped F maximum x) maximum ≡ true)
  capped_bounds low maximum x h k =
      ground (arith, laws.lt_lem x maximum, laws.le_total x maximum, laws.le_refl maximum)

  doubled_bounds :
      (rounds : ℕ) (low maximum delay : Float)
      → lt F.zero low ≡ true
      → le low maximum ≡ true
      → le low delay ≡ true
      → le delay maximum ≡ true
      → (le low (doubled F rounds maximum delay) ≡ true)
        × (le (doubled F rounds maximum delay) maximum ≡ true)
  unfolding doubled
  doubled_bounds zero low maximum delay p h k m = (k, m)
  doubled_bounds (suc rounds) low maximum delay p h k m =
      let grown = laws.double_grows delay (positive_trans low delay p k) in
      let next = capped_bounds low maximum (double delay) h (laws.le_trans _ _ _ k grown) in
      let rest =
        doubled_bounds rounds low maximum (capped F maximum (double delay)) p h next.0 next.1 in
      ground arith

  -- Once at the cap, further rounds stay there.
  fully_at_cap :
      (rounds : ℕ) (maximum : Float)
      → lt F.zero maximum ≡ true
      → doubled_fully F rounds maximum maximum ≡ maximum
  unfolding doubled_fully
  fully_at_cap zero maximum p = refl
  fully_at_cap (suc rounds) maximum p = ground (
    arith,
    laws.lt_lem (double maximum) maximum,
    laws.double_grows maximum p,
    fully_at_cap rounds maximum p,
  )

  doubled-eq-fully :
      (rounds : ℕ) (maximum delay : Float)
      → lt F.zero maximum ≡ true
      → doubled F rounds maximum delay ≡ doubled_fully F rounds maximum delay
  unfolding doubled doubled_fully
  doubled-eq-fully zero maximum delay p = refl
  doubled-eq-fully (suc rounds) maximum delay p = ground (
    arith,
    doubled-eq-fully rounds maximum (capped F maximum (double delay)) p,
    laws.lt_lem (double delay) maximum,
    laws.eq_lem (double delay) maximum,
    fully_at_cap rounds maximum p,
  )

  capped_mono :
      (maximum a b : Float) → le a b ≡ true → le (capped F maximum a) (capped F maximum b) ≡ true
  capped_mono maximum a b h = ground (
    arith,
    laws.lt_lem a maximum,
    laws.lt_lem b maximum,
    laws.le_refl maximum,
    laws.le_total a maximum,
    laws.le_trans maximum a b,
  )

  fully_mono :
      (rounds : ℕ) (maximum a b : Float)
      → le a b ≡ true
      → le (doubled_fully F rounds maximum a) (doubled_fully F rounds maximum b) ≡ true
  unfolding doubled_fully
  fully_mono zero maximum a b h = h
  fully_mono (suc rounds) maximum a b h =
      fully_mono rounds maximum (capped F maximum (double a)) (capped F maximum (double b))
        (capped_mono maximum (double a) (double b) (laws.double_mono a b h))

  fully_step :
      (rounds : ℕ) (maximum a : Float)
      → lt F.zero a ≡ true
      → le a maximum ≡ true
      → le (doubled_fully F rounds maximum a) (doubled_fully F (suc rounds) maximum a) ≡ true
  unfolding doubled_fully
  fully_step rounds maximum a p h =
      fully_mono rounds maximum a (capped F maximum (double a))
        (capped_bounds a maximum (double a) h (laws.double_grows a p)).0

  abbrev pub IsPolicy : ℕ → Float → Float → Type 0
  IsPolicy attempts base maximum =
      (1 ≤ attempts) × (lt F.zero base ≡ true) × (le base maximum ≡ true)

  -- For a positive attempt count, a positive base and a maximum that is not below the base, the delay
  -- is returned, and lies between the base and the maximum.
  pub retry_delay_bounds :
      (attempts : ℕ) (base maximum : Float)
      → IsPolicy attempts base maximum
      → (d : Float) × (retry_delay F attempts base maximum ≡ ok d)
        × (le base d ≡ true)
        × (le d maximum ≡ true)
  unfolding retry_delay
  retry_delay_bounds attempts base maximum v =
      let bounds =
        doubled_bounds (attempts - 1) base maximum base v.1 v.2 (laws.le_refl base) v.2 in
      (
        doubled F (attempts - 1) maximum base,
        ground (arith, laws.lt_lem F.zero base, laws.lt_lem maximum base),
        bounds.0,
        bounds.1,
      )

  -- For a valid policy, the loop with the early exit returns what doubling and capping the base
  -- `attempts - 1` times returns.
  pub retry_delay-eq-doubled_fully :
      (attempts : ℕ) (base maximum : Float)
      → IsPolicy attempts base maximum
      → retry_delay F attempts base maximum ≡ ok (doubled_fully F (attempts - 1) maximum base)
  unfolding retry_delay
  retry_delay-eq-doubled_fully attempts base maximum v = ground (
    arith,
    laws.lt_lem F.zero base,
    laws.lt_lem maximum base,
    doubled-eq-fully (attempts - 1) maximum base (positive_trans base maximum v.1 v.2),
  )

  -- For a valid policy, one more attempt never shortens the delay.
  pub retry_delay_mono :
      (attempts : ℕ) (base maximum d e : Float)
      → IsPolicy attempts base maximum
      → retry_delay F attempts base maximum ≡ ok d
      → retry_delay F (suc attempts) base maximum ≡ ok e
      → le d e ≡ true
  retry_delay_mono zero base maximum d e v p q = absurd (omega (arith, v.0))
  retry_delay_mono (suc k) base maximum d e v p q =
      let w : IsPolicy (suc (suc k)) base maximum = (omega arith, v.1, v.2) in
      ground (
        arith,
        fully_step k maximum base v.1 v.2,
        retry_delay-eq-doubled_fully (suc k) base maximum v,
        retry_delay-eq-doubled_fully (suc (suc k)) base maximum w,
      )
