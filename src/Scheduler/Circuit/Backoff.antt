-- ===== src/Scheduler/Circuit/Backoff.antt =====
-- The cooldown as a function of the trip count (circuit.rs, cooldown_duration).
use galaxy_router.Base.{ℕ, suc, ◌-◌, ◌*◌, ◌^◌, ◌≤◌, ◌<◌, min, ◌≡◌, inl, inr, arith, leb, Bool-cases}
use galaxy_router.Scheduler.Circuit.{CircuitConfig, from_secs, cooldown_duration}
use native.Mathlib.Nat.{pow-le-pow_right, mul-le-mul_left}

scaled_mono : (n a b : ℕ) → a ≤ b → n * 2 ^ a ≤ n * 2 ^ b
scaled_mono n a b h = mul-le-mul_left n (pow-le-pow_right {n = 2} (omega arith) h)

-- If the base shifted by 20 fits a u64 and reaches the cap, the cooldown after trip k + 1 is the
-- base doubled k times and cut at the cap.
pub cooldown_closed :
    (c : CircuitConfig) (k : ℕ)
    → c.max_cooldown_secs ≤ c.base_cooldown_secs * 2 ^ 20
    → c.base_cooldown_secs * 2 ^ 20 < 18446744073709551616
    → cooldown_duration c (suc k)
      ≡ from_secs (min (c.base_cooldown_secs * 2 ^ k) c.max_cooldown_secs)
unfolding cooldown_duration
cooldown_closed c k reach fits = elim (Bool-cases (leb k 20)) [
  | inl small ↦
      let e : min (suc k - 1) 20 ≡ k = ground arith in
      rw e (ground (arith, scaled_mono c.base_cooldown_secs k 20))
  | inr large ↦
      let e : min (suc k - 1) 20 ≡ 20 = ground arith in
      rw e (ground (arith, scaled_mono c.base_cooldown_secs 20 k))
]

-- The cooldown never passes the cap, whatever the configuration and the trip count, unless the
-- entry has not tripped and the base itself does.
pub cooldown_le_max :
    (c : CircuitConfig) (trips : ℕ)
    → c.base_cooldown_secs ≤ c.max_cooldown_secs
    → cooldown_duration c trips ≤ from_secs c.max_cooldown_secs
unfolding cooldown_duration
cooldown_le_max c trips h = ground arith

base-le-capped :
    (c : CircuitConfig) (k : ℕ)
    → c.base_cooldown_secs ≤ c.max_cooldown_secs
    → cooldown_duration c 0 ≤ from_secs (min (c.base_cooldown_secs * 2 ^ k) c.max_cooldown_secs)
unfolding cooldown_duration
base-le-capped c k h =
    let grown : c.base_cooldown_secs * 1 ≤ c.base_cooldown_secs * 2 ^ k =
      scaled_mono c.base_cooldown_secs 0 k (omega arith) in
    omega arith

-- A further trip never shortens the cooldown, and never brings it below the base.
pub cooldown_mono :
    (c : CircuitConfig) (k l : ℕ)
    → c.max_cooldown_secs ≤ c.base_cooldown_secs * 2 ^ 20
    → c.base_cooldown_secs * 2 ^ 20 < 18446744073709551616
    → c.base_cooldown_secs ≤ c.max_cooldown_secs
    → k ≤ l
    → (cooldown_duration c (suc k) ≤ cooldown_duration c (suc l))
      × (cooldown_duration c 0 ≤ cooldown_duration c (suc k))
cooldown_mono c k l reach fits cap h =
    rw (cooldown_closed c k reach fits, cooldown_closed c l reach fits)
      (omega (arith, scaled_mono c.base_cooldown_secs k l h), base-le-capped c k cap)
