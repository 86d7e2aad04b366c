-- ===== src/Cmdclass/Risk.antt =====
-- The four tiers of `safety.Risk`, an integer type of opskit-core whose constants stand in this
-- order, with `maxRisk` and `raise` of internal/cmdclass/cmdclass.go.
use srvgov_cli.Prelude.{ℕ, ◌+◌, ◌≤◌, arith, ltb, leb, if◌then◌else◌}

abbrev pub Risk : Type 0
Risk = ℕ

abbrev pub r0 : Risk
r0 = 0

abbrev pub r1 : Risk
r1 = 1

abbrev pub r2 : Risk
r2 = 2

abbrev pub r3 : Risk
r3 = 3

unfoldable pub max_risk : Risk → Risk → Risk
max_risk left right = if ltb left right then right else left

unfoldable pub raise : Risk → Risk
raise risk = if leb r3 risk then r3 else risk + 1

pub max_risk-ge_left : (a b : Risk) → a ≤ max_risk a b
unfolding max_risk
max_risk-ge_left a b = ground arith

pub max_risk-ge_right : (a b : Risk) → b ≤ max_risk a b
unfolding max_risk
max_risk-ge_right a b = ground arith

pub max_risk-le : (a b c : Risk) → a ≤ c → b ≤ c → max_risk a b ≤ c
unfolding max_risk
max_risk-le a b c h k = ground arith

pub raise_bounds : (a : Risk) → (r1 ≤ raise a) × (raise a ≤ r3)
unfolding raise
raise_bounds a = ground arith

pub raise-ge : (a : Risk) → a ≤ r3 → a ≤ raise a
unfolding raise
raise-ge a h = ground arith

pub raise_mono : (a b : Risk) → a ≤ b → raise a ≤ raise b
unfolding raise
raise_mono a b h = ground arith
