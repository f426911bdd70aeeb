-- ===== src/Program/Verdict.antt =====
-- crates/perch-program/src/lib.rs: the three-valued verdict.
use perch.Common.{ℕ, Bool, true, false, leb, if◌then◌else◌}

pub data Verdict : Type 0 where
  false_v unknown true_v : Verdict

-- The derived order, `False < Unknown < True`, by the discriminants.
abbrev pub rank : Verdict → ℕ
rank false_v = 0
rank unknown = 1
rank true_v = 2

-- `Verdict::and`: the minimum.
unfoldable pub and : Verdict → Verdict → Verdict
and a b = if leb (rank a) (rank b) then a else b

-- `Verdict::or`: the maximum.
unfoldable pub or : Verdict → Verdict → Verdict
or a b = if leb (rank a) (rank b) then b else a

-- `Not for Verdict`.
unfoldable pub negate : Verdict → Verdict
negate false_v = true_v
negate unknown = unknown
negate true_v = false_v

-- `Verdict::allows`.
unfoldable pub allows : Verdict → Bool
allows true_v = true
allows _ = false

-- `From<bool> for Verdict`.
unfoldable pub from_bool : Bool → Verdict
from_bool true = true_v
from_bool false = false_v
