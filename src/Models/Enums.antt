-- ===== src/Models/Enums.antt =====
-- The enumerations of claimci/models.py, and tests for one impact.
use mathlib.Core.Bool.{Bool, true, false}

pub data Severity : Type 0 where
  critical warning verified info : Severity

pub data Impact : Type 0 where
  none invalidates insufficient : Impact

pub data Verdict : Type 0 where
  supported not_supported insufficient_evidence : Verdict

pub data Direction : Type 0 where
  higher lower : Direction

abbrev pub is_invalidates : Impact → Bool
is_invalidates invalidates = true
is_invalidates _ = false

abbrev pub is_insufficient : Impact → Bool
is_insufficient insufficient = true
is_insufficient _ = false

abbrev pub is_none : Impact → Bool
is_none none = true
is_none _ = false
