-- ===== src/Parsing/Syntax.antt =====
-- JSON as its decoder reads it, before objects become dictionaries.
use claim_ci.Prelude.{Bool, String}
use claim_ci.Prelude.Int.{ℤ}
use claim_ci.Value.{Float}

mutual
  pub data Raw : Type 0 where
    null : Raw
    bool : Bool → Raw
    int : ℤ → Raw
    float : Float → Raw
    str : String → Raw
    -- NaN, Infinity or -Infinity
    constant : String → Raw
    array : Raws → Raw
    object : Pairs → Raw

  pub data Raws : Type 0 where
    stop : Raws
    next : Raw → Raws → Raws

  pub data Pairs : Type 0 where
    close : Pairs
    member : String → Raw → Pairs → Pairs
