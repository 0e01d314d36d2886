-- ===== src/Queue/Priority.antt =====
-- Serving levels: `Priority` of src/queue.rs.
use homebased.Base.{ℕ, zero, suc, Bool, String, Option, none, some, ltb}

pub data Priority : Type 0 where
  low medium high : Priority

abbrev pub as_str : Priority → String
as_str low = "low"
as_str medium = "medium"
as_str high = "high"

abbrev pub rank : Priority → ℕ
rank low = 0
rank medium = 1
rank high = 2

abbrev pub from_rank : ℕ → Option Priority
from_rank zero = some low
from_rank (suc zero) = some medium
from_rank (suc (suc zero)) = some high
from_rank (suc (suc (suc _))) = none

-- The derived order goes by declaration.
abbrev pub lt : Priority → Priority → Bool
lt p q = ltb (rank p) (rank q)
