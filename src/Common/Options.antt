-- ===== src/Common/Options.antt =====
-- The entries of the tables that both command line parsers pass to `getopt_long`.
use beastie_boy.Prelude.{ℕ, Bool, CString}

-- `struct option` with its flag NULL
pub record LongOption : Type 0 where
  pub name : CString
  pub has_argument : Bool
  pub value : ℕ
