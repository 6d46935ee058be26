-- ===== src/Common/Table.antt =====
-- common/table.c and common/table.h: a text table with columns of bounded width. The data are here,
-- the operations in the modules below. An array and the field that holds its count are one list;
-- the capacity of the array of rows is a field of its own.
pub mod Growth
pub mod Rows
pub mod Memory
pub mod Lifecycle
pub mod Widths
pub mod Shrink
pub mod Cells
pub mod Render
use beastie_boy.Prelude.{ℕ, Bool, Option, List, CString}

pub data Align : Type 0 where
  left right : Align

-- A NULL header is `none`; a maximum of 0 means unlimited.
pub record Column : Type 0 where
  pub header : Option CString
  pub min_width : ℕ
  pub max_width : ℕ
  pub is_flexible : Bool
  pub align : Align

-- The cells of a row, each NULL or a string of its own.
abbrev pub Row : Type 0
Row = List (Option CString)

pub record Table : Type 0 where
  pub columns : List Column
  pub rows : List Row
  pub row_capacity : ℕ
