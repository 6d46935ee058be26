-- ===== src/Common/Table/Cells.antt =====
-- app_table_print_repeated and app_table_print_cell of common/table.c. The stream is the list of the
-- bytes written to it.
use beastie_boy.Common.Table.{Align, left, right}
use beastie_boy.Prelude.{
  ℕ, ◌+◌, ◌-◌, ◌≤◌, Bool, true, false, ◌&&◌, ◌++◌, CString, codes, ltb, if◌then◌else◌, length, take,
  replicate, ◌≡◌, refl, arith, length-append, length-take, length-replicate, take-length, min, ◌∙◌,
  append-nil,
}

abbrev pub print_repeated : ℕ → ℕ → CString
print_repeated ch count = replicate count ch

abbrev is_right : Align → Bool
is_right left = false
is_right right = true

-- The three branches that write the value itself.
unfoldable pub shown : CString → ℕ → CString
shown value width =
    let value_len = length value in
    if ltb width value_len && ltb 3 width
    then take (width - 3) value ++ codes "..."
    else (if ltb width value_len then take width value else take value_len value)

abbrev pub shown_len : CString → ℕ → ℕ
shown_len value width = if ltb width (length value) then width else length value

unfoldable pub left_pad : Align → ℕ → ℕ → ℕ
left_pad align width len = if is_right align && ltb len width then width - len else 0

unfoldable pub right_pad : Align → ℕ → ℕ → ℕ
right_pad align width len =
    if is_right align && ltb len width then 0 else (if ltb len width then width - len else 0)

unfoldable pub print_cell : CString → ℕ → Align → CString
print_cell value width align =
    let len = shown_len value width in
    print_repeated b' ' (left_pad align width len)
    ++ (shown value width ++ print_repeated b' ' (right_pad align width len))

length-shown : (value : CString) (width : ℕ) → length (shown value width) ≡ min width (length value)
unfolding shown
length-shown value width = ground (
  arith,
  length-append (take (width - 3) value) (codes "..."),
  length-take (width - 3) value,
  length-take width value,
  length-take (length value) value,
)

length-pads :
    (l r : ℕ) (s : CString)
    → length (print_repeated b' ' l ++ (s ++ print_repeated b' ' r)) ≡ l + length s + r
length-pads l r s = omega (
  arith,
  length-append (print_repeated b' ' l) (s ++ print_repeated b' ' r),
  length-append s (print_repeated b' ' r),
  length-replicate {A = ℕ} l b' ',
  length-replicate {A = ℕ} r b' ',
)

-- Every cell takes up exactly the width of its column, whatever its value and alignment.
pub length-print_cell :
    (value : CString) (width : ℕ) (align : Align) → length (print_cell value width align) ≡ width
unfolding print_cell left_pad right_pad
length-print_cell value width align =
    length-pads _ _ (shown value width) ∙ ground (arith, length-shown value width)

left_pad-left : (width len : ℕ) → left_pad left width len ≡ 0
unfolding left_pad
left_pad-left width len = refl

left_pad-right : (width len : ℕ) → left_pad right width len ≡ width - len
unfolding left_pad
left_pad-right width len = ground arith

right_pad-left : (width len : ℕ) → right_pad left width len ≡ width - len
unfolding right_pad
right_pad-left width len = ground arith

right_pad-right : (width len : ℕ) → right_pad right width len ≡ 0
unfolding right_pad
right_pad-right width len = ground arith

shown_whole : (value : CString) (width : ℕ) → length value ≤ width → shown value width ≡ value
unfolding shown
shown_whole value width h = ground (arith, take-length value)

-- A value that fits stands whole in its cell, on the side of its alignment, and spaces fill the rest.
pub print_cell_whole :
    (value : CString) (width : ℕ)
    → length value ≤ width
    → (print_cell value width left ≡ value ++ replicate (width - length value) b' ')
      × (print_cell value width right ≡ replicate (width - length value) b' ' ++ value)
unfolding print_cell
print_cell_whole value width h =
    let e : shown_len value width ≡ length value = ground arith in
    (
      rw (e, left_pad-left, right_pad-left, shown_whole value width h),
      rw (e, left_pad-right, right_pad-right, shown_whole value width h, append-nil),
    )
