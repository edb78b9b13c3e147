-- ===== src/Common/Index.antt =====
-- `AdjustIndex` of src/common.h: the indices of a range, counted from the end if negative.
use pika_panlei.Base.{ℕ, ℤ, pos, ◌+ℤ◌, ◌-ℤ◌, ltb_ℤ, leb_ℤ, ◌==◌, if◌then◌else◌}

unfoldable pub adjust_start : ℤ → ℕ → ℤ
adjust_start start size =
    let start' = if ltb_ℤ start (pos 0) then start +ℤ pos size else start in
    if ltb_ℤ start' (pos 0) then pos 0 else start'

unfoldable pub adjust_end : ℤ → ℕ → ℤ
adjust_end end size =
    let end' = if ltb_ℤ end (pos 0) then end +ℤ pos size else end in
    if leb_ℤ (pos size) end' then pos size -ℤ pos 1 else end'

-- The new start and end.
unfoldable pub adjust_index : ℤ → ℤ → ℕ → ℤ × ℤ
unfolding adjust_start adjust_end
adjust_index start end size =
    if size == 0 then (pos 1, pos 0) else (adjust_start start size, adjust_end end size)
