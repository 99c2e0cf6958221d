-- ===== src/Serial/Tests.antt =====
-- internal/serial/serial.go: the comparisons across the wrap at 2 ^ 32, evaluated.
use uiscsi.Common.{◌+◌, ◌%◌, ◌^◌, ◌≤◌, ◌≡◌, ◌↔◌, true, arith}
use uiscsi.Serial.{in_window}
use uiscsi.Serial.Order.{in_window_iff}

in_window_iff_example :
    (in_window ((0xffff_fff0 + 20) % 2 ^ 32) 0xffff_fff0 ((0xffff_fff0 + 32) % 2 ^ 32) ≡ true)
    ↔ (20 ≤ 32)
in_window_iff_example = in_window_iff 0xffff_fff0 32 20 (omega arith) (omega arith) (omega arith)
