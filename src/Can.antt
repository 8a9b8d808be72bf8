-- ===== src/Can.antt =====
-- include/lwcan/can.h and include/lwcan/error.h: frames, constants and error codes.
use lwcan.Common.{ℕ, List, Bool, true, false}

-- `lwcan_error_enum_t`
pub data LwcanErr : Type 0 where
  ok arg canif canif_max interface memory transmit_timeout receive_timeout : LwcanErr
  in_progress aborted connect : LwcanErr

-- The test `ret == ERROR_OK`.
abbrev pub is_ok : LwcanErr → Bool
is_ok ok = true
is_ok _ = false

abbrev pub can_max_dlen : ℕ
can_max_dlen = 8

abbrev pub canfd_max_dlen : ℕ
canfd_max_dlen = 64

abbrev pub canfd_max_dlc : ℕ
canfd_max_dlc = 15

abbrev pub canfd_brs : ℕ
canfd_brs = 0x01

abbrev pub can_eff_flag : ℕ
can_eff_flag = 0x80000000

abbrev pub can_sff_mask : ℕ
can_sff_mask = 0x7ff

abbrev pub can_eff_mask : ℕ
can_eff_mask = 0x1fffffff

-- `struct can_frame` and `struct canfd_frame`: `payload` is `data[8]` or `data[64]`, `flags` is
-- used by the second only.
pub record Frame : Type 0 where
  pub can_id : ℕ
  pub len : ℕ
  pub flags : ℕ
  pub payload : List ℕ

-- `struct addr_can`, with the `tp` member of its union
pub record AddrCan : Type 0 where
  pub can_ifindex : ℕ
  pub tx_id : ℕ
  pub rx_id : ℕ
