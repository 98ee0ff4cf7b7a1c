-- ===== src/Isotp.antt =====
-- code/portable/can/isotp.h: the constants and events of the ISO 15765-2 transport layer. The
-- receiver and the sender of isotp.c are modules of their own.
pub mod Rx
pub mod Tx
pub mod Link
use Prim.Native.String.{String}
use embedded_systems_resourc.Base.{ℕ}

-- `ISOTP_MAX_PAYLOAD`, `ISOTP_CAN_DLC`
abbrev pub max_payload : ℕ
max_payload = 4095

abbrev pub can_dlc : ℕ
can_dlc = 8

-- The PCI codes of the high nibble, and the flow status of the low nibble of an FC frame.
abbrev pub pci_sf : ℕ
pci_sf = 0x0

abbrev pub pci_ff : ℕ
pci_ff = 0x1

abbrev pub pci_cf : ℕ
pci_cf = 0x2

abbrev pub pci_fc : ℕ
pci_fc = 0x3

abbrev pub fs_cts : ℕ
fs_cts = 0x0

abbrev pub fs_wait : ℕ
fs_wait = 0x1

abbrev pub fs_ovflw : ℕ
fs_ovflw = 0x2

-- `isotp_event_t`
pub data Event : Type 0 where
  none message send_fc err_sequence err_overflow err_length err_unexpected : Event

-- `isotp_event_name`
unfoldable pub event_name : Event → String
event_name Event.none = "-"
event_name Event.message = "MESSAGE"
event_name Event.send_fc = "SEND_FC"
event_name Event.err_sequence = "ERR_SEQUENCE"
event_name Event.err_overflow = "ERR_OVERFLOW"
event_name Event.err_length = "ERR_LENGTH"
event_name Event.err_unexpected = "ERR_UNEXPECTED"
