-- ===== src/Isotp/Rx.antt =====
-- code/portable/can/isotp.c, the receive side. `none` for a frame's data is the NULL pointer.
pub mod Inv
pub mod Spells
pub mod Kinds
pub mod Steps
pub mod Held
pub mod Sound
pub mod History
pub mod Complete
mod Tests
use embedded_systems_resourc.Base.{
  ℕ, ◌+◌, ◌-◌, ◌%◌, ◌^◌, Option, none, some, List, [], ◌∷◌, ◌&&◌, ◌||◌, ltb, leb, ◌==◌, ◌!=◌,
  if◌then◌else◌, u8, u16, u32, ◌<<<◌, ◌>>>◌, bit_and, bit_or, get_or, drop, replicate, memcpy,
}
use embedded_systems_resourc.Isotp.{
  max_payload, can_dlc, pci_sf, pci_ff, pci_cf, pci_fc, fs_cts, fs_ovflw, Event,
}

-- `isotp_rx_state_t`
pub data State : Type 0 where
  idle wait_cf : State

-- `isotp_rx_t`; `buf` holds `max_payload` bytes and `fc_frame` holds `can_dlc`.
pub record Rx : Type 0 where
  pub state : State
  pub buf : List ℕ
  pub total_len : ℕ
  pub received : ℕ
  pub next_sn : ℕ
  pub cf_since_fc : ℕ
  pub buffer_limit : ℕ
  pub block_size : ℕ
  pub st_min : ℕ
  pub fc_frame : List ℕ
  pub messages_ok : ℕ
  pub err_sequence : ℕ
  pub err_overflow : ℕ
  pub err_length : ℕ
  pub err_unexpected : ℕ

-- `isotp_rx_init`: the `memset` clears the whole object.
unfoldable pub init : ℕ → ℕ → ℕ → Rx
init buffer_limit block_size st_min = record {
  state = State.idle;
  buf = replicate max_payload 0;
  total_len = 0;
  received = 0;
  next_sn = 0;
  cf_since_fc = 0;
  buffer_limit = if ltb max_payload buffer_limit then max_payload else buffer_limit;
  block_size = block_size;
  st_min = st_min;
  fc_frame = replicate can_dlc 0;
  messages_ok = 0;
  err_sequence = 0;
  err_overflow = 0;
  err_length = 0;
  err_unexpected = 0;
}

-- `build_fc`: all eight bytes are written, the last five as padding.
unfoldable pub build_fc : Rx → ℕ → Rx
build_fc rx flow_status = record rx {
  fc_frame =
      u8 (bit_or (pci_fc <<< 4) (bit_and flow_status 0x0f))
      ∷ rx.block_size
      ∷ rx.st_min
      ∷ replicate 5 0xcc;
}

-- `rx_abort`
unfoldable pub abort : Rx → Rx
abort rx = record rx {
  state = State.idle;
  total_len = 0;
  received = 0;
  next_sn = 0;
  cf_since_fc = 0;
}

-- The `case ISOTP_PCI_SF` of `isotp_rx_frame`.
unfoldable pub single : Rx → List ℕ → ℕ → Event × Rx
unfolding abort
single rx frame_bytes dlc =
    let len = bit_and (get_or frame_bytes 0 0) 0x0f in
    if len == 0 || (ltb 7 len || ltb dlc (len + 1))
    then (Event.err_length, abort (record rx { err_length = u32 (rx.err_length + 1) }))
    else if ltb rx.buffer_limit len
    then (Event.err_overflow, abort (record rx { err_overflow = u32 (rx.err_overflow + 1) }))
    else (
      Event.message,
      record rx {
        buf = memcpy rx.buf 0 (drop 1 frame_bytes) len;
        total_len = len;
        received = len;
        state = State.idle;
        messages_ok = u32 (rx.messages_ok + 1);
      },
    )

-- The 12-bit length of a first frame.
abbrev pub ff_length : List ℕ → ℕ
ff_length frame_bytes =
    u16 (bit_or (bit_and (get_or frame_bytes 0 0) 0x0f <<< 8) (get_or frame_bytes 1 0))

-- The `case ISOTP_PCI_FF`.
unfoldable pub first : Rx → List ℕ → ℕ → Event × Rx
unfolding abort build_fc
first rx frame_bytes dlc =
    let len = ff_length frame_bytes in
    if ltb dlc can_dlc
    then (Event.err_length, abort (record rx { err_length = u32 (rx.err_length + 1) }))
    else if ltb len 8
    then (Event.err_length, abort (record rx { err_length = u32 (rx.err_length + 1) }))
    else if ltb rx.buffer_limit len
    then (
      Event.err_overflow,
      abort (build_fc (record rx { err_overflow = u32 (rx.err_overflow + 1) }) fs_ovflw),
    )
    else (
      Event.send_fc,
      build_fc
          (record rx {
            buf = memcpy rx.buf 0 (drop 2 frame_bytes) 6;
            total_len = len;
            received = 6;
            next_sn = 1;
            cf_since_fc = 0;
            state = State.wait_cf;
          })
          fs_cts,
    )

-- How many bytes a consecutive frame adds: `remaining` and `avail` are `uint16_t`.
abbrev pub cf_take : Rx → ℕ → ℕ
cf_take rx dlc =
    let remaining = u16 (rx.total_len + 2 ^ 16 - rx.received) in
    let avail = u16 (dlc + 2 ^ 16 - 1) in if ltb remaining avail then remaining else avail

-- A consecutive frame with the expected sequence number.
unfoldable pub in_sequence : Rx → List ℕ → ℕ → Event × Rx
unfolding build_fc
in_sequence rx frame_bytes dlc =
    let take = cf_take rx dlc in
    let rx' : Rx = record rx {
      buf = memcpy rx.buf rx.received (drop 1 frame_bytes) take;
      received = u16 (rx.received + take);
      next_sn = u8 (bit_and (rx.next_sn + 1) 0x0f);
      cf_since_fc = u16 (rx.cf_since_fc + 1);
    } in
    if leb rx'.total_len rx'.received
    then (Event.message, record rx' { state = State.idle; messages_ok = u32 (rx'.messages_ok + 1) })
    else if rx'.block_size != 0 && leb rx'.block_size rx'.cf_since_fc
    then (Event.send_fc, build_fc (record rx' { cf_since_fc = 0 }) fs_cts)
    else (Event.none, rx')

-- The `case ISOTP_PCI_CF`.
unfoldable pub consecutive : State → Rx → List ℕ → ℕ → Event × Rx
unfolding in_sequence abort
consecutive State.idle rx frame_bytes dlc =
    (Event.err_unexpected, record rx { err_unexpected = u32 (rx.err_unexpected + 1) })
consecutive State.wait_cf rx frame_bytes dlc =
    if bit_and (get_or frame_bytes 0 0) 0x0f != rx.next_sn
    then (Event.err_sequence, abort (record rx { err_sequence = u32 (rx.err_sequence + 1) }))
    else in_sequence rx frame_bytes dlc

-- The `switch` of `isotp_rx_frame`.
unfoldable pub dispatch : ℕ → Rx → List ℕ → ℕ → Event × Rx
dispatch pci rx frame_bytes dlc =
    if pci == pci_sf
    then single rx frame_bytes dlc
    else if pci == pci_ff
    then first rx frame_bytes dlc
    else if pci == pci_cf
    then consecutive rx.state rx frame_bytes dlc
    else if pci == pci_fc
    then (Event.none, rx)
    else (Event.err_length, record rx { err_length = u32 (rx.err_length + 1) })

-- `isotp_rx_frame`
unfoldable pub frame : Rx → Option (List ℕ) → ℕ → Event × Rx
unfolding dispatch
frame rx none dlc = (Event.err_length, record rx { err_length = u32 (rx.err_length + 1) })
frame rx (some frame_bytes) dlc =
    if dlc == 0 || ltb can_dlc dlc
    then (Event.err_length, record rx { err_length = u32 (rx.err_length + 1) })
    else dispatch (get_or frame_bytes 0 0 >>> 4) rx frame_bytes dlc

-- A caller that hands over received frames in order: the receiver afterwards.
pub frames : Rx → List (Option (List ℕ) × ℕ) → Rx
frames rx [] = rx
frames rx ((frame_bytes, dlc) ∷ more) = frames (frame rx frame_bytes dlc).1 more
