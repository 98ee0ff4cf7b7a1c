-- ===== src/Isotp/Tx.antt =====
-- code/portable/can/isotp.c, the transmit side. `none` stands for a NULL pointer.
pub mod Calls
pub mod Outgoing
pub mod Handed
pub mod Spelled
mod Tests
use embedded_systems_resourc.Base.{
  ℕ, ◌+◌, ◌-◌, ◌^◌, Bool, true, false, Option, none, some, List, ◌&&◌, ◌||◌, ltb, leb, ◌==◌, ◌!=◌,
  if◌then◌else◌, u8, u16, u32, ◌<<<◌, ◌>>>◌, bit_and, bit_or, get_or, set, drop, replicate, memcpy,
}
use embedded_systems_resourc.Isotp.{
  max_payload, can_dlc, pci_sf, pci_ff, pci_cf, pci_fc, fs_cts, fs_wait, fs_ovflw, Event,
}

-- `isotp_tx_state_t`
pub data State : Type 0 where
  idle wait_fc sending done aborted : State

-- `isotp_tx_t`; `payload` is what the pointer points to.
pub record Tx : Type 0 where
  pub state : State
  pub payload : List ℕ
  pub total_len : ℕ
  pub sent : ℕ
  pub next_sn : ℕ
  pub block_size : ℕ
  pub st_min : ℕ
  pub cf_in_block : ℕ
  pub wait_count : ℕ

-- What `isotp_tx_begin` writes once its arguments are accepted.
abbrev pub started : List ℕ → ℕ → Tx
started payload len = record {
  state = State.idle;
  payload = payload;
  total_len = len;
  sent = 0;
  next_sn = 1;
  block_size = 0;
  st_min = 0;
  cf_in_block = 0;
  wait_count = 0;
}

-- `isotp_tx_begin`: the result, and what `tx` points to afterwards.
unfoldable pub begin : Option Tx → Option (List ℕ) → ℕ → Bool × Option Tx
begin none payload len = (false, none)
begin (some tx) none len = (false, some tx)
begin (some tx) (some payload) len =
    if len == 0 || ltb max_payload len then (false, some tx) else (true, some (started payload len))

-- The `case ISOTP_TX_IDLE` of `isotp_tx_next`, a single frame or a first frame.
unfoldable pub send_first : Tx → List ℕ → ℕ × Tx × List ℕ
send_first tx out =
    if leb tx.total_len 7
    then (
      can_dlc,
      record tx { sent = tx.total_len; state = State.done },
      memcpy
          (set (replicate can_dlc 0xcc) 0 (u8 (bit_or (pci_sf <<< 4) (bit_and tx.total_len 0x0f))))
          1 tx.payload tx.total_len,
    )
    else (
      can_dlc,
      record tx { sent = 6; state = State.wait_fc },
      memcpy
          (set (set out 0 (u8 (bit_or (pci_ff <<< 4) (bit_and (tx.total_len >>> 8) 0x0f)))) 1
            (u8 (bit_and tx.total_len 0xff)))
          2 tx.payload 6,
    )

-- How many bytes the next consecutive frame carries.
abbrev pub cf_take : Tx → ℕ
cf_take tx =
    let remaining = u16 (tx.total_len + 2 ^ 16 - tx.sent) in
    if ltb 7 remaining then 7 else u8 remaining

-- The `case ISOTP_TX_SENDING`.
unfoldable pub send_next : Tx → List ℕ → ℕ × Tx × List ℕ
send_next tx out =
    if tx.block_size != 0 && leb tx.block_size tx.cf_in_block
    then (0, record tx { state = State.wait_fc }, out)
    else let take = cf_take tx in
      let sent = u16 (tx.sent + take) in
      (
        can_dlc,
        record tx {
          sent = sent;
          next_sn = u8 (bit_and (tx.next_sn + 1) 0x0f);
          cf_in_block = u16 (tx.cf_in_block + 1);
          state = if leb tx.total_len sent then State.done else tx.state;
        },
        memcpy
            (set (replicate can_dlc 0xcc) 0 (u8 (bit_or (pci_cf <<< 4) (bit_and tx.next_sn 0x0f))))
            1 (drop tx.sent tx.payload) take,
      )

-- The `switch` of `isotp_tx_next`.
unfoldable pub next_in : State → Tx → List ℕ → ℕ × Tx × List ℕ
next_in State.idle tx out = send_first tx out
next_in State.sending tx out = send_next tx out
next_in _ tx out = (0, tx, out)

-- `isotp_tx_next`: the DLC to send, and what `tx` and `out` point to afterwards.
unfoldable pub next : Option Tx → Option (List ℕ) → ℕ × Option Tx × Option (List ℕ)
next none out = (0, none, out)
next (some tx) none = (0, some tx, none)
next (some tx) (some out) =
    let (dlc, tx', out') = next_in tx.state tx out in (dlc, some tx', some out')

-- The `switch` of `isotp_tx_flow_control`.
unfoldable pub on_status : Tx → List ℕ → Event × Tx
on_status tx frame_bytes =
    let status = bit_and (get_or frame_bytes 0 0) 0x0f in
    if status == fs_cts
    then (
      Event.none,
      record tx {
        block_size = get_or frame_bytes 1 0;
        st_min = get_or frame_bytes 2 0;
        cf_in_block = 0;
        state = State.sending;
      },
    )
    else if status == fs_wait
    then (Event.none, record tx { wait_count = u32 (tx.wait_count + 1); state = State.wait_fc })
    else if status == fs_ovflw
    then (Event.err_overflow, record tx { state = State.aborted })
    else (Event.err_unexpected, record tx { state = State.aborted })

-- Only a sender that waits for flow control or is sending takes it.
unfoldable pub on_flow : State → Tx → List ℕ → Event × Tx
unfolding on_status
on_flow State.wait_fc tx frame_bytes = on_status tx frame_bytes
on_flow State.sending tx frame_bytes = on_status tx frame_bytes
on_flow _ tx frame_bytes = (Event.err_unexpected, tx)

-- `isotp_tx_flow_control`
unfoldable pub flow_control : Option Tx → Option (List ℕ) → ℕ → Event × Option Tx
unfolding on_flow
flow_control none frame_bytes dlc = (Event.err_length, none)
flow_control (some tx) none dlc = (Event.err_length, some tx)
flow_control (some tx) (some frame_bytes) dlc =
    if ltb dlc 3
    then (Event.err_length, some tx)
    else if (get_or frame_bytes 0 0 >>> 4) != pci_fc
    then (Event.err_unexpected, some tx)
    else let (e, tx') = on_flow tx.state tx frame_bytes in (e, some tx')
