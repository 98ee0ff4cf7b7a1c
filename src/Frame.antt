-- ===== src/Frame.antt =====
-- code/portable/frame/frame.h and frame.c: the receiver of framed bytes, a byte at a time.
-- A function that writes through `p` returns the new parser beside its result.
pub mod Inv
mod Collect
pub mod Wire
pub mod Accept
pub mod Seen
mod Follow
pub mod Sound
mod Tests
use Prim.Native.String.{String}
use embedded_systems_resourc.Base.{
  ℕ, ◌+◌, List, [], ◌∷◌, ltb, leb, ◌==◌, ◌!=◌, if◌then◌else◌, u8, u16, u32, ◌<<<◌, bit_or, set,
}
use embedded_systems_resourc.Crc
use embedded_systems_resourc.Crc.{update}

-- `FRAME_STX`, `FRAME_ETX`, `FRAME_MAX_PAYLOAD`
abbrev pub stx_byte : ℕ
stx_byte = 0x02

abbrev pub etx_byte : ℕ
etx_byte = 0x03

abbrev pub max_payload : ℕ
max_payload = 64

-- `frame_state_t`; `count` stands for every value that names no state.
pub data State : Type 0 where
  idle len payload crc_lo crc_hi etx count : State

-- `frame_event_t`
pub data Event : Type 0 where
  none complete err_length err_crc err_framing : Event

-- `frame_parser_t`; `payload` holds `max_payload` bytes.
pub record Parser : Type 0 where
  pub state : State
  pub payload : List ℕ
  pub length : ℕ
  pub index : ℕ
  pub crc_received : ℕ
  pub crc_computed : ℕ
  pub frames_ok : ℕ
  pub err_length : ℕ
  pub err_crc : ℕ
  pub err_framing : ℕ
  pub bytes_discarded : ℕ

-- `frame_reset`: the counters and the payload stay.
unfoldable pub reset : Parser → Parser
reset p = record p {
  state = State.idle;
  length = 0;
  index = 0;
  crc_received = 0;
  crc_computed = Crc.init;
}

-- The cases of the `switch` of `frame_feed`.
unfoldable pub feed_in : State → Parser → ℕ → Event × Parser
unfolding reset
feed_in State.idle p byte =
    if byte == stx_byte
    then (
      Event.none,
      record p { length = 0; index = 0; crc_computed = Crc.init; state = State.len },
    )
    else (Event.none, record p { bytes_discarded = u32 (p.bytes_discarded + 1) })
feed_in State.len p byte =
    if ltb max_payload byte
    then (Event.err_length, record p { err_length = u32 (p.err_length + 1); state = State.idle })
    else (
      Event.none,
      record p {
        length = byte;
        crc_computed = update p.crc_computed byte;
        state = if byte == 0 then State.crc_lo else State.payload;
      },
    )
feed_in State.payload p byte =
    let index = u8 (p.index + 1) in
    (
      Event.none,
      record p {
        payload = set p.payload p.index byte;
        index = index;
        crc_computed = update p.crc_computed byte;
        state = if leb p.length index then State.crc_lo else p.state;
      },
    )
feed_in State.crc_lo p byte = (Event.none, record p { crc_received = byte; state = State.crc_hi })
feed_in State.crc_hi p byte =
    let received = bit_or p.crc_received (u16 (u16 byte <<< 8)) in
    if received != p.crc_computed
    then (
      Event.err_crc,
      record p { crc_received = received; err_crc = u32 (p.err_crc + 1); state = State.idle },
    )
    else (Event.none, record p { crc_received = received; state = State.etx })
feed_in State.etx p byte =
    if byte != etx_byte
    then (Event.err_framing, record p { state = State.idle; err_framing = u32 (p.err_framing + 1) })
    else (Event.complete, record p { state = State.idle; frames_ok = u32 (p.frames_ok + 1) })
feed_in State.count p byte = (Event.none, reset p)

-- `frame_feed`
unfoldable pub feed : Parser → ℕ → Event × Parser
unfolding feed_in
feed p byte = feed_in p.state p byte

-- A caller that feeds bytes in order: the parser afterwards, and the events.
unfoldable pub feed_all : Parser → List ℕ → Parser
feed_all p [] = p
feed_all p (x ∷ xs) = feed_all (feed p x).1 xs

unfoldable pub events : Parser → List ℕ → List Event
events p [] = []
events p (x ∷ xs) = (feed p x).0 ∷ events (feed p x).1 xs

-- `frame_state_name`
unfoldable pub state_name : State → String
state_name State.idle = "IDLE"
state_name State.len = "LEN"
state_name State.payload = "PAYLOAD"
state_name State.crc_lo = "CRC_LO"
state_name State.crc_hi = "CRC_HI"
state_name State.etx = "ETX"
state_name State.count = "?"

-- `frame_event_name`
unfoldable pub event_name : Event → String
event_name Event.none = "-"
event_name Event.complete = "COMPLETE"
event_name Event.err_length = "ERR_LENGTH"
event_name Event.err_crc = "ERR_CRC"
event_name Event.err_framing = "ERR_FRAMING"
