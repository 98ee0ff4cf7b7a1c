-- ===== src/Isotp/Rx/Steps.antt =====
-- What isotp_rx_frame does with single, first and consecutive frames that it accepts.
use embedded_systems_resourc.Base.{
  ℕ, ◌+◌, ◌-◌, ◌*◌, ◌%◌, ◌≤◌, ◌<◌, ◌≡◌, ◌≢◌, refl, sym, ap, subst, ◌∙◌, List, ◌||◌, ◌&&◌, arith,
  length, take, take_congr, take-memcpy, drop, get_or, memcpy, u8, u16, u32, min, ltb, leb, ◌==◌,
  ◌!=◌, if◌then◌else◌, bit_and, bit_or, ◌<<<◌, bit_and_mask, bit_or_sum, le→leb, lt→leb_false,
}
use embedded_systems_resourc.Isotp.{Event, fs_cts}
use embedded_systems_resourc.Isotp.Rx.{
  State, Rx, single, first, ff_length, cf_take, in_sequence, build_fc, abort,
}
use embedded_systems_resourc.Isotp.Rx.Inv.{IsValid}
use embedded_systems_resourc.Isotp.Rx.Spells.{pci_byte}
use embedded_systems_resourc.Isotp.Rx.Kinds.{low_nibble, by_test}

-- The length that a first frame declares.
pub ff_length_lem :
    (bytes : List ℕ)
    → get_or bytes 1 0 < 256
    → ff_length bytes ≡ pci_byte bytes % 16 * 256 + get_or bytes 1 0
ff_length_lem bytes h =
    ap u16 (
      ap (λ q. bit_or (q <<< 8) (get_or bytes 1 0)) (low_nibble (pci_byte bytes))
      ∙ bit_or_sum 8 (pci_byte bytes % 16) (get_or bytes 1 0) h)
    ∙ omega arith

pub cf_take-min :
    (rx : Rx) (dlc : ℕ)
    → IsValid rx
    → 1 ≤ dlc
    → dlc ≤ 8
    → cf_take rx dlc ≡ min (rx.total_len - rx.received) (dlc - 1)
cf_take-min rx dlc v p q = ground (arith, v.limit, v.total, v.received)

-- What stands in the buffer after a copy to its beginning.
pub copied :
    (n : ℕ) (dst src : List ℕ)
    → n ≤ length dst
    → n ≤ length src
    → take n (memcpy dst 0 src n) ≡ take n src
copied n dst src h k =
    take_congr (memcpy dst 0 src n) n (0 + n) (omega arith)
    ∙ take-memcpy n dst 0 src (omega arith) k

-- The receiver with a single frame of `n` bytes.
abbrev pub with_single : Rx → List ℕ → ℕ → Rx
with_single rx bytes n = record rx {
  buf = memcpy rx.buf 0 (drop 1 bytes) n;
  total_len = n;
  received = n;
  state = State.idle;
  messages_ok = u32 (rx.messages_ok + 1);
}

pub single-ok :
    (rx : Rx) (bytes : List ℕ) (dlc n : ℕ)
    → pci_byte bytes ≡ n
    → (1 ≤ n) × (n ≤ 7) × (n ≤ rx.buffer_limit)
    → (n < dlc) × (dlc ≤ 8)
    → single rx bytes dlc ≡ (Event.message, with_single rx bytes n)
unfolding single
single-ok rx bytes dlc n e (low, high, fits) (h, few) =
    let len : bit_and (pci_byte bytes) 0x0f ≡ n = low_nibble (pci_byte bytes) ∙ omega arith in
    ap
      (λ m.
        if m == 0 || (ltb 7 m || ltb dlc (m + 1))
        then (Event.err_length, abort (record rx { err_length = u32 (rx.err_length + 1) }))
        else if ltb rx.buffer_limit m
        then (Event.err_overflow, abort (record rx { err_overflow = u32 (rx.err_overflow + 1) }))
        else (Event.message, with_single rx bytes m))
      len
    ∙ ground arith

-- The receiver with a first frame of a message of `total` bytes.
abbrev pub with_first : Rx → List ℕ → ℕ → Rx
with_first rx bytes total = record rx {
  buf = memcpy rx.buf 0 (drop 2 bytes) 6;
  total_len = total;
  received = 6;
  next_sn = 1;
  cf_since_fc = 0;
  state = State.wait_cf;
}

pub first-ok :
    (rx : Rx) (bytes : List ℕ) (total : ℕ)
    → ff_length bytes ≡ total
    → 8 ≤ total
    → total ≤ rx.buffer_limit
    → first rx bytes 8 ≡ (Event.send_fc, build_fc (with_first rx bytes total) fs_cts)
unfolding first
first-ok rx bytes total e low fits = ground arith

-- The receiver with the next `n` bytes.
abbrev pub with_next : Rx → List ℕ → ℕ → Rx
with_next rx bytes n = record rx {
  buf = memcpy rx.buf rx.received (drop 1 bytes) n;
  received = rx.received + n;
  next_sn = (rx.next_sn + 1) % 16;
  cf_since_fc = u16 (rx.cf_since_fc + 1);
}

-- A message that goes on: what it holds is `with_next`.
pub record Advanced (rx : Rx) (bytes : List ℕ) (n : ℕ) (r : Event × Rx) : Type 0 where
  pub quiet : r.0 ≢ Event.message
  pub state : r.1.state ≡ rx.state
  pub total : r.1.total_len ≡ rx.total_len
  pub buf : r.1.buf ≡ memcpy rx.buf rx.received (drop 1 bytes) n
  pub received : r.1.received ≡ rx.received + n
  pub number : r.1.next_sn ≡ (rx.next_sn + 1) % 16
  pub limit : r.1.buffer_limit ≡ rx.buffer_limit

module _ (rx : Rx) (bytes : List ℕ) (dlc : ℕ) (v : IsValid rx) (some_byte : 1 ≤ dlc)
    (few : dlc ≤ 8) where
  abbrev pub taken : ℕ
  taken = min (rx.total_len - rx.received) (dlc - 1)

  next_number : u8 (bit_and (rx.next_sn + 1) 0x0f) ≡ (rx.next_sn + 1) % 16
  next_number = omega (arith, bit_and_mask 4 (rx.next_sn + 1))

  now_received : u16 (rx.received + taken) ≡ rx.received + taken
  now_received = omega (arith, v.limit, v.total, v.received)

  -- The test for the end of the message, on what the frame has added.
  in_sequence-next : in_sequence rx bytes dlc ≡ (
      let rx' : Rx = with_next rx bytes taken in
      if leb rx'.total_len rx'.received
      then (
        Event.message,
        record rx' { state = State.idle; messages_ok = u32 (rx'.messages_ok + 1) },
      )
      else if rx'.block_size != 0 && leb rx'.block_size rx'.cf_since_fc
      then (Event.send_fc, build_fc (record rx' { cf_since_fc = 0 }) fs_cts)
      else (Event.none, rx'))
  unfolding in_sequence
  in_sequence-next = rw (cf_take-min rx dlc v some_byte few, now_received, next_number) refl

  pub in_sequence-last :
      rx.total_len ≤ rx.received + taken
      → in_sequence rx bytes dlc ≡ (
        Event.message,
        record (with_next rx bytes taken) {
          state = State.idle;
          messages_ok = u32 (rx.messages_ok + 1);
        },
      )
  in_sequence-last h = in_sequence-next ∙ rw (le→leb rx.total_len (rx.received + taken) h) refl

  goes_on : Advanced rx bytes taken (Event.none, with_next rx bytes taken)
  goes_on = record {
    quiet = λ e. cc;
    state = refl;
    total = refl;
    buf = refl;
    received = refl;
    number = refl;
    limit = refl;
  }

  asks_flow :
      Advanced rx bytes taken
        (Event.send_fc, build_fc (record (with_next rx bytes taken) { cf_since_fc = 0 }) fs_cts)
  unfolding build_fc
  asks_flow = record {
    quiet = λ e. cc;
    state = refl;
    total = refl;
    buf = refl;
    received = refl;
    number = refl;
    limit = refl;
  }

  pub in_sequence-more :
      rx.received + taken < rx.total_len → Advanced rx bytes taken (in_sequence rx bytes dlc)
  in_sequence-more h =
      let rx' : Rx = with_next rx bytes taken in
      subst (Advanced rx bytes taken)
        (sym (in_sequence-next ∙ rw (lt→leb_false rx.total_len (rx.received + taken) h) refl))
        (by_test (Advanced rx bytes taken)
          (rx'.block_size != 0 && leb rx'.block_size rx'.cf_since_fc) asks_flow goes_on)
