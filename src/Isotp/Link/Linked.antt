-- ===== src/Isotp/Link/Linked.antt =====
-- Sender and receiver in the middle of a message: what holds between two rounds, and one round.
use embedded_systems_resourc.Base.{
  ℕ, ◌+◌, ◌-◌, ◌%◌, ◌^◌, ◌≤◌, ◌<◌, ◌≡◌, sym, ap, ap₂, ◌∙◌, ◌≢◌, ◌⊎◌, false, some, List, ◌∷◌, ◌++◌,
  arith, length, length-memcpy, take, drop, take-add, take-memcpy, length-drop, memcpy, set,
  replicate, get_or, u8, u16, u32, leb, ◌!=◌, ◌&&◌, bit_and, bit_or, ◌<<<◌, bit_and_mask,
  bit_or_sum, take_congr, memcpy-cons, if◌then◌else◌, min,
}
use embedded_systems_resourc.Isotp.{max_payload, can_dlc, pci_cf, Event}
use embedded_systems_resourc.Isotp.Rx
use embedded_systems_resourc.Isotp.Rx.{Rx}
use embedded_systems_resourc.Isotp.Tx
use embedded_systems_resourc.Isotp.Tx.{Tx}

-- The sender may send, and both sides agree on how much has gone over.
pub record Linked (msg : List ℕ) (bs : ℕ) (tx : Tx) (rx : Rx) : Type 0 where
  pub sending : tx.state ≡ Tx.State.sending
  pub waiting : rx.state ≡ Rx.State.wait_cf
  pub payload : tx.payload ≡ msg
  pub tx_total : tx.total_len ≡ length msg
  pub rx_total : rx.total_len ≡ length msg
  pub fits : length msg ≤ max_payload
  pub sized : length rx.buf ≡ max_payload
  pub progress : tx.sent ≡ rx.received
  pub begun : 6 ≤ rx.received
  pub unfinished : rx.received < length msg
  pub held : take rx.received rx.buf ≡ take rx.received msg
  pub numbered : tx.next_sn ≡ rx.next_sn
  pub number : rx.next_sn < 16
  pub tx_block : tx.block_size ≡ bs
  pub rx_block : rx.block_size ≡ bs
  pub byte_block : bs < 256
  pub counted : tx.cf_in_block ≡ rx.cf_since_fc
  pub count_word : rx.cf_since_fc < 2 ^ 16
  pub within_block : bs ≢ 0 → rx.cf_since_fc < bs

-- How many payload bytes the next frame carries.
abbrev pub chunk : ℕ → ℕ → ℕ
chunk total sent = min 7 (total - sent)

-- A consecutive frame as bytes on the bus.
abbrev pub cf_frame : ℕ → List ℕ → ℕ → List ℕ
cf_frame sn rest n = memcpy (set (replicate can_dlc 0xcc) 0 (0x20 + sn)) 1 rest n

pub cf_head : (sn : ℕ) → sn < 16 → u8 (bit_or (pci_cf <<< 4) (bit_and sn 0x0f)) ≡ 0x20 + sn
cf_head sn h =
    ap (λ m. u8 (bit_or (pci_cf <<< 4) m)) (bit_and_mask 4 sn)
    ∙ ap u8 (bit_or_sum 4 2 (sn % 16) (omega arith))
    ∙ omega arith

pub cf_frame-cons :
    (sn : ℕ) (rest : List ℕ) (n : ℕ)
    → cf_frame sn rest n ≡ (0x20 + sn) ∷ memcpy (replicate 7 0xcc) 0 rest n
cf_frame-cons sn rest n = memcpy-cons n (0x20 + sn) (replicate 7 0xcc) 0 rest

-- Its first byte is the PCI, and its payload field holds the bytes copied in.
cf_frame-head : (sn : ℕ) (rest : List ℕ) (n : ℕ) → get_or (cf_frame sn rest n) 0 0 ≡ 0x20 + sn
cf_frame-head sn rest n = ap (λ l. get_or l 0 0) (cf_frame-cons sn rest n)

cf_frame-payload :
    (sn : ℕ) (rest : List ℕ) (n : ℕ)
    → n ≤ 7
    → n ≤ length rest
    → take n (drop 1 (cf_frame sn rest n)) ≡ take n rest
cf_frame-payload sn rest n h k =
    ap (λ l. take n (drop 1 l)) (cf_frame-cons sn rest n)
    ∙ take_congr (memcpy (replicate 7 0xcc) 0 rest n) n (0 + n) (omega arith)
    ∙ take-memcpy n (replicate 7 0xcc) 0 rest (omega arith) k

length-cf_payload : (sn : ℕ) (rest : List ℕ) (n : ℕ) → length (drop 1 (cf_frame sn rest n)) ≡ 7
length-cf_payload sn rest n =
    ap (λ l. length (drop 1 l)) (cf_frame-cons sn rest n)
    ∙ length-memcpy n (replicate 7 0xcc) 0 rest

module _ {msg : List ℕ} {bs : ℕ} {tx : Tx} {rx : Rx} (k : Linked msg bs tx rx) where
  abbrev pub total : ℕ
  total = length msg

  abbrev pub now : ℕ
  now = rx.received

  abbrev pub step : ℕ
  step = chunk total now

  -- The frame that the sender puts on the bus.
  abbrev pub wire' : List ℕ
  wire' = cf_frame rx.next_sn (drop now msg) step

  abbrev pub tx' : Tx
  tx' = record tx {
    sent = now + step;
    next_sn = (rx.next_sn + 1) % 16;
    cf_in_block = u16 (rx.cf_since_fc + 1);
    state = if leb total (now + step) then Tx.State.done else Tx.State.sending;
  }

  abbrev pub rx' : Rx
  rx' = record rx {
    buf = memcpy rx.buf now (drop 1 wire') step;
    received = now + step;
    next_sn = (rx.next_sn + 1) % 16;
    cf_since_fc = u16 (rx.cf_since_fc + 1);
  }

  not_blocked : (tx.block_size != 0 && leb tx.block_size tx.cf_in_block) ≡ false
  not_blocked = ground (arith, k.within_block)

  next_number : u8 (bit_and (rx.next_sn + 1) 0x0f) ≡ (rx.next_sn + 1) % 16
  next_number = omega (arith, bit_and_mask 4 (rx.next_sn + 1))

  tx_take : Tx.cf_take tx ≡ step
  tx_take = ground arith

  rx_take : Rx.cf_take rx can_dlc ≡ step
  rx_take = ground arith

  pub sends : (wire : List ℕ) → Tx.send_next tx wire ≡ (can_dlc, tx', wire')
  unfolding Tx.send_next
  sends wire = ground (arith, not_blocked, tx_take, next_number, cf_head rx.next_sn)

  rest_long : step ≤ length (drop now msg)
  rest_long = omega (arith, length-drop now msg)

  -- The receiver recognises the frame as the consecutive frame that it expects.
  pub recognised : Rx.frame rx (some wire') can_dlc ≡ Rx.in_sequence rx wire' can_dlc
  unfolding Rx.frame Rx.consecutive
  recognised =
      ground
        (arith, cf_frame-head rx.next_sn (drop now msg) step, bit_and_mask 4 (0x20 + rx.next_sn))

  pub accepts_last :
      total ≤ now + step
      → Rx.in_sequence rx wire' can_dlc ≡ (
        Event.message,
        record rx' { state = Rx.State.idle; messages_ok = u32 (rx.messages_ok + 1) },
      )
  unfolding Rx.in_sequence
  accepts_last h = ground (arith, rx_take, next_number)

  pub accepts_block :
      now + step < total
      → bs ≢ 0
      → bs ≤ u16 (rx.cf_since_fc + 1)
      → Rx.in_sequence rx wire' can_dlc
        ≡ (Event.send_fc, Rx.build_fc (record rx' { cf_since_fc = 0 }) 0)
  unfolding Rx.in_sequence
  accepts_block h ne full = ground (arith, rx_take, next_number)

  pub accepts_more :
      now + step < total
      → (bs ≡ 0) ⊎ (u16 (rx.cf_since_fc + 1) < bs)
      → Rx.in_sequence rx wire' can_dlc ≡ (Event.none, rx')
  unfolding Rx.in_sequence
  accepts_more h room = ground (arith, rx_take, next_number)

  -- What the receiver holds afterwards is a longer prefix of the message.
  pub holds_more : take (now + step) rx'.buf ≡ take (now + step) msg
  holds_more =
      take-memcpy step rx.buf now (drop 1 wire') (omega arith)
        (omega (arith, length-cf_payload rx.next_sn (drop now msg) step))
      ∙ ap₂ ◌++◌ k.held (cf_frame-payload rx.next_sn (drop now msg) step (omega arith) rest_long)
      ∙ sym (take-add now step msg)
