-- ===== src/Isotp/Link/Rounds.antt =====
-- Rounds in the middle of a message: each round adds bytes, the last round delivers.
use embedded_systems_resourc.Base.{
  ℕ, zero, suc, ◌+◌, ◌≤◌, ◌<◌, ◌≡◌, refl, ap, ◌∙◌, ◌≢◌, ◌⊎◌, inl, inr, true, some, List, ◌∷◌, arith,
  length, length-memcpy, take, drop, take-memcpy, take_congr, memcpy, replicate, u16, dec_lt,
  ℕ_discrete, take-length,
}
use embedded_systems_resourc.Isotp.{max_payload, can_dlc, Event}
use embedded_systems_resourc.Isotp.Rx
use embedded_systems_resourc.Isotp.Rx.{Rx}
use embedded_systems_resourc.Isotp.Tx
use embedded_systems_resourc.Isotp.Tx.{Tx}
use embedded_systems_resourc.Isotp.Link.{
  Round, finish, again, Outcome, round, on_next, on_event, exchange,
}
use embedded_systems_resourc.Isotp.Link.Linked.{
  Linked, tx', rx', wire', step, sends, recognised, accepts_last, accepts_block, accepts_more,
  holds_more,
}

-- A round ends the exchange with the whole message, or keeps the sides linked and adds bytes.
pub data Progress (msg : List ℕ) (bs : ℕ) (had : ℕ) (out : List ℕ) (result : Round) : Type 0 where
  arrived :
      (o : Outcome)
      → result ≡ finish o
      → o.delivered ≡ true
      → take (length msg) o.out ≡ msg
      → o.out_len ≡ length msg
      → Progress msg bs had out result
  moved :
      (tx : Tx) (rx : Rx) (wire : List ℕ)
      → result ≡ again tx rx wire
      → Linked msg bs tx rx
      → had < rx.received
      → Progress msg bs had out result

module _ {msg : List ℕ} {bs : ℕ} {tx : Tx} {rx : Rx} (k : Linked msg bs tx rx) (wire out : List ℕ)
    (out_len : ℕ) (room : length msg ≤ length out) where
  -- The round up to the receiver's event.
  round-event :
      (e : Event) (r : Rx)
      → Rx.in_sequence rx (wire' k) can_dlc ≡ (e, r)
      → round tx rx wire out out_len ≡ on_event e (tx' k) r (wire' k) out out_len
  unfolding round Tx.next Tx.next_in on_event
  round-event e r h =
      ap (λ (q : ℕ × Tx × List ℕ). on_next q.0 (some q.1) (some q.2) rx out out_len)
        (ap (λ s. Tx.next_in s tx wire) k.sending ∙ sends k wire)
      ∙ ap (λ (q : Event × Rx). on_event q.0 (tx' k) q.1 (wire' k) out out_len) (recognised k ∙ h)

  now_sized : length (rx' k).buf ≡ max_payload
  now_sized = length-memcpy (step k) rx.buf rx.received (drop 1 (wire' k)) ∙ k.sized

  still_sending : rx.received + step k < length msg → (tx' k).state ≡ Tx.State.sending
  still_sending h = ground arith

  last_round :
      length msg ≤ rx.received + step k
      → Progress msg bs rx.received out (round tx rx wire out out_len)
  unfolding on_event
  last_round h =
      arrived
        (record {
          delivered = true;
          out = memcpy out 0 (rx' k).buf (rx.received + step k);
          out_len = rx.received + step k;
        })
        (round-event _ _ (accepts_last k h)) refl whole all
    where
      all : rx.received + step k ≡ length msg
      all = omega arith

      whole : take (length msg) (memcpy out 0 (rx' k).buf (rx.received + step k)) ≡ msg
      whole =
          take_congr (memcpy out 0 (rx' k).buf (rx.received + step k)) (length msg)
            (0 + (rx.received + step k)) (omega arith)
          ∙ take-memcpy (rx.received + step k) out 0 (rx' k).buf (omega arith)
              (omega (arith, now_sized, k.fits))
          ∙ holds_more k
          ∙ take_congr msg (rx.received + step k) (length msg) all
          ∙ take-length msg

  -- After a full block: the receiver has asked for more, and the sender was cleared to send.
  abbrev asked : Rx
  asked = record (rx' k) {
    cf_since_fc = 0;
    fc_frame = 0x30 ∷ rx.block_size ∷ rx.st_min ∷ replicate 5 0xcc;
  }

  abbrev cleared : Tx
  cleared = record (tx' k) {
    block_size = rx.block_size;
    st_min = rx.st_min;
    cf_in_block = 0;
    state = Tx.State.sending;
  }

  resumes :
      rx.received + step k < length msg
      → on_event Event.send_fc
          (tx' k)
          (Rx.build_fc (record (rx' k) { cf_since_fc = 0 }) 0)
          (wire' k)
          out
          out_len
        ≡ again cleared asked (wire' k)
  unfolding on_event Rx.build_fc Tx.flow_control
  resumes h =
      ap (λ s. again (Tx.on_flow s (tx' k) asked.fc_frame).1 asked (wire' k)) (still_sending h)

  block_round :
      rx.received + step k < length msg
      → bs ≢ 0
      → bs ≤ u16 (rx.cf_since_fc + 1)
      → Progress msg bs rx.received out (round tx rx wire out out_len)
  unfolding on_event
  block_round h ne full =
      moved cleared asked (wire' k) (round-event _ _ (accepts_block k h ne full) ∙ resumes h)
        (record {
          sending = refl;
          waiting = k.waiting;
          payload = k.payload;
          tx_total = k.tx_total;
          rx_total = k.rx_total;
          fits = k.fits;
          sized = now_sized;
          progress = refl;
          begun = omega (arith, k.begun);
          unfinished = h;
          held = holds_more k;
          numbered = refl;
          number = omega arith;
          tx_block = k.rx_block;
          rx_block = k.rx_block;
          byte_block = k.byte_block;
          counted = refl;
          count_word = omega arith;
          within_block = λ ne. omega arith;
        })
        (omega (arith, k.unfinished))

  more_round :
      rx.received + step k < length msg
      → (bs ≡ 0) ⊎ (u16 (rx.cf_since_fc + 1) < bs)
      → Progress msg bs rx.received out (round tx rx wire out out_len)
  unfolding on_event
  more_round h few =
      moved (tx' k) (rx' k) (wire' k) (round-event _ _ (accepts_more k h few))
        (record {
          sending = still_sending h;
          waiting = k.waiting;
          payload = k.payload;
          tx_total = k.tx_total;
          rx_total = k.rx_total;
          fits = k.fits;
          sized = now_sized;
          progress = refl;
          begun = omega (arith, k.begun);
          unfinished = h;
          held = holds_more k;
          numbered = refl;
          number = omega arith;
          tx_block = k.tx_block;
          rx_block = k.rx_block;
          byte_block = k.byte_block;
          counted = refl;
          count_word = omega arith;
          within_block = λ ne. omega (arith, few);
        })
        (omega (arith, k.unfinished))

  -- Every round makes progress.
  round-Progress : Progress msg bs rx.received out (round tx rx wire out out_len)
  round-Progress = elim (dec_lt (rx.received + step k) (length msg)) [
    | no done ↦ last_round (omega arith)
    | yes more ↦ elim (ℕ_discrete bs 0) [
      | yes none_asked ↦ more_round more (inl none_asked)
      | no ne ↦ elim (dec_lt (u16 (rx.cf_since_fc + 1)) bs) [
        | yes room_left ↦ more_round more (inr room_left)
        | no full ↦ block_round more ne (omega arith)
      ]
    ]
  ]

-- What `round_trip` promises.
pub record Delivers (msg : List ℕ) (o : Outcome) : Type 0 where
  pub delivered : o.delivered ≡ true
  pub out : take (length msg) o.out ≡ msg
  pub out_len : o.out_len ≡ length msg

pub follow_round :
    {msg : List ℕ} {bs had : ℕ} {out : List ℕ} (guard : ℕ) (out_len : ℕ)
    → ((tx : Tx) (rx : Rx) (wire : List ℕ)
        → Linked msg bs tx rx
        → had < rx.received
        → Delivers msg (exchange guard tx rx wire out out_len))
    → (result : Round) → Progress msg bs had out result
    → Delivers msg
        (elim result [ finish o ↦ o | again tx rx wire ↦ exchange guard tx rx wire out out_len ])
follow_round guard out_len next result (arrived o e d w l) =
    rw e (record { delivered = d; out = w; out_len = l })
follow_round guard out_len next result (moved tx rx wire e k more) = rw e (next tx rx wire k more)

-- Enough rounds deliver the message, whatever the block size.
pub exchange-Delivers :
    {msg : List ℕ} {bs : ℕ} (guard : ℕ) (tx : Tx) (rx : Rx) (wire out : List ℕ) (out_len : ℕ)
    → Linked msg bs tx rx
    → length msg ≤ length out
    → length msg < rx.received + guard
    → Delivers msg (exchange guard tx rx wire out out_len)
unfolding exchange
exchange-Delivers zero tx rx wire out out_len k room enough = absurd (omega (arith, k.unfinished))
exchange-Delivers {msg} {bs} (suc guard) tx rx wire out out_len k room enough =
    follow_round guard out_len
      (λ tx' rx' wire' (k' : Linked msg bs tx' rx') (more : rx.received < rx'.received).
        exchange-Delivers guard tx' rx' wire' out out_len k' room (omega arith))
      (round tx rx wire out out_len) (round-Progress k wire out out_len room)
