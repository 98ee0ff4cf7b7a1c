-- ===== src/Isotp/Tx/Handed.antt =====
-- isotp_tx_next and isotp_tx_flow_control, call by call, against the frames handed out so far.
use embedded_systems_resourc.Base.{
  ℕ, suc, ◌+◌, ◌/◌, ◌%◌, ◌≤◌, ◌<◌, ◌≡◌, refl, sym, ap, ltb, subst, ◌∙◌, true, false, Option, none,
  some, List, ◌∷◌, arith, length, length-take, length-drop, take, drop, take-length, take_congr,
  replicate, get_or, set, memcpy, memcpy-cons, u8, u16, bit_and, ◌>>>◌, bit_and_mask, leb, ◌!=◌,
  ◌&&◌, ◌==◌, if◌then◌else◌, Bool-cases, inl, inr, dec_le, le→leb, lt→leb_false,
}
use embedded_systems_resourc.Isotp.{max_payload, can_dlc, pci_fc, fs_cts, fs_wait, fs_ovflw, Event}
use embedded_systems_resourc.Isotp.Rx.Spells.{CanFrame, Partial, Spells}
use embedded_systems_resourc.Isotp.Link.Linked.{cf_head, cf_frame-cons}
use embedded_systems_resourc.Isotp.Link.Opening.{two_heads}
use embedded_systems_resourc.Isotp.Tx.{
  State, Tx, cf_take, send_first, send_next, next_in, on_status, on_flow, flow_control,
}
use embedded_systems_resourc.Isotp.Tx.Calls.{held_by}
use embedded_systems_resourc.Isotp.Tx.Outgoing.{
  Begun, Told, Knows, by_test, sf_head, ff_head, single_frame, first_frame, chunk, frame_from,
  extended-take, continues,
}

module _ (limit : ℕ) (msg : List ℕ) (some_bytes : 1 ≤ length msg) (fits : length msg ≤ limit)
    (word : limit ≤ max_payload) (tx : Tx) (frames : List CanFrame) (payload : tx.payload ≡ msg)
    (total : tx.total_len ≡ length msg) where
  abbrev pub Handed : ℕ × Tx × List ℕ → Type 0
  Handed (dlc, tx', out') =
      Knows limit msg tx' (if dlc == 0 then frames else (some out', dlc) ∷ frames)

  first-short : (out : List ℕ) → length msg ≤ 7 → Handed (send_first tx out)
  unfolding send_first
  first-short out short =
      subst Handed
        {x = (
          can_dlc,
          record tx { sent = length msg; state = State.done },
          length msg ∷ memcpy (replicate 7 0xcc) 0 msg (length msg),
        )}
        (sym (
          ground (
            arith,
            total,
            payload,
            sf_head (length msg) short,
            memcpy-cons (length msg) (length msg) (replicate 7 0xcc) 0 msg,
          )))
        (record {
          payload = payload;
          total = total;
          told = single_frame limit msg fits word frames some_bytes short;
        })

  first-long :
      (out : List ℕ)
      → length out ≡ can_dlc
      → tx.next_sn ≡ 1
      → 8 ≤ length msg
      → Handed (send_first tx out)
  unfolding send_first
  first-long out eight number long =
      let a = 16 + length msg / 256 in
      let b = length msg % 256 in
      let bytes : memcpy (set (set out 0 a) 1 b) 2 msg 6 ≡ a ∷ b ∷ memcpy (drop 2 out) 0 msg 6 =
        ap (λ l. memcpy l 2 msg 6) (two_heads out a b (omega (arith, eight)))
        ∙ memcpy-cons 6 a (b ∷ drop 2 out) 1 msg
        ∙ ap (◌∷◌ a) (memcpy-cons 6 b (drop 2 out) 0 msg) in
      let low : u8 (bit_and (length msg) 0xff) ≡ b =
        ap u8 (bit_and_mask 8 (length msg)) ∙ omega arith in
      subst Handed
        {x = (
          can_dlc,
          record tx { sent = 6; state = State.wait_fc },
          a ∷ b ∷ memcpy (drop 2 out) 0 msg 6,
        )}
        (sym (ground (arith, total, payload, ff_head (length msg) (omega arith), low, bytes)))
        (record {
          payload = payload;
          total = total;
          told = (
            1,
            first_frame limit msg fits word frames (drop 2 out)
                (omega (arith, length-drop 2 out, eight)) long,
            number,
            omega arith,
            omega arith,
          );
        })

  abbrev n : ℕ
  n = chunk limit msg fits word frames tx.sent

  -- The sender after a consecutive frame.
  abbrev moved_on : Tx
  moved_on = record tx {
    sent = tx.sent + n;
    next_sn = (tx.next_sn + 1) % 16;
    cf_in_block = u16 (tx.cf_in_block + 1);
    state = if leb (length msg) (tx.sent + n) then State.done else State.sending;
  }

  sends_next :
      (out : List ℕ)
      → tx.state ≡ State.sending
      → tx.next_sn < 16
      → tx.sent < length msg
      → (tx.block_size != 0 && leb tx.block_size tx.cf_in_block) ≡ false
      → send_next tx out
        ≡ (can_dlc, moved_on, frame_from limit msg fits word frames tx.next_sn tx.sent)
  unfolding send_next
  sends_next out sending digit more free =
      let taken : cf_take tx ≡ n = ground arith in
      let sum : u16 (tx.sent + n) ≡ tx.sent + n = omega arith in
      let number : u8 (bit_and (tx.next_sn + 1) 0x0f) ≡ (tx.next_sn + 1) % 16 =
        omega (arith, bit_and_mask 4 (tx.next_sn + 1)) in
      rw (free, taken, sum, number, cf_head tx.next_sn digit)
        (λ i. (
          can_dlc,
          record moved_on { state = if leb (total i) (tx.sent + n) then State.done else sending i },
          (ap
                  (λ l.
                    memcpy (set (replicate can_dlc 0xcc) 0 (0x20 + tx.next_sn)) 1 (drop tx.sent l)
                      n)
                  payload
                ∙ cf_frame-cons tx.next_sn (drop tx.sent msg) n)
              i,
        ))

  blocked :
      (out : List ℕ)
      → (tx.block_size != 0 && leb tx.block_size tx.cf_in_block) ≡ true
      → send_next tx out ≡ (0, record tx { state = State.wait_fc }, out)
  unfolding send_next
  blocked out full = rw full refl

  abbrev next_frames : List CanFrame
  next_frames = (some (frame_from limit msg fits word frames tx.next_sn tx.sent), can_dlc) ∷ frames

  now_Told :
      (st : State)
      → moved_on.state ≡ st
      → Told limit msg st moved_on next_frames
      → Knows limit msg moved_on next_frames
  now_Told st e t = record {
    payload = payload;
    total = total;
    told = subst (λ x. Told limit msg x moved_on next_frames) (sym e) t;
  }

  next-Knows : Begun limit msg tx frames → Knows limit msg moved_on next_frames
  next-Knows (k, part, number, begun, more) =
      let bytes = frame_from limit msg fits word frames tx.next_sn tx.sent in
      let long : length (take tx.sent msg) < length msg = omega (arith, length-take tx.sent msg) in
      let goes = continues limit msg fits word frames k tx.next_sn tx.sent number in
      let same = extended-take limit msg fits word frames tx.next_sn tx.sent more in
      elim (dec_le (length msg) (tx.sent + n)) [
        | yes last ↦
            let all : take (tx.sent + n) msg ≡ msg =
              take_congr msg (tx.sent + n) (length msg) (omega arith) ∙ take-length msg in
            now_Told State.done
              (ap (λ b. if b then State.done else State.sending)
                (le→leb (length msg) (tx.sent + n) last))
              (subst (Spells limit next_frames) (same ∙ all)
                (Spells.joined {bytes = bytes} part long goes (ap length (same ∙ all))))
        | no rest ↦
            now_Told State.sending
              (ap (λ b. if b then State.done else State.sending)
                (lt→leb_false (length msg) (tx.sent + n) (omega arith)))
              (
                suc k,
                subst (Partial limit (length msg) next_frames (suc k)) same
                    (Partial.added {bytes = bytes} part long goes),
                omega (arith, number),
                omega arith,
                omega arith,
              )
      ]

  next-Handed :
      (out : List ℕ)
      → tx.state ≡ State.sending
      → Begun limit msg tx frames
      → Handed (send_next tx out)
  next-Handed out sending (k, part, number, begun, more) =
      elim (Bool-cases (tx.block_size != 0 && leb tx.block_size tx.cf_in_block)) [
        | inl full ↦
            subst Handed (sym (blocked out full))
              (record { payload = payload; total = total; told = (k, part, number, begun, more) })
        | inr free ↦
            subst Handed (sym (sends_next out sending (omega arith) more free))
              (next-Knows (k, part, number, begun, more))
      ]

  unmoved : (st : State) → tx.state ≡ st → Told limit msg st tx frames → Knows limit msg tx frames
  unmoved st e t = record {
    payload = payload;
    total = total;
    told = subst (λ x. Told limit msg x tx frames) (sym e) t;
  }

  -- Every call of isotp_tx_next.
  pub asked :
      (out : List ℕ)
      → length out ≡ can_dlc
      → (st : State) → tx.state ≡ st
      → Told limit msg st tx frames
      → Handed (next_in st tx out)
  unfolding next_in
  asked out eight State.idle e (none_sent, number) = elim (dec_le (length msg) 7) [
    | yes short ↦ first-short out short
    | no long ↦ first-long out eight number (omega arith)
  ]
  asked out eight State.sending e t = next-Handed out e t
  asked out eight State.wait_fc e t = unmoved State.wait_fc e t
  asked out eight State.done e t = unmoved State.done e t
  asked out eight State.aborted e t = unmoved State.aborted e t

  -- Flow control clears, holds or aborts, and hands out nothing.
  status-Knows :
      (frame_bytes : List ℕ)
      → Begun limit msg tx frames
      → Knows limit msg (on_status tx frame_bytes).1 frames
  unfolding on_status
  status-Knows frame_bytes t =
      let status = bit_and (get_or frame_bytes 0 0) 0x0f in
      let P = λ (r : Event × Tx). Knows limit msg r.1 frames in
      by_test P (status == fs_cts) (record { payload = payload; total = total; told = t })
        (by_test P (status == fs_wait) (record { payload = payload; total = total; told = t })
          (by_test P (status == fs_ovflw) (record { payload = payload; total = total; told = tt })
            (record { payload = payload; total = total; told = tt })))

  -- Every call of isotp_tx_flow_control.
  controlled-in :
      (frame_bytes : List ℕ) (st : State)
      → tx.state ≡ st
      → Told limit msg st tx frames
      → Knows limit msg (on_flow st tx frame_bytes).1 frames
  unfolding on_flow
  controlled-in frame_bytes State.wait_fc e t = status-Knows frame_bytes t
  controlled-in frame_bytes State.sending e t = status-Knows frame_bytes t
  controlled-in frame_bytes State.idle e t = unmoved State.idle e t
  controlled-in frame_bytes State.done e t = unmoved State.done e t
  controlled-in frame_bytes State.aborted e t = unmoved State.aborted e t

  pub controlled :
      (frame_bytes : Option (List ℕ)) (dlc : ℕ)
      → Told limit msg tx.state tx frames
      → Knows limit msg (held_by tx (flow_control (some tx) frame_bytes dlc).1) frames
  unfolding flow_control
  controlled none dlc t = unmoved tx.state refl t
  controlled (some frame_bytes) dlc t =
      let P = λ (r : Event × Option Tx). Knows limit msg (held_by tx r.1) frames in
      let same = unmoved tx.state refl t in
      by_test P (ltb dlc 3) same (
        by_test P ((get_or frame_bytes 0 0 >>> 4) != pci_fc) same
          (controlled-in frame_bytes tx.state refl t))
