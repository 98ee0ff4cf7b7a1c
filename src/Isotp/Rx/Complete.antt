-- ===== src/Isotp/Rx/Complete.antt =====
-- The messages that isotp_rx_frame delivers, against those that the frames end in.
use embedded_systems_resourc.Base.{
  ℕ, suc, ◌+◌, ◌/◌, ◌%◌, ◌≤◌, ◌<◌, ◌≡◌, ◌↔◌, refl, sym, ap, ap₂, subst, ◌∙◌, some, List, [], ◌∷◌,
  arith, length, take, drop, get_or, min, length-drop,
}
use embedded_systems_resourc.Isotp.{Event, max_payload}
use embedded_systems_resourc.Isotp.Rx.{
  State, Rx, init, ff_length, in_sequence, consecutive, frame, build_fc,
}
use embedded_systems_resourc.Isotp.Rx.Inv.{IsValid}
use embedded_systems_resourc.Isotp.Rx.Spells.{
  CanFrame, Sized, AllSized, pci_byte, Ignored, Continues, extended, Partial, Spells,
}
use embedded_systems_resourc.Isotp.Rx.Kinds.{
  low_nibble, frame-single, frame-first, frame-consecutive, frame-Ignored,
}
use embedded_systems_resourc.Isotp.Rx.Steps.{
  ff_length_lem, copied, single-ok, first-ok, with_next, taken, in_sequence-last, in_sequence-more,
}
use embedded_systems_resourc.Isotp.Rx.Held.{held, held-next, length-held-next}
use embedded_systems_resourc.Isotp.Rx.History.{frame-Follows, after, last_event, after-Knows}

-- The receiver waits for consecutive frame `k` of a message of `total` bytes and holds `payload`.
record Waits (total k : ℕ) (payload : List ℕ) (rx : Rx) : Type 0 where
  waiting : rx.state ≡ State.wait_cf
  declared : rx.total_len ≡ total
  holds : held rx ≡ payload
  number : rx.next_sn ≡ k % 16

-- The frame that continues a message, in the code's words.
frame-in_sequence :
    (rx : Rx) (bytes : List ℕ) (dlc k : ℕ)
    → rx.state ≡ State.wait_cf
    → rx.next_sn ≡ k % 16
    → Continues k bytes dlc
    → frame rx (some bytes) dlc ≡ in_sequence rx bytes dlc
unfolding consecutive
frame-in_sequence rx bytes dlc k w number (some_byte, few, cf) =
    frame-consecutive rx bytes dlc some_byte few (omega arith) (omega arith)
    ∙ ap (λ st. consecutive st rx bytes dlc) w
    ∙ ground (arith, low_nibble (pci_byte bytes))

opened-Waits :
    (limit total : ℕ) (bytes : List ℕ) (rx : Rx)
    → IsValid rx
    → rx.buffer_limit ≡ limit
    → Sized (some bytes, 8)
    → pci_byte bytes ≡ 16 + total / 256
    → get_or bytes 1 0 ≡ total % 256
    → 8 ≤ total
    → total ≤ limit
    → Waits total 1 (take 6 (drop 2 bytes)) (frame rx (some bytes) 8).1
unfolding build_fc
opened-Waits limit total bytes rx v lim sized p q low fits =
    let len : ff_length bytes ≡ total =
      ff_length_lem bytes (omega arith) ∙ omega (arith, v.limit) in
    subst (λ (r : Event × Rx). Waits total 1 (take 6 (drop 2 bytes)) r.1)
      (sym (
        frame-first rx bytes 8 (omega arith) (omega arith) (omega arith) (omega (arith, v.limit))
        ∙ first-ok rx bytes total len low (omega arith)))
      (record {
        waiting = refl;
        declared = refl;
        holds =
            copied 6 rx.buf (drop 2 bytes) (omega (arith, v.sized))
              (omega (arith, length-drop 2 bytes));
        number = refl;
      })

module _ (total k : ℕ) (bytes payload : List ℕ) (dlc : ℕ) (rx : Rx) (v : IsValid rx)
    (w : Waits total k payload rx) (sized : dlc ≤ length bytes) (c : Continues k bytes dlc) where
  abbrev n : ℕ
  n = taken rx bytes dlc v c.0 c.1

  grown : held (with_next rx bytes n) ≡ extended total payload bytes dlc
  grown =
      held-next rx bytes dlc v c.0 c.1 sized
      ∙ ap₂ (λ t p. extended t p bytes dlc) w.declared w.holds

  length-grown : length (extended total payload bytes dlc) ≡ rx.received + n
  length-grown = ap length (sym grown) ∙ length-held-next rx bytes dlc v c.0 c.1

  added-Waits :
      length (extended total payload bytes dlc) < total
      → Waits total (suc k) (extended total payload bytes dlc) (frame rx (some bytes) dlc).1
  added-Waits h =
      let a = in_sequence-more rx bytes dlc v c.0 c.1 (omega (arith, length-grown, w.declared)) in
      subst (λ (r : Event × Rx). Waits total (suc k) (extended total payload bytes dlc) r.1)
        (sym (frame-in_sequence rx bytes dlc k w.waiting w.number c))
        (record {
          waiting = a.state ∙ w.waiting;
          declared = a.total ∙ w.declared;
          holds = ap₂ take a.received a.buf ∙ grown;
          number = omega (arith, a.number, w.number);
        })

  joined-message :
      length (extended total payload bytes dlc) ≡ total
      → ((frame rx (some bytes) dlc).0 ≡ Event.message)
        × (held (frame rx (some bytes) dlc).1 ≡ extended total payload bytes dlc)
  joined-message h =
      subst
        (λ (r : Event × Rx). (r.0 ≡ Event.message) × (held r.1 ≡ extended total payload bytes dlc))
        (sym (
          frame-in_sequence rx bytes dlc k w.waiting w.number c
          ∙ in_sequence-last rx bytes dlc v c.0 c.1 (omega (arith, length-grown, w.declared))))
        (refl, grown)

-- A frame that is ignored leaves the receiver waiting.
passed-Waits :
    (total k : ℕ) (payload : List ℕ) (rx : Rx) (f : CanFrame)
    → Waits total k payload rx
    → Ignored f
    → Waits total k payload (frame rx f.0 f.1).1
passed-Waits total k payload rx f w h =
    let (quiet, u) = frame-Ignored rx f h in
    record {
      waiting = u.state ∙ w.waiting;
      declared = u.total ∙ w.declared;
      holds = ap₂ take u.received u.buf ∙ w.holds;
      number = u.number ∙ w.number;
    }

module _ (limit bs st : ℕ) where
  abbrev last_limit : ℕ
  last_limit = min limit max_payload

  partial-Waits :
      {total k : ℕ} {payload : List ℕ} {seen : List CanFrame}
      → Partial last_limit total seen k payload
      → AllSized seen
      → length payload < total
      → Waits total k payload (after (init limit bs st) seen)
  partial-Waits {total} (Partial.opened {bytes} {before} p q low fits) sized more =
      let known = after-Knows limit bs st before sized.1 in
      opened-Waits last_limit total bytes (after (init limit bs st) before) known.valid
        known.limited sized.0 p q low fits
  partial-Waits {total} (Partial.added {bytes} {dlc} {k} {before} {payload} part part_more c) sized
        more =
      let known = after-Knows limit bs st before sized.1 in
      added-Waits total k bytes payload dlc (after (init limit bs st) before) known.valid
        (partial-Waits part sized.1 part_more) sized.0.0 c more
  partial-Waits {total} (Partial.passed {f} {k} {before} {payload} part part_more ign) sized more =
      passed-Waits total k payload (after (init limit bs st) before) f
        (partial-Waits part sized.1 part_more) ign

  -- What the last frame made the receiver report.
  abbrev Delivers : List CanFrame → List ℕ → Type 0
  Delivers seen payload =
      (last_event (init limit bs st) seen ≡ Event.message)
      × (held (after (init limit bs st) seen) ≡ payload)

  spelled :
      {seen : List CanFrame} {payload : List ℕ}
      → AllSized seen
      → Spells last_limit seen payload
      → Delivers seen payload
  spelled sized (Spells.single {bytes} {n} {dlc} {before} p (low, high, fits) room) =
      let known = after-Knows limit bs st before sized.1 in
      let rx = after (init limit bs st) before in
      let eq =
        frame-single rx bytes dlc (omega arith) room.1 (omega arith)
        ∙ single-ok rx bytes dlc n p (low, high, omega (arith, known.limited)) room in
      (
        ap (λ (r : Event × Rx). r.0) eq,
        ap (λ (r : Event × Rx). held r.1) eq
            ∙ copied n rx.buf (drop 1 bytes) (omega (arith, known.valid.sized))
                (omega (arith, length-drop 1 bytes, sized.0.0)),
      )
  spelled sized
        (Spells.joined {total} {bytes} {dlc} {k} {before} {payload} part part_more c whole) =
      let known = after-Knows limit bs st before sized.1 in
      joined-message total k bytes payload dlc (after (init limit bs st) before) known.valid
        (partial-Waits part sized.1 part_more) sized.0.0 c whole

  delivered :
      (seen : List CanFrame) (payload : List ℕ)
      → AllSized seen
      → Delivers seen payload
      → Spells last_limit seen payload
  delivered [] payload sized (e, h) = absurd cc
  delivered (f ∷ before) payload sized (e, h) =
      let known = after-Knows limit bs st before sized.1 in
      subst (Spells last_limit (f ∷ before)) h ((frame-Follows known f sized.0).done e)

  -- After `isotp_rx_init`, for any frames received whose data are as long as their DLC says, the
  -- latest first: the receiver reports a message at the latest frame and holds `payload` exactly when
  -- the frames end in `payload`: a single frame, or a first frame and its consecutive frames in
  -- order up to the declared length, with only frames that are ignored between them, within the limit.
  pub delivered-Spells :
      (seen : List CanFrame) (payload : List ℕ)
      → AllSized seen
      → ((last_event (init limit bs st) seen ≡ Event.message)
          × (held (after (init limit bs st) seen) ≡ payload))
        ↔ Spells (min limit max_payload) seen payload
  delivered-Spells seen payload sized = (delivered seen payload sized, spelled sized)
