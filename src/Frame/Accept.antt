-- ===== src/Frame/Accept.antt =====
-- What the parser does with a whole frame, sound or damaged.
use embedded_systems_resourc.Base.{
  ℕ, suc, ◌+◌, ◌/◌, ◌%◌, ◌^◌, ◌≤◌, ◌<◌, ◌≡◌, sym, ap, ap₂, ◌∙◌, ◌≢◌, List, [], ◌∷◌, ◌++◌, arith,
  length, take, take-length, take-memcpy, replicate, AllBytes, bit_or, u16, u32, ◌<<<◌, false,
  !=_self, ne→!=, take_congr, drop, set, get_or, split_at, set-split, set-append_left, length-set,
  AllBytes-get_or,
}
use embedded_systems_resourc.Crc
use embedded_systems_resourc.Crc.{update}
use embedded_systems_resourc.Crc.Inverse.{update-lt}
use embedded_systems_resourc.Crc.Detect.{absorb, absorb_detects}
use embedded_systems_resourc.Frame.{
  State, Event, Parser, max_payload, stx_byte, etx_byte, feed, feed_in, feed_all, events,
}
use embedded_systems_resourc.Frame.Collect.{feed_all-append, events-append, loaded, load}
use embedded_systems_resourc.Frame.Wire.{
  inject_frame, wire, checksum, checksum-lt, inject_frame-eq-wire, join_bytes,
}

-- The three bytes behind the payload, when the checksum matches.
abbrev closed : Parser → List ℕ → Parser
closed p xs = record (loaded p xs) {
  state = State.idle;
  crc_received = checksum xs;
  frames_ok = u32 (p.frames_ok + 1);
}

abbrev trailer : ℕ → List ℕ
trailer crc = crc % 256 ∷ crc / 256 ∷ etx_byte ∷ []

-- After the two checksum bytes of `crc`.
abbrev checked : Parser → List ℕ → ℕ → Parser
checked p xs crc = record (loaded p xs) { state = State.crc_hi; crc_received = crc % 256 }

-- The receiver reads back the checksum that was split into bytes.
rejoined : (crc : ℕ) → crc < 2 ^ 16 → bit_or (crc % 256) (u16 (u16 (crc / 256) <<< 8)) ≡ crc
rejoined crc h = join_bytes (crc % 256) (crc / 256) (omega arith) (omega arith) ∙ omega arith

feed_crc_match :
    (p : Parser) (xs : List ℕ)
    → feed (checked p xs (checksum xs)) (checksum xs / 256)
      ≡ (Event.none, record (loaded p xs) { state = State.etx; crc_received = checksum xs })
unfolding feed feed_in checksum
feed_crc_match p xs = rw (rejoined (checksum xs) (checksum-lt xs), !=_self (checksum xs))

feed_crc_mismatch :
    (p : Parser) (xs : List ℕ) (crc : ℕ)
    → crc < 2 ^ 16
    → crc ≢ checksum xs
    → feed (checked p xs crc) (crc / 256) ≡ (
      Event.err_crc,
      record (loaded p xs) {
        state = State.idle;
        crc_received = crc;
        err_crc = u32 (p.err_crc + 1);
      },
    )
unfolding feed feed_in checksum
feed_crc_mismatch p xs crc h ne = rw (rejoined crc h, ne→!= crc (checksum xs) ne)

trailer_match :
    (p : Parser) (xs : List ℕ)
    → (feed_all (loaded p xs) (trailer (checksum xs)) ≡ closed p xs)
      × (events (loaded p xs) (trailer (checksum xs))
          ≡ Event.none ∷ Event.none ∷ Event.complete ∷ [])
unfolding feed_all events feed feed_in
trailer_match p xs =
    let hi = feed_crc_match p xs in
    (ap (λ r. (feed r.1 etx_byte).1) hi, ap (λ r. Event.none ∷ r.0 ∷ (feed r.1 etx_byte).0 ∷ []) hi)

-- The parser after a frame whose checksum does not match: the ETX is dropped as noise.
abbrev refused : Parser → List ℕ → ℕ → Parser
refused p xs crc = record (loaded p xs) {
  state = State.idle;
  crc_received = crc;
  err_crc = u32 (p.err_crc + 1);
  bytes_discarded = u32 (p.bytes_discarded + 1);
}

trailer_mismatch :
    (p : Parser) (xs : List ℕ) (crc : ℕ)
    → crc < 2 ^ 16
    → crc ≢ checksum xs
    → (feed_all (loaded p xs) (trailer crc) ≡ refused p xs crc)
      × (events (loaded p xs) (trailer crc) ≡ Event.none ∷ Event.err_crc ∷ Event.none ∷ [])
unfolding feed_all events feed feed_in
trailer_mismatch p xs crc h ne =
    let hi = feed_crc_mismatch p xs crc h ne in
    (ap (λ r. (feed r.1 etx_byte).1) hi, ap (λ r. Event.none ∷ r.0 ∷ (feed r.1 etx_byte).0 ∷ []) hi)

-- A parser that hunts for STX, fed a frame with payload `xs` and the checksum bytes of `crc`.
deliver :
    (p q : Parser) (xs : List ℕ) (crc : ℕ) (last : List Event)
    → p.state ≡ State.idle
    → length xs ≤ max_payload
    → (feed_all (loaded p xs) (trailer crc) ≡ q) × (events (loaded p xs) (trailer crc) ≡ last)
    → (feed_all p (stx_byte ∷ length xs ∷ (xs ++ trailer crc)) ≡ q)
      × (events p (stx_byte ∷ length xs ∷ (xs ++ trailer crc))
          ≡ Event.none ∷ Event.none ∷ (replicate (length xs) Event.none ++ last))
deliver p q xs crc last e h t =
    let (after, quiet) = load p xs e h in
    (
      feed_all-append (stx_byte ∷ length xs ∷ xs) (trailer crc) p
          ∙ ap (λ r. feed_all r (trailer crc)) after
          ∙ t.0,
      events-append (stx_byte ∷ length xs ∷ xs) (trailer crc) p
          ∙ ap₂ (λ a r. a ++ events r (trailer crc)) quiet after
          ∙ ap (λ l. (Event.none ∷ Event.none ∷ replicate (length xs) Event.none) ++ l) t.1,
    )

-- A frame sent by `inject_frame` arrives: from any parser that hunts for STX the only event besides
-- FRAME_EV_NONE is FRAME_EV_COMPLETE, at the last byte; then the buffer begins with the payload,
-- `length` is its length, `frames_ok` has gone up by one and no other counter has changed.
pub inject_frame_accepted :
    (p : Parser) (payload : List ℕ)
    → p.state ≡ State.idle
    → length p.payload ≡ max_payload
    → AllBytes payload
    → length payload ≤ max_payload
    → let frame = inject_frame payload (length payload) false in
      let q = feed_all p frame in
      (events p frame
        ≡ Event.none
          ∷ Event.none
          ∷ (replicate (length payload) Event.none
              ++ (Event.none ∷ Event.none ∷ Event.complete ∷ [])))
      × (take q.length q.payload ≡ payload)
      × (q.length ≡ length payload)
      × (q.state ≡ State.idle)
      × (q.frames_ok ≡ u32 (p.frames_ok + 1))
      × (q.err_length ≡ p.err_length)
      × (q.err_crc ≡ p.err_crc)
      × (q.err_framing ≡ p.err_framing)
      × (q.bytes_discarded ≡ p.bytes_discarded)
unfolding wire
inject_frame_accepted p xs e sized all h =
    let (after, quiet) =
      deliver p (closed p xs) xs (checksum xs) (Event.none ∷ Event.none ∷ Event.complete ∷ []) e h
        (trailer_match p xs) in
    let sent = inject_frame-eq-wire xs all in
    let final : feed_all p (inject_frame xs (length xs) false) ≡ closed p xs =
      ap (feed_all p) sent ∙ after in
    let kept =
      take-memcpy (length xs) p.payload 0 xs (omega arith) (omega arith) ∙ take-length xs in
    (
      ap (events p) sent ∙ quiet,
      ap (λ r. take r.length r.payload) final
          ∙ take_congr (closed p xs).payload (length xs) (0 + length xs) (omega arith)
          ∙ kept,
      ap (λ r. r.length) final,
      ap (λ r. r.state) final,
      ap (λ r. r.frames_ok) final,
      ap (λ r. r.err_length) final,
      ap (λ r. r.err_crc) final,
      ap (λ r. r.err_framing) final,
      ap (λ r. r.bytes_discarded) final,
    )

checksum_detects :
    (xs : List ℕ) (i y : ℕ)
    → AllBytes xs
    → i < length xs
    → y < 256
    → y ≢ get_or xs i 0
    → checksum xs ≢ checksum (set xs i y)
unfolding checksum
checksum_detects xs i y all lt h ne e =
    absorb_detects (take i xs) (drop (suc i) xs) (get_or xs i 0) y start
      (update-lt Crc.init (length xs) (omega arith)) (AllBytes-get_or xs i all) h (λ q. ne (sym q))
      (sym (ap (absorb start) (split_at xs i 0 lt))
        ∙ e
        ∙ ap (λ n. absorb (update Crc.init n) (set xs i y)) (length-set xs i y)
        ∙ ap (absorb start) (set-split xs i y lt))
  where
    start : ℕ
    start = update Crc.init (length xs)

-- A frame in which one payload byte was changed on the way is refused: FRAME_EV_ERR_CRC comes at the
-- second checksum byte and FRAME_EV_COMPLETE never; `err_crc` goes up by one, the ETX is discarded
-- and counted, `frames_ok` stays, and the parser hunts for STX again.
pub damaged_frame_refused :
    (p : Parser) (payload : List ℕ) (i y : ℕ)
    → p.state ≡ State.idle
    → AllBytes payload
    → length payload ≤ max_payload
    → i < length payload
    → y < 256
    → y ≢ get_or payload i 0
    → let frame = set (wire payload) (suc (suc i)) y in
      let q = feed_all p frame in
      (events p frame
        ≡ Event.none
          ∷ Event.none
          ∷ (replicate (length payload) Event.none
              ++ (Event.none ∷ Event.err_crc ∷ Event.none ∷ [])))
      × (q.state ≡ State.idle)
      × (q.frames_ok ≡ p.frames_ok)
      × (q.err_crc ≡ u32 (p.err_crc + 1))
      × (q.bytes_discarded ≡ u32 (p.bytes_discarded + 1))
unfolding wire
damaged_frame_refused p xs i y e all h lt hy ne =
    let zs = set xs i y in
    let same : length zs ≡ length xs = length-set xs i y in
    let (after, quiet) =
      deliver p (refused p zs (checksum xs)) zs (checksum xs)
        (Event.none ∷ Event.err_crc ∷ Event.none ∷ []) e (omega arith)
        (trailer_mismatch p zs (checksum xs) (checksum-lt xs)
          (checksum_detects xs i y all lt hy ne)) in
    let sent : set (wire xs) (suc (suc i)) y
        ≡ stx_byte ∷ length zs ∷ (zs ++ trailer (checksum xs)) =
      ap (λ l. stx_byte ∷ length xs ∷ l) (set-append_left xs (trailer (checksum xs)) i y lt)
      ∙ ap (λ n. stx_byte ∷ n ∷ (zs ++ trailer (checksum xs))) (sym same) in
    let final = ap (feed_all p) sent ∙ after in
    (
      ap (events p) sent
          ∙ quiet
          ∙ ap
              (λ n.
                Event.none
                ∷ Event.none
                ∷ (replicate n Event.none ++ (Event.none ∷ Event.err_crc ∷ Event.none ∷ [])))
              same,
      ap (λ r. r.state) final,
      ap (λ r. r.frames_ok) final,
      ap (λ r. r.err_crc) final,
      ap (λ r. r.bytes_discarded) final,
    )
