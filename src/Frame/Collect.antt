-- ===== src/Frame/Collect.antt =====
-- The payload state: what a run of payload bytes leaves in the parser.
use embedded_systems_resourc.Base.{
  ℕ, suc, ◌+◌, ◌≤◌, ◌<◌, ◌≡◌, refl, ap, ◌∙◌, List, [], ◌∷◌, ◌++◌, arith, length, memcpy, set,
  replicate, le→ltb_false, ◌==◌, if◌then◌else◌,
}
use embedded_systems_resourc.Crc
use embedded_systems_resourc.Crc.{update}
use embedded_systems_resourc.Crc.Detect.{absorb}
use embedded_systems_resourc.Frame.{
  State, Event, Parser, max_payload, stx_byte, feed, feed_in, feed_all, events,
}

pub feed_at : {st : State} (p : Parser) (byte : ℕ) → p.state ≡ st → feed p byte ≡ feed_in st p byte
unfolding feed
feed_at p byte e = ap (λ s. feed_in s p byte) e

pub feed_all-append :
    (xs ys : List ℕ) (p : Parser) → feed_all p (xs ++ ys) ≡ feed_all (feed_all p xs) ys
unfolding feed_all
feed_all-append [] ys p = refl
feed_all-append (x ∷ xs) ys p = feed_all-append xs ys (feed p x).1

pub events-append :
    (xs ys : List ℕ) (p : Parser) → events p (xs ++ ys) ≡ events p xs ++ events (feed_all p xs) ys
unfolding events feed_all
events-append [] ys p = refl
events-append (x ∷ xs) ys p = ap (◌∷◌ (feed p x).0) (events-append xs ys (feed p x).1)

-- The parser after the payload bytes `xs` that were still missing.
abbrev collected : Parser → List ℕ → Parser
collected p xs = record p {
  state = State.crc_lo;
  payload = memcpy p.payload p.index xs (length xs);
  index = p.index + length xs;
  crc_computed = absorb p.crc_computed xs;
}

-- One payload byte.
abbrev stored : Parser → ℕ → Parser
stored p x = record p {
  payload = set p.payload p.index x;
  index = suc p.index;
  crc_computed = update p.crc_computed x;
}

feed_payload_more :
    (p : Parser) (x : ℕ)
    → p.state ≡ State.payload
    → p.length ≤ max_payload
    → suc p.index < p.length
    → feed p x ≡ (Event.none, stored p x)
unfolding feed_in
feed_payload_more p x e h more = feed_at p x e ∙ ground arith

feed_payload_last :
    (p : Parser) (x : ℕ)
    → p.state ≡ State.payload
    → p.length ≤ max_payload
    → suc p.index ≡ p.length
    → feed p x ≡ (Event.none, record (stored p x) { state = State.crc_lo })
unfolding feed_in
feed_payload_last p x e h last = feed_at p x e ∙ ground arith

abbrev Collects : Parser → List ℕ → Type 0
Collects p xs = (feed_all p xs ≡ collected p xs) × (events p xs ≡ replicate (length xs) Event.none)

collect :
    (x : ℕ) (xs : List ℕ) (p : Parser)
    → p.state ≡ State.payload
    → p.length ≤ max_payload
    → p.index + suc (length xs) ≡ p.length
    → Collects p (x ∷ xs)
unfolding feed_all events memcpy absorb
collect x [] p e h n =
    let done = feed_payload_last p x e h (omega arith) in
    (
      ap (λ r. r.1) done
          ∙ ap (λ i. record (stored p x) { state = State.crc_lo; index = i }) (omega arith),
      ap (λ r. r.0 ∷ []) done,
    )
collect x (y ∷ ys) p e h n =
    let (after, quiet) = collect y ys (stored p x) e h (omega arith) in
    let more = feed_payload_more p x e h (omega arith) in
    (
      ap (λ r. feed_all r.1 (y ∷ ys)) more
          ∙ after
          ∙ ap (λ i. record (collected p (x ∷ y ∷ ys)) { index = i }) (omega arith),
      ap (λ r. r.0 ∷ events r.1 (y ∷ ys)) more ∙ ap (◌∷◌ Event.none) quiet,
    )

-- The parser once STX, the length byte and the payload `xs` have arrived.
abbrev pub loaded : Parser → List ℕ → Parser
loaded p xs = record p {
  state = State.crc_lo;
  payload = memcpy p.payload 0 xs (length xs);
  length = length xs;
  index = length xs;
  crc_computed = absorb (update Crc.init (length xs)) xs;
}

-- The parser after STX, and after the length byte `n`.
abbrev pub opened : Parser → Parser
opened p = record p { length = 0; index = 0; crc_computed = Crc.init; state = State.len }

abbrev pub measured : Parser → ℕ → Parser
measured p n = record (opened p) {
  length = n;
  crc_computed = update Crc.init n;
  state = if n == 0 then State.crc_lo else State.payload;
}

feed_stx : (p : Parser) → p.state ≡ State.idle → feed p stx_byte ≡ (Event.none, opened p)
unfolding feed_in
feed_stx p e = feed_at p stx_byte e

feed_length :
    (p : Parser) (n : ℕ) → n ≤ max_payload → feed (opened p) n ≡ (Event.none, measured p n)
unfolding feed_in
feed_length p n h = feed_at (opened p) n refl ∙ rw (le→ltb_false max_payload n h)

-- A parser that hunts for STX takes a whole header and payload without an event.
pub load :
    (p : Parser) (xs : List ℕ)
    → p.state ≡ State.idle
    → length xs ≤ max_payload
    → (feed_all p (stx_byte ∷ length xs ∷ xs) ≡ loaded p xs)
      × (events p (stx_byte ∷ length xs ∷ xs)
          ≡ Event.none ∷ Event.none ∷ replicate (length xs) Event.none)
unfolding feed_all events feed_in memcpy absorb
load p xs e h =
    let one = feed_stx p e in
    let two = feed_length p (length xs) h in
    let (after, quiet) = rest xs h in
    (
      ap (λ r. feed_all r.1 (length xs ∷ xs)) one ∙ ap (λ r. feed_all r.1 xs) two ∙ after,
      ap (λ r. r.0 ∷ events r.1 (length xs ∷ xs)) one
          ∙ ap (λ r. Event.none ∷ r.0 ∷ events r.1 xs) two
          ∙ ap (λ q. Event.none ∷ Event.none ∷ q) quiet,
    )
  where
    rest :
        (ys : List ℕ)
        → length ys ≤ max_payload
        → (feed_all (measured p (length ys)) ys ≡ loaded p ys)
          × (events (measured p (length ys)) ys ≡ replicate (length ys) Event.none)
    rest [] k = (refl, refl)
    rest (y ∷ ys) k =
        let (after, quiet) =
          collect y ys (measured p (suc (length ys))) (ground arith) k (omega arith) in
        (after ∙ ap (λ i. record (loaded p (y ∷ ys)) { index = i }) (omega arith), quiet)
