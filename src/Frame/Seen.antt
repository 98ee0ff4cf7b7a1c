-- ===== src/Frame/Seen.antt =====
-- What the frame parser has collected in each state.
use embedded_systems_resourc.Base.{
  ℕ, ◌/◌, ◌%◌, ◌≤◌, ◌<◌, ◌≡◌, ap, ◌∙◌, List, [], ◌∷◌, ◌++◌, length, take,
}
use mathlib.Core.List.{append_assoc}
use embedded_systems_resourc.Crc
use embedded_systems_resourc.Crc.{update}
use embedded_systems_resourc.Crc.Detect.{absorb}
use embedded_systems_resourc.Frame.{State, Event, Parser, max_payload, stx_byte}
use embedded_systems_resourc.Frame.Wire.{wire}

abbrev pub summed : ℕ → List ℕ → ℕ
summed n xs = absorb (update Crc.init n) xs

-- The input ends in STX, the length byte and the payload bytes stored so far.
pub record Holding (len crc : ℕ) (buf : List ℕ) (input : List ℕ) (n : ℕ) (rest : List ℕ)
    : Type 0 where
  pub before : List ℕ
  pub ends : input ≡ before ++ (stx_byte ∷ len ∷ (take n buf ++ rest))
  pub sum : crc ≡ summed len (take n buf)
  pub fits : len ≤ max_payload

abbrev pub Holds : Parser → List ℕ → ℕ → List ℕ → Type 0
Holds p = Holding p.length p.crc_computed p.payload

-- What each state remembers of the input so far.
abbrev pub Trace : State → Parser → List ℕ → Type 0
Trace State.idle p input = Unit {0}
Trace State.len p input =
    ((before : List ℕ) × (input ≡ before ++ (stx_byte ∷ [])))
    × (p.crc_computed ≡ Crc.init)
    × (p.index ≡ 0)
Trace State.payload p input = Holds p input p.index [] × (p.index < p.length)
Trace State.crc_lo p input = Holds p input p.length []
Trace State.crc_hi p input = Holds p input p.length (p.crc_received ∷ []) × (p.crc_received < 256)
Trace State.etx p input = Holds p input p.length (p.crc_computed % 256 ∷ p.crc_computed / 256 ∷ [])
Trace State.count p input = Unit {0}

-- A frame that was just completed.
abbrev pub Delivered : Parser → List ℕ → Type 0
Delivered p input =
    (before : List ℕ) × (input ≡ before ++ wire (take p.length p.payload))
    × (p.length ≤ max_payload)

pub record Follows (r : Event × Parser) (input : List ℕ) : Type 0 where
  pub sized : length r.1.payload ≡ max_payload
  pub trace : Trace r.1.state r.1 input
  pub done : r.0 ≡ Event.complete → Delivered r.1 input

-- One more input byte, behind what was seen.
pub snoc_ends :
    {input : List ℕ} (before : List ℕ) (a b : ℕ) (xs rest : List ℕ) (byte : ℕ)
    → input ≡ before ++ (a ∷ b ∷ (xs ++ rest))
    → input ++ (byte ∷ []) ≡ before ++ (a ∷ b ∷ (xs ++ (rest ++ (byte ∷ []))))
snoc_ends before a b xs rest byte e =
    ap (λ l. l ++ (byte ∷ [])) e
    ∙ append_assoc before (a ∷ b ∷ (xs ++ rest)) (byte ∷ [])
    ∙ ap (λ l. before ++ (a ∷ b ∷ l)) (append_assoc xs rest (byte ∷ []))
