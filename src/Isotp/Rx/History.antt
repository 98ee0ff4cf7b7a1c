-- ===== src/Isotp/Rx/History.antt =====
-- isotp_rx_frame over a history of frames, the latest first.
use embedded_systems_resourc.Base.{
  ℕ, ◌≤◌, refl, sym, subst, inl, inr, none, some, List, [], ◌∷◌, arith, min, dec_lt, ℕ_discrete,
}
use embedded_systems_resourc.Isotp.{Event, max_payload}
use embedded_systems_resourc.Isotp.Rx.{Rx, init, frame}
use embedded_systems_resourc.Isotp.Rx.Inv.{init-IsValid, frame-IsValid}
use embedded_systems_resourc.Isotp.Rx.Spells.{CanFrame, Sized, AllSized, pci_byte}
use embedded_systems_resourc.Isotp.Rx.Kinds.{frame-single, frame-first, frame-consecutive}
use embedded_systems_resourc.Isotp.Rx.Held.{Knows, Follows}
use embedded_systems_resourc.Isotp.Rx.Sound.{
  Ignored-Follows, single-Follows, first-Follows, consecutive-Follows,
}

module _ {limit : ℕ} {rx : Rx} {before : List CanFrame} (k : Knows limit rx before) where
  by_type :
      (bytes : List ℕ) (dlc : ℕ)
      → Sized (some bytes, dlc)
      → 1 ≤ dlc
      → dlc ≤ 8
      → Follows limit (frame rx (some bytes) dlc) ((some bytes, dlc) ∷ before)
  by_type bytes dlc sized some_byte few =
      let b : ℕ = pci_byte bytes in
      let P : Event × Rx → Type 0 = λ r. Follows limit r ((some bytes, dlc) ∷ before) in
      elim (dec_lt b 16) [
        | yes sf ↦
            subst P (sym (frame-single rx bytes dlc some_byte few sf))
              (single-Follows k bytes dlc sized few sf)
        | no not_sf ↦ elim (dec_lt b 32) [
          | yes ff ↦
              subst P (sym (frame-first rx bytes dlc some_byte few (omega arith) ff))
                (first-Follows k bytes dlc sized few (omega arith) ff)
          | no not_ff ↦ elim (dec_lt b 48) [
            | yes cf ↦
                subst P (sym (frame-consecutive rx bytes dlc some_byte few (omega arith) cf)) (
                  consecutive-Follows k bytes dlc sized some_byte few (omega arith) cf rx.state
                    refl)
            | no other ↦ Ignored-Follows k (some bytes, dlc) (inr (inr (omega arith)))
          ]
        ]
      ]

  pub frame-Follows : (f : CanFrame) → Sized f → Follows limit (frame rx f.0 f.1) (f ∷ before)
  frame-Follows (none, dlc) sized = Ignored-Follows k (none, dlc) tt
  frame-Follows (some bytes, dlc) sized = elim (ℕ_discrete dlc 0) [
    | yes zero_dlc ↦ Ignored-Follows k (some bytes, dlc) (inl zero_dlc)
    | no some_byte ↦ elim (dec_lt 8 dlc) [
      | yes long ↦ Ignored-Follows k (some bytes, dlc) (inr (inl long))
      | no few ↦ by_type bytes dlc sized (omega arith) (omega arith)
    ]
  ]

-- The receiver after the frames that it has seen, the latest first.
abbrev pub after : Rx → List CanFrame → Rx
after rx [] = rx
after rx (f ∷ before) = (frame (after rx before) f.0 f.1).1

-- What the latest frame made it report.
abbrev pub last_event : Rx → List CanFrame → Event
last_event rx [] = Event.none
last_event rx (f ∷ before) = (frame (after rx before) f.0 f.1).0

pub after-Knows :
    (limit bs st : ℕ) (seen : List CanFrame)
    → AllSized seen
    → Knows (min limit max_payload) (after (init limit bs st) seen) seen
unfolding init
after-Knows limit bs st [] sized = record {
  valid = init-IsValid limit bs st;
  limited = ground arith;
  trace = λ w. absurd cc;
}
after-Knows limit bs st (f ∷ before) sized =
    let k = after-Knows limit bs st before sized.1 in
    let next = frame-Follows k f sized.0 in
    record {
      valid = frame-IsValid (after (init limit bs st) before) f.0 f.1 k.valid;
      limited = next.limited;
      trace = next.trace;
    }
