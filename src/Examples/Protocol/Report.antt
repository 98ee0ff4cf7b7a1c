-- ===== src/Examples/Protocol/Report.antt =====
-- What is printed when a whole frame has come in.
use embedded_systems_resourc.Base.{
  ℕ, zero, suc, ◌+◌, ◌≤◌, ◌≡◌, refl, sym, ap, ap₂, ◌∙◌, false, List, [], ◌∷◌, ◌++◌, append-nil, ◌<◌,
  ◌^◌, u8, length, length-take, take, drop, drop-cons, get_or, replicate, AllBytes, codes, arith,
}
use embedded_systems_resourc.Uart.{puts, put_u32, put_hex8}
use embedded_systems_resourc.Base.{printed}
use embedded_systems_resourc.Frame.{State, Event, Parser, max_payload, feed, feed_all, events}
use embedded_systems_resourc.Frame.Wire.{inject_frame}
use embedded_systems_resourc.Frame.Accept.{inject_frame_accepted}
use embedded_systems_resourc.Examples.Protocol.{
  message, handle, handle_all, print_payload, payload_bytes,
}

-- Events that are all FRAME_EV_NONE but the last.
data Ends (ev : Event) : List Event → Type 0 where
  last : Ends ev (ev ∷ [])
  after : {es : List Event} → Ends ev es → Ends ev (Event.none ∷ es)

replicate-Ends :
    {ev : Event} {es : List Event} (n : ℕ) → Ends ev es → Ends ev (replicate n Event.none ++ es)
replicate-Ends zero e = e
replicate-Ends (suc n) e = Ends.after (replicate-Ends n e)

handle_all-parser : (p : Parser) (xs : List ℕ) → (handle_all p xs).0 ≡ feed_all p xs
unfolding handle_all handle feed_all
handle_all-parser p [] = refl
handle_all-parser p (x ∷ xs) = handle_all-parser (feed p x).1 xs

-- Only the last event is reported.
report_last :
    {ev : Event} (p : Parser) (xs : List ℕ) {es : List Event}
    → Ends ev es
    → events p xs ≡ es
    → (handle_all p xs).1 ≡ message ev (feed_all p xs)
unfolding handle_all handle feed_all events message
report_last p [] Ends.last h = absurd cc
report_last p [] (Ends.after e) h = absurd cc
report_last p (x ∷ []) Ends.last h =
    let same : (feed p x).0 ≡ _ = cc in append-nil _ ∙ ap (λ v. message v (feed p x).1) same
report_last p (x ∷ y ∷ xs) Ends.last h = absurd cc
report_last p (x ∷ xs) (Ends.after e) h =
    let quiet : (feed p x).0 ≡ Event.none = cc in
    let rest : events (feed p x).1 xs ≡ _ = cc in
    ap (λ v. message v (feed p x).1 ++ (handle_all (feed p x).1 xs).1) quiet
    ∙ report_last (feed p x).1 xs e rest

-- A space and two hexadecimal digits for each byte.
abbrev pub hexes : List ℕ → List ℕ
hexes [] = []
hexes (x ∷ xs) = puts (codes " ") ++ (put_hex8 x ++ hexes xs)

-- The text for a payload.
abbrev pub payload_report : List ℕ → List ℕ
payload_report payload = printed (
    puts (codes "  payload [")
    ∷ put_u32 (length payload)
    ∷ puts (codes "] =")
    ∷ hexes payload
    ∷ puts (codes "\n")
    ∷ [])

payload_bytes-hexes :
    (xs : List ℕ) (i left : ℕ)
    → i + left < 2 ^ 8
    → i + left ≤ length xs
    → payload_bytes xs i left ≡ hexes (take left (drop i xs))
unfolding payload_bytes
payload_bytes-hexes xs i zero p q = refl
payload_bytes-hexes xs i (suc left) p q =
    let next : u8 (i + 1) ≡ suc i = omega arith in
    ap (λ j. puts (codes " ") ++ (put_hex8 (get_or xs i 0) ++ payload_bytes xs j left)) next
    ∙ ap (λ t. puts (codes " ") ++ (put_hex8 (get_or xs i 0) ++ t))
        (payload_bytes-hexes xs (suc i) left (omega arith) (omega arith))
    ∙ ap (λ l. hexes (take (suc left) l)) (sym (drop-cons xs i 0 (omega arith)))

print_payload-report :
    (q : Parser) (payload : List ℕ)
    → take q.length q.payload ≡ payload
    → q.length ≡ length payload
    → length payload ≤ max_payload
    → print_payload q ≡ payload_report payload
unfolding print_payload
print_payload-report q payload held long h =
    let within : q.length ≤ length q.payload =
      omega (arith, length-take q.length q.payload, ap length held) in
    ap₂
      (λ n t.
        printed (
          puts (codes "  payload [") ∷ put_u32 n ∷ puts (codes "] =") ∷ t ∷ puts (codes "\n") ∷ []))
      long (payload_bytes-hexes q.payload 0 q.length (omega arith) (omega arith) ∙ ap hexes held)

-- A frame sent by `inject_frame` to an idle parser prints exactly FRAME OK and, in decimal and
-- hexadecimal, the length and the bytes of the payload that was sent.
pub inject_frame-reported :
    (p : Parser) (payload : List ℕ)
    → p.state ≡ State.idle
    → length p.payload ≡ max_payload
    → AllBytes payload
    → length payload ≤ max_payload
    → (handle_all p (inject_frame payload (length payload) false)).1
      ≡ puts (codes "FRAME OK\n") ++ payload_report payload
unfolding message
inject_frame-reported p payload idle sized all h =
    let (only_last, held, long, _, _, _, _, _, _) =
      inject_frame_accepted p payload idle sized all h in
    report_last p (inject_frame payload (length payload) false)
      (Ends.after
        (Ends.after (replicate-Ends (length payload) (Ends.after (Ends.after Ends.last)))))
      only_last
    ∙ ap (λ t. puts (codes "FRAME OK\n") ++ t) (print_payload-report _ payload held long h)
