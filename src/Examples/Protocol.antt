-- ===== src/Examples/Protocol.antt =====
-- code/qemu-cortex-m/06-protocol-state-machine/main.c: the frame parser behind an interrupt handler, and
-- the self test. `crc_of` and `inject_frame` stand in Frame.Wire. The bytes that arrive are an
-- argument; what is printed is the list of bytes handed to uart_putc.
pub mod Report
pub mod Drain
mod Tests
use embedded_systems_resourc.Base.{
  ℕ, zero, suc, ◌+◌, Bool, true, false, ◌&&◌, Option, none, some, List, [], ◌∷◌, ◌++◌, ◌==◌,
  if◌then◌else◌, u8, u32, codes, get_or, write_of, ◌<<<◌,
}
use Prim.Native.String.{String}
use embedded_systems_resourc.Board.{Accesses, uart0_im, nvic_iser0, irq_uart0, receive_interrupts}
use embedded_systems_resourc.Uart.{puts, put_u32, put_hex8}
use embedded_systems_resourc.Base.{printed}
use embedded_systems_resourc.Frame.{State, Event, Parser, feed, reset, stx_byte, max_payload}
use embedded_systems_resourc.Frame.Wire.{inject_frame}

-- The loop of `print_payload` from index `i`, with the bytes left.
unfoldable pub payload_bytes : List ℕ → ℕ → ℕ → List ℕ
payload_bytes payload i zero = []
payload_bytes payload i (suc left) =
    puts (codes " ") ++ (put_hex8 (get_or payload i 0) ++ payload_bytes payload (u8 (i + 1)) left)

-- `print_payload`
unfoldable pub print_payload : Parser → List ℕ
print_payload p = printed (
    puts (codes "  payload [")
    ∷ put_u32 p.length
    ∷ puts (codes "] =")
    ∷ payload_bytes p.payload 0 p.length
    ∷ puts (codes "\n")
    ∷ [])

-- The `switch` of `handle`.
unfoldable pub message : Event → Parser → List ℕ
message Event.none p = []
message Event.complete p = puts (codes "FRAME OK\n") ++ print_payload p
message Event.err_length p = puts (
    codes "REJECTED: length field exceeds buffer "
    ++ codes "(this is the overflow that did not happen)\n")
message Event.err_crc p = puts (codes "REJECTED: CRC mismatch\n")
message Event.err_framing p = puts (codes "REJECTED: missing ETX\n")

-- `handle`
unfoldable pub handle : Parser → ℕ → Parser × List ℕ
handle p byte = let (ev, q) = feed p byte in (q, message ev q)

-- A `handle` for each byte.
unfoldable pub handle_all : Parser → List ℕ → Parser × List ℕ
handle_all p [] = (p, [])
handle_all p (x ∷ xs) =
    let (q, text) = handle p x in let (r, more) = handle_all q xs in (r, text ++ more)

-- The loop of `UART0_Handler`, with the rounds left: the hardware's receive queue, and the bytes that
-- come in during each round, of which those not yet in are returned.
unfoldable pub drain :
    ℕ → List ℕ → List (List ℕ) → Parser → Option (Parser × List ℕ × List (List ℕ))
drain zero fifo arriving p = none
drain (suc fuel) [] arriving p = some (p, [], arriving)
drain (suc fuel) (b ∷ fifo) [] p =
    let (q, text) = handle p (u8 b) in
    elim (drain fuel fifo [] q) [
      | none ↦ none
      | some (r, more, left) ↦ some (r, text ++ more, left)
    ]
drain (suc fuel) (b ∷ fifo) (batch ∷ arriving) p =
    let (q, text) = handle p (u8 b) in
    elim (drain fuel (fifo ++ batch) arriving q) [
      | none ↦ none
      | some (r, more, left) ↦ some (r, text ++ more, left)
    ]

-- Text, then the bytes of one call.
abbrev say : String → Parser × List ℕ → Parser × List ℕ
say text r = (r.0, r.1 ++ puts (codes text))

abbrev on : Parser × List ℕ → List ℕ → Parser × List ℕ
on r bytes = let (q, text) = handle_all r.0 bytes in (q, r.1 ++ text)

abbrev counter : String → ℕ → Parser × List ℕ → Parser × List ℕ
counter name v r = (r.0, r.1 ++ (puts (codes name) ++ (put_u32 v ++ puts (codes "\n"))))

abbrev good : List ℕ
good = 0xde ∷ 0xad ∷ 0xbe ∷ 0xef ∷ []

-- `main` up to the counters.
unfoldable pub injected : Parser → Parser × List ℕ
injected p =
    let r0 =
      say "wire format: STX | LEN | PAYLOAD | CRC16_LO | CRC16_HI | ETX\n\n"
        (say "\n=== framed protocol state machine ===\n" (reset p, [])) in
    let r1 = on (say "1. a well-formed frame\n" r0) (inject_frame good 4 false) in
    let r2 =
      on (say "\n2. same frame, one bit flipped in the payload\n" r1) (inject_frame good 4 true) in
    let r3 =
      on (say "\n3. a frame claiming a payload longer than the buffer\n" r2)
        (stx_byte ∷ u8 (max_payload + 1) ∷ []) in
    let r4 =
      on (say "\n4. line noise, then a good frame (resynchronisation)\n" r3)
        (0x55 ∷ 0x55 ∷ 0x55 ∷ 0x55 ∷ 0x55 ∷ []) in
    on r4 (inject_frame good 4 false)

-- `ok` in `main`.
unfoldable pub ok : Parser → Bool
ok p =
    (p.frames_ok == 2)
    && ((p.err_crc == 1)
        && ((p.err_length == 1) && ((p.err_framing == 0) && (p.bytes_discarded == 6))))

-- `main` after `uart_init`: what it prints, the status that it exits with, and the accesses of registers.
unfoldable pub main : Parser → Accesses → List ℕ × ℕ × Accesses
main start h =
    let r = injected start in
    let p = r.0 in
    let counters = counter "bytes_discarded = " p.bytes_discarded (
      counter "err_framing     = " p.err_framing (
        counter "err_length      = " p.err_length (
          counter "err_crc         = " p.err_crc
            (counter "frames_ok       = " p.frames_ok (say "\n--- counters ---\n" r))))) in
    let told = say (if ok p then "\nself-test PASSED\n" else "\nself-test FAILED\n") counters in
    (
      (say "\nNow interactive - send framed bytes over the UART.\n" told).1,
      if ok p then 0 else 1,
      write_of nvic_iser0 (1 <<< irq_uart0) ∷ write_of uart0_im receive_interrupts ∷ h,
    )
