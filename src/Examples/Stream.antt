-- ===== src/Examples/Stream.antt =====
-- code/qemu-cortex-m/04-spsc-ring-buffer/main.c: SysTick produces, as the receive interrupt
-- does, and the main loop consumes. A handler preempts the main loop between any two of its accesses
-- to the ring buffer, and runs to its end.
pub mod Text
pub mod Setup
pub mod Mirror
pub mod Order
pub mod Overrun
pub mod Finish
pub mod Keys
mod Tests
use embedded_systems_resourc.Base.{
  ℕ, zero, suc, Option, none, some, bit_and, ◌++◌, ◌+◌, ◌%◌, ◌≡◌, ◌≢◌, Bool, true, false, List, [],
  ◌∷◌, ltb, ◌!=◌, if◌then◌else◌, u8, u32, sub32, get_or,
}
use embedded_systems_resourc.Ringbuf
use embedded_systems_resourc.Ringbuf.{Ringbuf, slot}

-- Where `main` stands, with the local `tail` of `rb_get` in its loop, and what phase 2 has read.
pub data Main : Type 0 where
  top : Main
  counted : Main  -- has called `rb_count`
  loaded : (tail : ℕ) → Main  -- in `rb_get`: has read `rb->tail`
  passed : (tail : ℕ) → Main  -- has read `rb->head` and found a byte
  took : (tail b : ℕ) → Main  -- has read the byte
  noted : (drops_before : ℕ) → Main  -- phase 2: has read `g_dropped`
  stalled : (drops_before t0 : ℕ) → Main  -- has read `g_ticks`, and waits
  awake : (drops_before : ℕ) → Main  -- has waited
  measured : (drops_before depth : ℕ) → Main  -- has called `rb_count`
  reported : (depth lost : ℕ) → Main  -- has read `g_dropped` again
  finished : (depth lost : ℕ) → Main  -- has stopped SysTick

-- The globals, and the locals of `main`.
pub record App : Type 0 where
  pub rb : Ringbuf
  pub main : Main
  pub produced : ℕ
  pub dropped : ℕ
  pub ticks : ℕ
  pub consumed : ℕ
  pub errors : ℕ
  pub expected : ℕ
  pub high_water : ℕ

-- `SysTick_Handler`
unfoldable pub systick : App → App
unfolding Ringbuf.put
systick a =
    let byte = u8 (b'A' + a.produced % 26) in
    let (stored, rb) = Ringbuf.put a.rb byte in
    if stored
    then record a { ticks = u32 (a.ticks + 1); rb = rb; produced = u32 (a.produced + 1) }
    else record a { ticks = u32 (a.ticks + 1); dropped = u32 (a.dropped + 1) }

-- A byte that `UART0_Handler` reads from `UART0_DR`.
unfoldable pub rx_byte : App → ℕ → App
rx_byte a b =
    let (stored, rb) = Ringbuf.put a.rb (u8 (bit_and b 0xff)) in
    if stored then record a { rb = rb } else record a { dropped = u32 (a.dropped + 1) }

-- The loop of `UART0_Handler`, with the rounds left: the hardware's receive queue, and the bytes that
-- come in during each round, of which those not yet in are returned.
unfoldable pub uart0 : ℕ → List ℕ → List (List ℕ) → App → Option (App × List (List ℕ))
uart0 zero fifo arriving a = none
uart0 (suc fuel) [] arriving a = some (a, arriving)
uart0 (suc fuel) (b ∷ fifo) [] a = uart0 fuel fifo [] (rx_byte a b)
uart0 (suc fuel) (b ∷ fifo) (batch ∷ arriving) a = uart0 fuel (fifo ++ batch) arriving (rx_byte a b)

-- The rounds of the main loop.
abbrev pub rounds : ℕ
rounds = 260

-- What `main` does with a byte that `rb_get` has given it.
abbrev pub consume : App → ℕ → App
consume a b = record a {
  errors = if b != a.expected then u32 (a.errors + 1) else a.errors;
  expected = u8 (b'A' + u32 (a.consumed + 1) % 26);
  consumed = u32 (a.consumed + 1);
}

-- Whether SysTick runs.
abbrev pub ticking : Main → Bool
ticking (Main.finished depth lost) = false
ticking _ = true

-- The ticks that phase 2 waits for.
abbrev pub stall : ℕ
stall = 200

-- One of the two interrupts, whose handlers have the same priority, or the next access of `main`.
pub data Step (a : App) : App → Type 0 where
  tick : ticking a.main ≡ true → Step a (systick a)
  key :
      (fuel : ℕ) (fifo : List ℕ) (arriving left : List (List ℕ)) {b : App}
      → uart0 fuel fifo arriving a ≡ some (b, left)
      → Step a b
  look :
      a.main ≡ Main.top
      → ltb a.consumed rounds ≡ true
      → Step a (record a {
        high_water =
            let depth = Ringbuf.count a.rb in
            if ltb a.high_water depth then depth else a.high_water;
        main = Main.counted;
      })
  leave :
      a.main ≡ Main.top
      → ltb a.consumed rounds ≡ false
      → Step a (record a { main = Main.noted a.dropped })
  time :
      {drops_before : ℕ}
      → a.main ≡ Main.noted drops_before
      → Step a (record a { main = Main.stalled drops_before a.ticks })
  wake :
      {drops_before t0 : ℕ}
      → a.main ≡ Main.stalled drops_before t0
      → ltb (sub32 a.ticks t0) stall ≡ false
      → Step a (record a { main = Main.awake drops_before })
  measure :
      {drops_before : ℕ}
      → a.main ≡ Main.awake drops_before
      → Step a (record a { main = Main.measured drops_before (Ringbuf.count a.rb) })
  compare_drops :
      {drops_before depth : ℕ}
      → a.main ≡ Main.measured drops_before depth
      → Step a (record a { main = Main.reported depth (sub32 a.dropped drops_before) })
  stop :
      {depth lost : ℕ}
      → a.main ≡ Main.reported depth lost
      → Step a (record a { main = Main.finished depth lost })
  load : a.main ≡ Main.counted → Step a (record a { main = Main.loaded a.rb.tail })
  sleep :
      {tail : ℕ}
      → a.main ≡ Main.loaded tail
      → a.rb.head ≡ tail
      → Step a (record a { main = Main.top })
  pass :
      {tail : ℕ}
      → a.main ≡ Main.loaded tail
      → a.rb.head ≢ tail
      → Step a (record a { main = Main.passed tail })
  take :
      {tail : ℕ}
      → a.main ≡ Main.passed tail
      → Step a (record a { main = Main.took tail (get_or a.rb.buf (slot tail) 0) })
  release :
      {tail b : ℕ}
      → a.main ≡ Main.took tail b
      → Step a (record (consume a b) {
        rb = record { buf = a.rb.buf; head = a.rb.head; tail = u32 (tail + 1) };
        main = Main.top;
      })

-- After `rb_init`, the counters zero.
abbrev pub boot : Ringbuf → App
boot rb = record {
  rb = Ringbuf.init rb;
  main = Main.top;
  produced = 0;
  dropped = 0;
  ticks = 0;
  consumed = 0;
  errors = 0;
  expected = b'A';
  high_water = 0;
}

pub data Reach (rb : Ringbuf) : App → Type 0 where
  start : Reach rb (boot rb)
  later : {a b : App} → Reach rb a → Step a b → Reach rb b

-- How often the receive interrupt came.
unfoldable pub pressed : {a b : App} → Step a b → ℕ
pressed (key fuel fifo arriving left handled) = 1
pressed _ = 0

unfoldable pub keys : {rb : Ringbuf} {a : App} → Reach rb a → ℕ
keys start = 0
keys (later r st) = pressed st + keys r
