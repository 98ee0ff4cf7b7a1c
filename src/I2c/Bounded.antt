-- ===== src/I2c/Bounded.antt =====
-- How many register accesses an I2C transfer can make.
use embedded_systems_resourc.Base.{
  ℕ, zero, suc, ◌+◌, ◌*◌, ◌^◌, ◌≤◌, Bool, Option, none, some, List, [], ◌∷◌, arith, length, ◌==◌,
  bit_and, bit_or, has, Bool-cases, inl, inr, read_of, write_of, Device, modify,
}
use embedded_systems_resourc.I2c.{
  Register, Accesses, Result, timeout_loops, cr1_stop, sr1_af, and_then, on_ok, wait, start, send,
  write, before_byte, receive, read, read_on, write_read, address,
}
use embedded_systems_resourc.I2c.Restart.{by_case, by_case'}

no_byte_more : (a b extra : ℕ) → a ≤ b + extra → a ≤ b + (200005 * 0 + extra)
no_byte_more a b extra h = omega arith

received_more :
    (a b c d n : ℕ)
    → b ≤ a + 4
    → c ≤ b + 200004
    → d ≤ suc c + (200009 * n + 2)
    → (c ≤ a + (200009 * suc n + 2)) × (d ≤ a + (200009 * suc n + 2))
received_more a b c d n p q r = (omega arith, omega arith)

sum_of : (a b c m n : ℕ) → b ≤ a + m → c ≤ b + n → c ≤ a + (m + n)
sum_of a b c m n p q = omega arith

one_byte_more :
    (a b n extra : ℕ)
    → a ≤ b + (200004 + (200005 * n + extra + 1))
    → a ≤ b + (200005 * suc n + extra)
one_byte_more a b n extra h = omega arith

one_access_more : (a b extra : ℕ) → a ≤ suc b + extra → a ≤ b + (extra + 1)
one_access_more a b extra h = omega arith

two_accesses_more : (a b extra : ℕ) → a ≤ suc (suc b) + extra → a ≤ b + (extra + 2)
two_accesses_more a b extra h = omega arith

module _ (hw : Device Register) where
  -- A history that is at most so much longer.
  abbrev Within : ℕ → Accesses → Accesses → Type 0
  Within extra h h' = length h' ≤ length h + extra

  wait-Within :
      (n : ℕ) (reg : Register) (cond : ℕ → Bool) (err : Result) (h : Accesses)
      → Within (2 * n + 4) h (wait hw n reg cond err h).1
  unfolding wait
  wait-Within zero reg cond err h = omega arith
  wait-Within (suc n) reg cond err h =
      let h1 = read_of reg ∷ h in
      let on = wait-Within n reg cond err (read_of Register.sr1 ∷ h1) in
      let P = λ (w : Option Result × Accesses). Within (2 * suc n + 4) h w.1 in
      by_case P (cond (hw h reg)) (λ t. omega arith)
        (by_case P (n == 0) (λ t. omega arith)
          (by_case' P (has sr1_af (hw h1 Register.sr1)) (omega (arith, on)) (omega arith)))

  and_then-Within :
      (w : Option Result × Accesses) (rest : Accesses → Result × Accesses) (extra : ℕ)
      → ((h1 : Accesses) → Within extra h1 (rest h1).1)
      → Within extra w.1 (and_then w rest).1
  and_then-Within (none, h) rest extra later = later h
  and_then-Within (some r, h) rest extra later = omega arith

  -- A wait of the driver, and the rest.
  wait_then :
      (reg : Register) (cond : ℕ → Bool) (err : Result) (h : Accesses)
      (rest : Accesses → Result × Accesses) (extra : ℕ)
      → ((h1 : Accesses) → Within extra h1 (rest h1).1)
      → Within (200004 + extra) h (and_then (wait hw timeout_loops reg cond err h) rest).1
  wait_then reg cond err h rest extra later = omega (
    arith,
    wait-Within timeout_loops reg cond err h,
    and_then-Within (wait hw timeout_loops reg cond err h) rest extra later,
  )

  on_ok-Within :
      (w : Result × Accesses) (rest : Accesses → Result × Accesses) (extra : ℕ)
      → ((h1 : Accesses) → Within extra h1 (rest h1).1)
      → Within extra w.1 (on_ok w rest).1
  on_ok-Within (Result.ok, h) rest extra later = later h
  on_ok-Within (Result.bus_busy, h) rest extra later = omega arith
  on_ok-Within (Result.timeout_start, h) rest extra later = omega arith
  on_ok-Within (Result.nack, h) rest extra later = omega arith
  on_ok-Within (Result.timeout_tx, h) rest extra later = omega arith
  on_ok-Within (Result.timeout_rx, h) rest extra later = omega arith
  on_ok-Within (Result.param, h) rest extra later = omega arith

  start-Within : (addr7 reading : ℕ) (h : Accesses) → Within 600017 h (start hw addr7 reading h).1
  unfolding start
  start-Within addr7 reading h =
      wait_then Register.sr2 (λ v. bit_and v 2 == 0) Result.bus_busy h from_start 400013
        (λ h1. two_accesses_more (length (from_start h1).1) (length h1) 400011 (
          wait_then Register.sr1 (has 1) Result.timeout_start (started h1) from_address 200007
            (λ h2. one_access_more (length (from_address h2).1) (length h2) 200006 (
              wait_then Register.sr1 (has 2) Result.nack (addressed h2) from_flags 2
                (λ h3. omega arith)))))
    where
      started : Accesses → Accesses
      started h1 = modify hw Register.cr1 (bit_or (2 ^ 10 + 2 ^ 8)) h1

      addressed : Accesses → Accesses
      addressed h2 = write_of Register.dr (address hw addr7 reading) ∷ h2

      from_flags : Accesses → Result × Accesses
      from_flags h3 = (Result.ok, read_of Register.sr2 ∷ read_of Register.sr1 ∷ h3)

      from_address : Accesses → Result × Accesses
      from_address h2 =
          and_then (wait hw timeout_loops Register.sr1 (has 2) Result.nack (addressed h2))
            from_flags

      from_start : Accesses → Result × Accesses
      from_start h1 =
          and_then (wait hw timeout_loops Register.sr1 (has 1) Result.timeout_start (started h1))
            from_address

  send-Within :
      (bytes : List ℕ) (rest : Accesses → Result × Accesses) (extra : ℕ) (h : Accesses)
      → ((h1 : Accesses) → Within extra h1 (rest h1).1)
      → Within (200005 * length bytes + extra) h (send hw bytes rest h).1
  unfolding send
  send-Within [] rest extra h later = no_byte_more (length (rest h).1) (length h) extra (later h)
  send-Within (b ∷ bytes) rest extra h later =
      let on : Accesses → Result × Accesses =
        λ h1. send hw bytes rest (write_of Register.dr b ∷ h1) in
      one_byte_more (length (send hw (b ∷ bytes) rest h).1) (length h) (length bytes) extra (
        wait_then Register.sr1 (has (2 ^ 7)) Result.timeout_tx h on
          (200005 * length bytes + extra + 1)
          (λ h1.
            one_access_more (length (on h1).1) (length h1) (200005 * length bytes + extra)
              (send-Within bytes rest extra (write_of Register.dr b ∷ h1) later)))

  before_byte-Within : (left : ℕ) (h : Accesses) → Within 4 h (before_byte hw left h)
  before_byte-Within left h = elim (Bool-cases (left == 0)) [
    | inl last ↦ rw last (omega arith)
    | inr others ↦ rw others (omega arith)
  ]

  -- Either outcome of the wait for a byte.
  outcome :
      (w : Option Result × Accesses) (r : Result) (x : ℕ) (more : List ℕ) (h2 : Accesses) (most : ℕ)
      → length w.1 ≤ most
      → length h2 ≤ most
      → (let all : Result × List ℕ × Accesses = elim w.0 [
        | some e ↦ (e, [], w.1)
        | none ↦ (r, x ∷ more, h2)
      ] in
          length all.2 ≤ most)
  outcome (none, h1) r x more h2 most p q = q
  outcome (some e, h1) r x more h2 most p q = p

  receive-Within : (len : ℕ) (h : Accesses) → Within (200009 * len + 2) h (receive hw len h).2
  unfolding receive
  receive-Within zero h = omega arith
  receive-Within (suc left) h =
      let h0 = before_byte hw left h in
      let w = wait hw timeout_loops Register.sr1 (has (2 ^ 6)) Result.timeout_rx h0 in
      let rest = receive hw left (read_of Register.dr ∷ w.1) in
      let (failing, going) =
        received_more (length h) (length h0) (length w.1) (length rest.2) left
          (before_byte-Within left h)
          (wait-Within timeout_loops Register.sr1 (has (2 ^ 6)) Result.timeout_rx h0)
          (receive-Within left (read_of Register.dr ∷ w.1)) in
      outcome w rest.0 (bit_and (hw w.1 Register.dr) 0xff) rest.1 rest.2
        (length h + (200009 * suc left + 2)) failing going

  -- Reading on from what `i2c_start` gave, and from what the first half of a combined transfer gave.
  read_on-Within :
      (w : Result × Accesses) (len : ℕ) → Within (200009 * len + 2) w.1 (read_on hw w len).2
  read_on-Within (Result.ok, h) len = receive-Within len h
  read_on-Within (Result.bus_busy, h) len = omega arith
  read_on-Within (Result.timeout_start, h) len = omega arith
  read_on-Within (Result.nack, h) len = omega arith
  read_on-Within (Result.timeout_tx, h) len = omega arith
  read_on-Within (Result.timeout_rx, h) len = omega arith
  read_on-Within (Result.param, h) len = omega arith

  read-Within :
      (addr7 len : ℕ) (h : Accesses)
      → Within (600017 + (200009 * len + 2)) h (read hw addr7 len h).2
  unfolding read
  read-Within addr7 len h =
      let r = start hw addr7 1 h in
      let on =
        sum_of (length h) (length r.1) (length (read_on hw r len).2) 600017 (200009 * len + 2)
          (start-Within addr7 1 h) (read_on-Within r len) in
      elim (Bool-cases (len == 0)) [
        | inl empty ↦ rw (read, empty) (omega arith)
        | inr filled ↦ rw (read, filled) on
      ]

  then_read-Within :
      (w : Result × Accesses) (addr7 len : ℕ)
      → (let all : Result × List ℕ × Accesses = elim w.0 [
        | Result.ok ↦ read hw addr7 len w.1
        | e ↦ (e, [], w.1)
      ] in
          Within (600017 + (200009 * len + 2)) w.1 all.2)
  then_read-Within (Result.ok, h) addr7 len = read-Within addr7 len h
  then_read-Within (Result.bus_busy, h) addr7 len = omega arith
  then_read-Within (Result.timeout_start, h) addr7 len = omega arith
  then_read-Within (Result.nack, h) addr7 len = omega arith
  then_read-Within (Result.timeout_tx, h) addr7 len = omega arith
  then_read-Within (Result.timeout_rx, h) addr7 len = omega arith
  then_read-Within (Result.param, h) addr7 len = omega arith

  -- The start, the bytes, and the rest.
  sending-Within :
      (addr7 : ℕ) (bytes : List ℕ) (rest : Accesses → Result × Accesses) (extra : ℕ) (h : Accesses)
      → ((h1 : Accesses) → Within extra h1 (rest h1).1)
      → Within
          (600017 + (200005 * length bytes + extra))
          h
          (on_ok (start hw addr7 0 h) (send hw bytes rest)).1
  sending-Within addr7 bytes rest extra h later =
      let r = start hw addr7 0 h in
      sum_of (length h) (length r.1) (length (on_ok r (send hw bytes rest)).1) 600017
        (200005 * length bytes + extra) (start-Within addr7 0 h)
        (on_ok-Within r (send hw bytes rest) (200005 * length bytes + extra)
          (λ h1. send-Within bytes rest extra h1 later))

-- No transfer hangs, whatever the peripheral does: each call returns after a number of register
-- accesses that is bounded by a multiple of its length, through the limits of its waits.
pub transfers_bounded :
    (hw : Device Register) (addr7 : ℕ) (tx : List ℕ) (rx_len : ℕ) (h : Accesses)
    → (length (write hw addr7 tx h).1 ≤ length h + (600017 + (200005 * length tx + 200006)))
      × (length (read hw addr7 rx_len h).2 ≤ length h + (600017 + (200009 * rx_len + 2)))
      × (length (write_read hw addr7 tx rx_len h).2
          ≤ length h + (600017 + (200005 * length tx + 200004) + (600017 + (200009 * rx_len + 2))))
unfolding write write_read
transfers_bounded hw addr7 tx rx_len h =
    let stop : Accesses → Result × Accesses =
      λ h2. (Result.ok, modify hw Register.cr1 (bit_or cr1_stop) h2) in
    let done : Accesses → Result × Accesses = λ h2. (Result.ok, h2) in
    let last = λ (f : Accesses → Result × Accesses) (h1 : Accesses).
      and_then (wait hw timeout_loops Register.sr1 (has 4) Result.timeout_tx h1) f in
    let half = on_ok (start hw addr7 0 h) (send hw tx (last done)) in
    (
      sending-Within hw addr7 tx (last stop) 200006 h
          (λ h1. wait_then hw Register.sr1 (has 4) Result.timeout_tx h1 stop 2 (λ h2. omega arith)),
      read-Within hw addr7 rx_len h,
      sum_of (length h) (length half.1) (length (write_read hw addr7 tx rx_len h).2)
          (600017 + (200005 * length tx + 200004)) (600017 + (200009 * rx_len + 2))
          (sending-Within hw addr7 tx (last done) 200004 h (λ h1.
            wait_then hw Register.sr1 (has 4) Result.timeout_tx h1 done 0 (λ h2. omega arith)))
          (then_read-Within hw half addr7 rx_len),
    )
