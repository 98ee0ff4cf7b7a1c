-- ===== src/Ringbuf/Spsc/Inv.antt =====
-- The invariant of the two sides: free-running indices count the bytes published and released.
use embedded_systems_resourc.Base.{
  ℕ, ◌+◌, ◌%◌, ◌≤◌, ◌<◌, ◌≡◌, sym, ap, ◌∙◌, List, [], ◌∷◌, ◌++◌, arith, length, get_or, set,
  length-append, length-set, get_or-append_left, get_or-snoc, get_or-set_ne, u32, dec_lt,
}
use embedded_systems_resourc.Ringbuf.{Ringbuf, capacity, slot, init}
use embedded_systems_resourc.Ringbuf.Holds.{slot-eq-mod}
use embedded_systems_resourc.Ringbuf.Spsc.{Producer, Consumer, System, boot}

-- What shared memory says of the bytes sent and received.
pub record Agrees (rb : Ringbuf) (sent received : List ℕ) : Type 0 where
  pub sized : length rb.buf ≡ capacity
  pub head_at : rb.head ≡ u32 (length sent)
  pub tail_at : rb.tail ≡ u32 (length received)
  pub ordered : length received ≤ length sent
  pub bounded : length sent ≤ length received + capacity
  pub slots :
      (i : ℕ) → length received ≤ i → i < length sent → get_or rb.buf (i % 64) 0 ≡ get_or sent i 0
  pub same : (i : ℕ) → i < length received → get_or received i 0 ≡ get_or sent i 0

-- What the local variables of the two sides say.
abbrev pub ProducerKnows : Producer → System → Type 0
ProducerKnows Producer.idle s = Unit {0}
ProducerKnows (Producer.loaded b head) s = head ≡ s.rb.head
ProducerKnows (Producer.passed b head) s =
    (head ≡ s.rb.head) × (length s.sent < length s.received + capacity)
ProducerKnows (Producer.stored b head) s =
    (head ≡ s.rb.head)
    × (length s.sent < length s.received + capacity)
    × (get_or s.rb.buf (length s.sent % 64) 0 ≡ b)

abbrev pub ConsumerKnows : Consumer → System → Type 0
ConsumerKnows Consumer.idle s = Unit {0}
ConsumerKnows (Consumer.loaded tail) s = tail ≡ s.rb.tail
ConsumerKnows (Consumer.passed tail) s = (tail ≡ s.rb.tail) × (length s.received < length s.sent)
ConsumerKnows (Consumer.took tail x) s =
    (tail ≡ s.rb.tail)
    × (length s.received < length s.sent)
    × (x ≡ get_or s.sent (length s.received) 0)

pub record Inv (s : System) : Type 0 where
  pub agrees : Agrees s.rb s.sent s.received
  pub producer : ProducerKnows s.producer s
  pub consumer : ConsumerKnows s.consumer s

pub boot-Inv : (rb : Ringbuf) → length rb.buf ≡ capacity → Inv (boot rb)
unfolding init
boot-Inv rb h = record {
  agrees = record {
    sized = h;
    head_at = omega arith;
    tail_at = omega arith;
    ordered = omega arith;
    bounded = omega arith;
    slots = λ i p q. absurd (omega arith);
    same = λ i p. absurd (omega arith);
  };
  producer = tt;
  consumer = tt;
}

-- The three steps that write to shared memory.

pub store-Agrees :
    {rb : Ringbuf} {sent received : List ℕ} (b : ℕ)
    → Agrees rb sent received
    → length sent < length received + capacity
    → Agrees (record rb { buf = set rb.buf (slot rb.head) b }) sent received
store-Agrees {rb} {sent} {received} b a room = record {
  sized = length-set rb.buf (slot rb.head) b ∙ a.sized;
  head_at = a.head_at;
  tail_at = a.tail_at;
  ordered = a.ordered;
  bounded = a.bounded;
  slots = λ i p q.
      get_or-set_ne rb.buf (slot rb.head) (i % 64) b 0
        (omega (arith, slot-eq-mod rb.head, a.head_at))
      ∙ a.slots i p q;
  same = a.same;
}

publish_slots :
    {rb : Ringbuf} {sent received : List ℕ} (b : ℕ)
    → Agrees rb sent received
    → get_or rb.buf (length sent % 64) 0 ≡ b
    → (i : ℕ) → length received ≤ i
    → i < length sent + 1
    → get_or rb.buf (i % 64) 0 ≡ get_or (sent ++ (b ∷ [])) i 0
publish_slots {rb} {sent} b a written i p q = elim (dec_lt i (length sent)) [
  | yes old ↦ a.slots i p old ∙ sym (get_or-append_left sent (b ∷ []) i 0 old)
  | no new ↦
      let last : length sent ≡ i = omega arith in
      ap (λ j. get_or rb.buf (j % 64) 0) (sym last)
      ∙ written
      ∙ sym (get_or-snoc sent b 0)
      ∙ ap (λ j. get_or (sent ++ (b ∷ [])) j 0) last
]

pub publish-Agrees :
    {rb : Ringbuf} {sent received : List ℕ} (b : ℕ)
    → Agrees rb sent received
    → length sent < length received + capacity
    → get_or rb.buf (length sent % 64) 0 ≡ b
    → Agrees (record rb { head = u32 (rb.head + 1) }) (sent ++ (b ∷ [])) received
publish-Agrees {rb} {sent} {received} b a room written = record {
  sized = a.sized;
  head_at = omega (arith, a.head_at, length-append sent (b ∷ []));
  tail_at = a.tail_at;
  ordered = omega (arith, a.ordered, length-append sent (b ∷ []));
  bounded = omega (arith, length-append sent (b ∷ []));
  slots = λ i p q. publish_slots b a written i p (omega (arith, length-append sent (b ∷ [])));
  same = λ i p. a.same i p ∙ sym (get_or-append_left sent (b ∷ []) i 0 (omega (arith, a.ordered)));
}

release_same :
    {rb : Ringbuf} {sent received : List ℕ} (x : ℕ)
    → Agrees rb sent received
    → x ≡ get_or sent (length received) 0
    → (i : ℕ) → i < length received + 1
    → get_or (received ++ (x ∷ [])) i 0 ≡ get_or sent i 0
release_same {sent} {received} x a e i p = elim (dec_lt i (length received)) [
  | yes old ↦ get_or-append_left received (x ∷ []) i 0 old ∙ a.same i old
  | no new ↦
      let last : length received ≡ i = omega arith in
      ap (λ j. get_or (received ++ (x ∷ [])) j 0) (sym last)
      ∙ get_or-snoc received x 0
      ∙ e
      ∙ ap (λ j. get_or sent j 0) last
]

pub release-Agrees :
    {rb : Ringbuf} {sent received : List ℕ} (x : ℕ)
    → Agrees rb sent received
    → length received < length sent
    → x ≡ get_or sent (length received) 0
    → Agrees (record rb { tail = u32 (rb.tail + 1) }) sent (received ++ (x ∷ []))
release-Agrees {rb} {sent} {received} x a more e = record {
  sized = a.sized;
  head_at = a.head_at;
  tail_at = omega (arith, a.tail_at, length-append received (x ∷ []));
  ordered = omega (arith, length-append received (x ∷ []));
  bounded = omega (arith, a.bounded, length-append received (x ∷ []));
  slots = λ i p q. a.slots i (omega (arith, length-append received (x ∷ []))) q;
  same = λ i p. release_same x a e i (omega (arith, length-append received (x ∷ [])));
}
