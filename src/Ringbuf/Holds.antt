-- ===== src/Ringbuf/Holds.antt =====
-- Which queue a ring buffer holds, across the wrap of its indices at 2^32.
use embedded_systems_resourc.Base.{
  ℕ, suc, ◌+◌, ◌%◌, ◌^◌, ◌≤◌, ◌<◌, ◌≡◌, sym, List, [], ◌∷◌, ◌++◌, arith, length, get_or,
  length-append, length-set, get_or-append_left, get_or-snoc, bit_and_mask, get_or-set_self,
  get_or-set_ne, u32, set, dec_lt, ◌∙◌, ap,
}
use embedded_systems_resourc.Ringbuf.{Ringbuf, capacity, slot, init, count}

pub record Holds (rb : Ringbuf) (q : List ℕ) : Type 0 where
  pub sized : length rb.buf ≡ capacity
  pub head_word : rb.head < 2 ^ 32
  pub tail_word : rb.tail < 2 ^ 32
  pub head_at : rb.head ≡ u32 (rb.tail + length q)
  pub bounded : length q ≤ capacity
  pub slots : (i : ℕ) → i < length q → get_or rb.buf ((rb.tail + i) % 64) 0 ≡ get_or q i 0

pub slot-eq-mod : (i : ℕ) → slot i ≡ i % 64
slot-eq-mod i = bit_and_mask 6 i

-- `rb_init` gives an empty queue, whatever the buffer held.
pub init-Holds : (rb : Ringbuf) → length rb.buf ≡ capacity → Holds (init rb) []
unfolding init
init-Holds rb h = record {
  sized = h;
  head_word = omega arith;
  tail_word = omega arith;
  head_at = omega arith;
  bounded = omega arith;
  slots = λ i lt. absurd (omega arith);
}

-- The unsigned difference of the indices is the length of the queue.
pub count-eq-length : {rb : Ringbuf} {q : List ℕ} → Holds rb q → count rb ≡ length q
unfolding count
count-eq-length h = omega arith

abbrev pub stored : Ringbuf → ℕ → Ringbuf
stored rb b = record rb { buf = set rb.buf (slot rb.head) b; head = u32 (rb.head + 1) }

-- A store at `head` leaves every queued byte alone, and adds one behind them.
stored_slots :
    {rb : Ringbuf} {q : List ℕ} (b : ℕ)
    → Holds rb q
    → length q < capacity
    → (i : ℕ) → i < length q + 1
    → get_or (set rb.buf (slot rb.head) b) ((rb.tail + i) % 64) 0 ≡ get_or (q ++ (b ∷ [])) i 0
stored_slots {rb} {q} b h room i lt = elim (dec_lt i (length q)) [
  | yes old ↦
      get_or-set_ne rb.buf (slot rb.head) ((rb.tail + i) % 64) b 0
        (omega (arith, slot-eq-mod rb.head, h.head_at))
      ∙ h.slots i old
      ∙ sym (get_or-append_left q (b ∷ []) i 0 old)
  | no new ↦
      let at : (rb.tail + i) % 64 ≡ slot rb.head = omega (arith, slot-eq-mod rb.head, h.head_at) in
      let last : length q ≡ i = omega arith in
      rw at (
        get_or-set_self rb.buf (slot rb.head) b 0 (omega (arith, slot-eq-mod rb.head, h.sized))
        ∙ sym (get_or-snoc q b 0)
        ∙ ap (λ j. get_or (q ++ (b ∷ [])) j 0) last)
]

pub stored-Holds :
    {rb : Ringbuf} {q : List ℕ} (b : ℕ)
    → Holds rb q
    → length q < capacity
    → Holds (stored rb b) (q ++ (b ∷ []))
stored-Holds {rb} {q} b h room = record {
  sized = length-set rb.buf (slot rb.head) b ∙ h.sized;
  head_word = omega arith;
  tail_word = h.tail_word;
  head_at = omega (arith, h.head_at, length-append q (b ∷ []));
  bounded = omega (arith, length-append q (b ∷ []));
  slots = λ i lt. stored_slots b h room i (omega (arith, length-append q (b ∷ [])));
}

abbrev pub released : Ringbuf → Ringbuf
released rb = record rb { tail = u32 (rb.tail + 1) }

pub released-Holds : {rb : Ringbuf} {x : ℕ} {q : List ℕ} → Holds rb (x ∷ q) → Holds (released rb) q
released-Holds {rb} {x} {q} h = record {
  sized = h.sized;
  head_word = h.head_word;
  tail_word = omega arith;
  head_at = omega (arith, h.head_at);
  bounded = omega (arith, h.bounded);
  slots = λ i lt. ap (λ j. get_or rb.buf j 0) (omega arith) ∙ h.slots (suc i) (omega arith);
}
