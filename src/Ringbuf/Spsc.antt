-- ===== src/Ringbuf/Spsc.antt =====
-- ringbuf.h under preemption: `rb_put` in one context and `rb_get` in another, one access to shared
-- memory at a time, in any order. The fences keep each side's accesses in program order, and an
-- aligned 32-bit access is indivisible.
pub mod Inv
pub mod Safety
use embedded_systems_resourc.Base.{
  ℕ, ◌+◌, ◌≡◌, ◌≢◌, Bool, true, false, List, [], ◌∷◌, ◌++◌, leb, u32, sub32, set, get_or, length,
}
use embedded_systems_resourc.Ringbuf.{Ringbuf, capacity, slot, init}

-- Where `rb_put b` stands, with its local `head`.
pub data Producer : Type 0 where
  idle : Producer
  loaded : (b head : ℕ) → Producer  -- has read `rb->head`
  passed : (b head : ℕ) → Producer  -- has read `rb->tail` and found room
  stored : (b head : ℕ) → Producer  -- has written the byte, not yet the index

-- Where `rb_get` stands, with its local `tail`.
pub data Consumer : Type 0 where
  idle : Consumer
  loaded : (tail : ℕ) → Consumer  -- has read `rb->tail`
  passed : (tail : ℕ) → Consumer  -- has read `rb->head` and found a byte
  took : (tail x : ℕ) → Consumer  -- has read the byte, not yet written the index

-- `sent` and `received` record the bytes that were published and released; no step reads them.
pub record System : Type 0 where
  pub rb : Ringbuf
  pub producer : Producer
  pub consumer : Consumer
  pub sent : List ℕ
  pub received : List ℕ

pub data Step (s : System) : System → Type 0 where
  put_load :
      (b : ℕ)
      → s.producer ≡ Producer.idle
      → Step s (record s { producer = Producer.loaded b s.rb.head })
  put_drop :
      {b head : ℕ}
      → s.producer ≡ Producer.loaded b head
      → leb capacity (sub32 head s.rb.tail) ≡ true
      → Step s (record s { producer = Producer.idle })
  put_pass :
      {b head : ℕ}
      → s.producer ≡ Producer.loaded b head
      → leb capacity (sub32 head s.rb.tail) ≡ false
      → Step s (record s { producer = Producer.passed b head })
  put_store :
      {b head : ℕ}
      → s.producer ≡ Producer.passed b head
      → Step s (record s {
        rb = record { buf = set s.rb.buf (slot head) b; head = s.rb.head; tail = s.rb.tail };
        producer = Producer.stored b head;
      })
  put_publish :
      {b head : ℕ}
      → s.producer ≡ Producer.stored b head
      → Step s (record s {
        rb = record { buf = s.rb.buf; head = u32 (head + 1); tail = s.rb.tail };
        producer = Producer.idle;
        sent = s.sent ++ (b ∷ []);
      })
  get_load : s.consumer ≡ Consumer.idle → Step s (record s { consumer = Consumer.loaded s.rb.tail })
  get_empty :
      {tail : ℕ}
      → s.consumer ≡ Consumer.loaded tail
      → s.rb.head ≡ tail
      → Step s (record s { consumer = Consumer.idle })
  get_pass :
      {tail : ℕ}
      → s.consumer ≡ Consumer.loaded tail
      → s.rb.head ≢ tail
      → Step s (record s { consumer = Consumer.passed tail })
  get_take :
      {tail : ℕ}
      → s.consumer ≡ Consumer.passed tail
      → Step s (record s { consumer = Consumer.took tail (get_or s.rb.buf (slot tail) 0) })
  get_release :
      {tail x : ℕ}
      → s.consumer ≡ Consumer.took tail x
      → Step s (record s {
        rb = record { buf = s.rb.buf; head = s.rb.head; tail = u32 (tail + 1) };
        consumer = Consumer.idle;
        received = s.received ++ (x ∷ []);
      })

-- After `rb_init`, before either side runs.
abbrev pub boot : Ringbuf → System
boot rb = record {
  rb = init rb;
  producer = Producer.idle;
  consumer = Consumer.idle;
  sent = [];
  received = [];
}

pub data Reach (rb : Ringbuf) : System → Type 0 where
  start : Reach rb (boot rb)
  later : {s t : System} → Reach rb s → Step s t → Reach rb t
