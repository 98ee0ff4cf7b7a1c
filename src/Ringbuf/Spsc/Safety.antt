-- ===== src/Ringbuf/Spsc/Safety.antt =====
-- What no interleaving of the two sides can break.
use embedded_systems_resourc.Base.{
  ℕ, ◌+◌, ◌%◌, ◌≤◌, ◌<◌, ◌≡◌, refl, sym, ap, subst, ◌∙◌, ◌≢◌, List, [], ◌∷◌, ◌++◌, arith, length,
  get_or, set, length-append, get_or-append_left, get_or-set_self, u32, sub32, leb, false, take,
  drop, get_or_ext, get_or-take, take-append-drop, length-take, length-drop,
}
use embedded_systems_resourc.Ringbuf.{Ringbuf, capacity, slot}
use embedded_systems_resourc.Ringbuf.Holds.{slot-eq-mod}
use embedded_systems_resourc.Ringbuf.Spsc.{
  Producer, Consumer, System, Step, put_load, put_drop, put_pass, put_store, put_publish, get_load,
  get_empty, get_pass, get_take, get_release, Reach, start, later,
}
use embedded_systems_resourc.Ringbuf.Spsc.Inv.{
  Agrees, ProducerKnows, ConsumerKnows, Inv, boot-Inv, store-Agrees, publish-Agrees, release-Agrees,
}

-- A step of the other side leaves what a side knows true.
producer_frame :
    (s t : System) (p : Producer)
    → t.rb.head ≡ s.rb.head
    → t.rb.buf ≡ s.rb.buf
    → t.sent ≡ s.sent
    → length s.received ≤ length t.received
    → ProducerKnows p s
    → ProducerKnows p t
producer_frame s t Producer.idle eh eb es le k = tt
producer_frame s t (Producer.loaded b head) eh eb es le k = k ∙ sym eh
producer_frame s t (Producer.passed b head) eh eb es le k =
    (k.0 ∙ sym eh, rw es (omega (arith, k.1)))
producer_frame s t (Producer.stored b head) eh eb es le k =
    (k.0 ∙ sym eh, rw es (omega (arith, k.1)), rw (es, eb) k.2)

consumer_frame :
    (s t : System) (c : Consumer)
    → t.rb.tail ≡ s.rb.tail
    → t.received ≡ s.received
    → length s.sent ≤ length t.sent
    → ((i : ℕ) → i < length s.sent → get_or t.sent i 0 ≡ get_or s.sent i 0)
    → ConsumerKnows c s
    → ConsumerKnows c t
consumer_frame s t Consumer.idle et er le old k = tt
consumer_frame s t (Consumer.loaded tail) et er le old k = k ∙ sym et
consumer_frame s t (Consumer.passed tail) et er le old k =
    (k.0 ∙ sym et, rw er (omega (arith, k.1)))
consumer_frame s t (Consumer.took tail x) et er le old k =
    (k.0 ∙ sym et, rw er (omega (arith, k.1)), rw er (k.2 ∙ sym (old (length s.received) k.1)))

producer_at : {s : System} {p : Producer} → s.producer ≡ p → Inv s → ProducerKnows p s
producer_at {s} e v = subst (λ p. ProducerKnows p s) e v.producer

consumer_at : {s : System} {c : Consumer} → s.consumer ≡ c → Inv s → ConsumerKnows c s
consumer_at {s} e v = subst (λ c. ConsumerKnows c s) e v.consumer

-- The test of `rb_put` on a possibly stale `tail` finds room only where there is room.
room_found :
    {rb : Ringbuf} {sent received : List ℕ} (head : ℕ)
    → Agrees rb sent received
    → head ≡ rb.head
    → leb capacity (sub32 head rb.tail) ≡ false
    → length sent < length received + capacity
room_found head a e f = ground (arith, a.head_at, a.tail_at)

byte_found :
    {rb : Ringbuf} {sent received : List ℕ} (tail : ℕ)
    → Agrees rb sent received
    → tail ≡ rb.tail
    → rb.head ≢ tail
    → length received < length sent
byte_found tail a e f = omega (arith, a.head_at, a.tail_at, a.ordered)

slot-head :
    {rb : Ringbuf} {sent received : List ℕ}
    → Agrees rb sent received
    → slot rb.head ≡ length sent % 64
slot-head {rb} a = omega (arith, slot-eq-mod rb.head, a.head_at)

slot-tail :
    {rb : Ringbuf} {sent received : List ℕ}
    → Agrees rb sent received
    → slot rb.tail ≡ length received % 64
slot-tail {rb} a = omega (arith, slot-eq-mod rb.tail, a.tail_at)

-- Every step of either side keeps the invariant.
pub Step-Inv : {s t : System} → Step s t → Inv s → Inv t
Step-Inv {s} (put_load b e) v = record {
  agrees = v.agrees;
  producer = refl;
  consumer = consumer_frame s _ s.consumer refl refl (omega arith) (λ i lt. refl) v.consumer;
}
Step-Inv {s} (put_drop e f) v = record {
  agrees = v.agrees;
  producer = tt;
  consumer = consumer_frame s _ s.consumer refl refl (omega arith) (λ i lt. refl) v.consumer;
}
Step-Inv {s} (put_pass {b} {head} e f) v = record {
  agrees = v.agrees;
  producer = (producer_at e v, room_found head v.agrees (producer_at e v) f);
  consumer = consumer_frame s _ s.consumer refl refl (omega arith) (λ i lt. refl) v.consumer;
}
Step-Inv {s} (put_store {b} {head} e) v = record {
  agrees =
      subst (λ h. Agrees (record s.rb { buf = set s.rb.buf (slot h) b }) s.sent s.received)
        (sym (producer_at e v).0) (store-Agrees b v.agrees (producer_at e v).1);
  producer = ((producer_at e v).0, (producer_at e v).1, written);
  consumer = consumer_frame s _ s.consumer refl refl (omega arith) (λ i lt. refl) v.consumer;
}
  where
    at : slot head ≡ length s.sent % 64
    at = ap slot (producer_at e v).0 ∙ slot-head v.agrees

    written : get_or (set s.rb.buf (slot head) b) (length s.sent % 64) 0 ≡ b
    written =
        ap (λ j. get_or (set s.rb.buf (slot head) b) j 0) (sym at)
        ∙ get_or-set_self s.rb.buf (slot head) b 0 (omega (arith, at, v.agrees.sized))
Step-Inv {s} (put_publish {b} {head} e) v = record {
  agrees =
      subst (λ h. Agrees (record s.rb { head = u32 (h + 1) }) (s.sent ++ (b ∷ [])) s.received)
        (sym (producer_at e v).0)
        (publish-Agrees b v.agrees (producer_at e v).1 (producer_at e v).2);
  producer = tt;
  consumer =
      consumer_frame s _ s.consumer refl refl (omega (arith, length-append s.sent (b ∷ [])))
        (λ i lt. get_or-append_left s.sent (b ∷ []) i 0 lt) v.consumer;
}
Step-Inv {s} (get_load e) v = record {
  agrees = v.agrees;
  producer = producer_frame s _ s.producer refl refl refl (omega arith) v.producer;
  consumer = refl;
}
Step-Inv {s} (get_empty e f) v = record {
  agrees = v.agrees;
  producer = producer_frame s _ s.producer refl refl refl (omega arith) v.producer;
  consumer = tt;
}
Step-Inv {s} (get_pass {tail} e f) v = record {
  agrees = v.agrees;
  producer = producer_frame s _ s.producer refl refl refl (omega arith) v.producer;
  consumer = (consumer_at e v, byte_found tail v.agrees (consumer_at e v) f);
}
Step-Inv {s} (get_take {tail} e) v = record {
  agrees = v.agrees;
  producer = producer_frame s _ s.producer refl refl refl (omega arith) v.producer;
  consumer = ((consumer_at e v).0, (consumer_at e v).1, read);
}
  where
    read : get_or s.rb.buf (slot tail) 0 ≡ get_or s.sent (length s.received) 0
    read =
        ap (λ j. get_or s.rb.buf j 0) (ap slot (consumer_at e v).0 ∙ slot-tail v.agrees)
        ∙ v.agrees.slots (length s.received) (omega arith) (consumer_at e v).1
Step-Inv {s} (get_release {tail} {x} e) v = record {
  agrees =
      subst (λ t. Agrees (record s.rb { tail = u32 (t + 1) }) s.sent (s.received ++ (x ∷ [])))
        (sym (consumer_at e v).0)
        (release-Agrees x v.agrees (consumer_at e v).1 (consumer_at e v).2);
  producer =
      producer_frame s _ s.producer refl refl refl
        (omega (arith, length-append s.received (x ∷ []))) v.producer;
  consumer = tt;
}

pub Reach-Inv : {rb : Ringbuf} {s : System} → length rb.buf ≡ capacity → Reach rb s → Inv s
Reach-Inv {rb} h start = boot-Inv rb h
Reach-Inv h (later r st) = Step-Inv st (Reach-Inv h r)

-- Whatever the interleaving, the bytes that `rb_get` has handed over are a prefix of those that
-- `rb_put` has accepted, in order, and at most `capacity` accepted bytes are still to come.
pub spsc_fifo :
    {rb : Ringbuf} {s : System}
    → length rb.buf ≡ capacity
    → Reach rb s
    → (rest : List ℕ) × (s.sent ≡ s.received ++ rest) × (length rest ≤ capacity)
spsc_fifo {s} h r = (
  drop (length s.received) s.sent,
  sym (
      ap (λ p. p ++ drop (length s.received) s.sent) taken
      ∙ take-append-drop (length s.received) s.sent),
  omega (arith, a.bounded, length-drop (length s.received) s.sent),
)
  where
    a : Agrees s.rb s.sent s.received
    a = (Reach-Inv h r).agrees

    taken : s.received ≡ take (length s.received) s.sent
    taken =
        get_or_ext 0 s.received (take (length s.received) s.sent)
          (omega (arith, a.ordered, length-take (length s.received) s.sent))
          λ i lt. a.same i lt ∙ sym (get_or-take (length s.received) s.sent i 0 lt)

-- No access races: while one side is about to write a byte and the other is about to read one, they
-- use different slots.
pub spsc_no_race :
    {rb : Ringbuf} {s : System} {b head tail : ℕ}
    → length rb.buf ≡ capacity
    → Reach rb s
    → s.producer ≡ Producer.passed b head
    → s.consumer ≡ Consumer.passed tail
    → slot head ≢ slot tail
spsc_no_race {s} {head} {tail} h r ep ec =
    let v = Reach-Inv h r in
    omega (
      arith,
      producer_at ep v,
      consumer_at ec v,
      v.agrees.head_at,
      v.agrees.tail_at,
      slot-eq-mod head,
      slot-eq-mod tail,
    )
