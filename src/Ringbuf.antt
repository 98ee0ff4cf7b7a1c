-- ===== src/Ringbuf.antt =====
-- code/portable/ringbuf/ringbuf.h: the byte ring buffer with free-running indices.
-- A function that writes through a pointer returns the new value beside its result.
pub mod Queue
pub mod Holds
pub mod Refine
pub mod Spsc
mod Tests
use embedded_systems_resourc.Base.{
  ℕ, ◌+◌, ◌-◌, bit_and, Bool, true, false, List, [], ◌∷◌, leb, ◌==◌, if◌then◌else◌, u32, sub32, set,
  get_or,
}

-- `RB_CAPACITY`
abbrev pub capacity : ℕ
capacity = 64

-- `ringbuf_t`; `buf` holds `capacity` bytes.
pub record Ringbuf : Type 0 where
  pub buf : List ℕ
  pub head : ℕ
  pub tail : ℕ

-- the slot of a free-running index, `i & (RB_CAPACITY - 1u)`
abbrev pub slot : ℕ → ℕ
slot i = bit_and i (capacity - 1)

-- `rb_init`: the bytes stay as they were.
unfoldable pub init : Ringbuf → Ringbuf
init rb = record rb { head = 0; tail = 0 }

-- `rb_count`
unfoldable pub count : Ringbuf → ℕ
count rb = sub32 rb.head rb.tail

-- `rb_empty`
pub empty : Ringbuf → Bool
unfolding count
empty rb = count rb == 0

-- `rb_full`
pub full : Ringbuf → Bool
unfolding count
full rb = leb capacity (count rb)

-- `rb_put`
unfoldable pub put : Ringbuf → ℕ → Bool × Ringbuf
put rb b =
    let head = rb.head in
    if leb capacity (sub32 head rb.tail)
    then (false, rb)
    else (true, record rb { buf = set rb.buf (slot head) b; head = u32 (head + 1) })

-- `rb_get`: the second result is what `*out` holds afterwards; `out` is what it held before.
unfoldable pub get : Ringbuf → ℕ → Bool × ℕ × Ringbuf
get rb out =
    let tail = rb.tail in
    if rb.head == tail
    then (false, out, rb)
    else (true, get_or rb.buf (slot tail) 0, record rb { tail = u32 (tail + 1) })

-- A caller's calls in order, with what each returns.
pub data Op : Type 0 where
  put_byte : ℕ → Op
  get_byte : (out : ℕ) → Op
  ask_count ask_empty ask_full : Op

pub data Reply : Type 0 where
  accepted : Bool → Reply
  taken : Bool → ℕ → Reply
  number : ℕ → Reply
  answer : Bool → Reply

pub run : Ringbuf → List Op → List Reply
run rb [] = []
run rb (put_byte b ∷ ops) = let (done, rb') = put rb b in accepted done ∷ run rb' ops
run rb (get_byte out ∷ ops) = let (done, x, rb') = get rb out in taken done x ∷ run rb' ops
run rb (ask_count ∷ ops) = number (count rb) ∷ run rb ops
run rb (ask_empty ∷ ops) = answer (empty rb) ∷ run rb ops
run rb (ask_full ∷ ops) = answer (full rb) ∷ run rb ops
