-- ===== src/Examples/Stream/Text.antt =====
-- What `main` of code/qemu-cortex-m/04-spsc-ring-buffer/main.c prints, and the status that it exits with.
use embedded_systems_resourc.Base.{ℕ, ◌%◌, List, [], ◌∷◌, ◌==◌, if◌then◌else◌, codes, printed}
use embedded_systems_resourc.Ringbuf.{capacity}
use embedded_systems_resourc.Uart.{puts, put_u32}
use embedded_systems_resourc.Examples.Stream.{App}

-- What `main` prints after a byte, with the depth that it saw before.
unfoldable pub progress_text : App → ℕ → List ℕ
progress_text a depth =
    if a.consumed % 26 == 0
    then printed (
        puts (codes "consumed ")
        ∷ put_u32 a.consumed
        ∷ puts (codes "  depth=")
        ∷ put_u32 depth
        ∷ puts (codes "  dropped=")
        ∷ put_u32 a.dropped
        ∷ puts (codes "\n")
        ∷ [])
    else []

-- What `main` prints before its loop.
unfoldable pub banner_text : List ℕ
banner_text = printed (
    puts (codes "\n=== lock-free SPSC ring buffer ===\n\n")
    ∷ puts (codes "capacity = ")
    ∷ put_u32 capacity
    ∷ puts (codes " bytes, indices are free-running and masked on access\n\n")
    ∷ [])

-- What phase 2 prints, with the depth and the lost bytes that it has measured.
unfoldable pub stall_text : ℕ → ℕ → List ℕ
stall_text depth lost = printed (
    puts (codes "\n--- phase 2: stalling the consumer to force overrun ---\n")
    ∷ puts (codes "after stalling: depth=")
    ∷ put_u32 depth
    ∷ puts (codes " dropped=")
    ∷ put_u32 lost
    ∷ puts (codes "\n")
    ∷ [])

-- The results that `main` prints, and the status that it exits with.
unfoldable pub verdict_text : App → List ℕ
verdict_text a = printed (
    puts (codes "\n--- result ---\n")
    ∷ puts (codes "produced   = ")
    ∷ put_u32 a.produced
    ∷ puts (codes "\n")
    ∷ puts (codes "consumed   = ")
    ∷ put_u32 a.consumed
    ∷ puts (codes "\n")
    ∷ puts (codes "dropped    = ")
    ∷ put_u32 a.dropped
    ∷ puts (codes "\n")
    ∷ puts (codes "high water = ")
    ∷ put_u32 a.high_water
    ∷ puts (codes " of ")
    ∷ put_u32 capacity
    ∷ puts (codes "\n")
    ∷ puts (codes "ordering errors = ")
    ∷ put_u32 a.errors
    ∷ puts (if a.errors == 0 then codes "  (sequence intact)\n" else codes "  *** CORRUPTION ***\n")
    ∷ [])

unfoldable pub exit_status : App → ℕ
exit_status a = if a.errors == 0 then 0 else 1

-- The lines that `main` ends with.
unfoldable pub closing_text : List ℕ
closing_text = printed (
    puts (codes "\nWhy no critical section was needed:\n")
    ∷ puts (codes "  * exactly one writer per index\n")
    ∷ puts (codes "  * 32-bit aligned loads/stores are atomic on Cortex-M\n")
    ∷ puts (codes "  * capacity is a power of two, so masking replaces modulo\n")
    ∷ puts (codes "Add a second producer and every line above stops being true.\n")
    ∷ [])
