-- ===== src/Examples/MemoryMap.antt =====
-- code/qemu-cortex-m/01-startup-and-memory-map/main.c: what it prints of the memory that the start-up
-- code left. The addresses that the linker chose are arguments; words are read at them.
pub mod Ready
mod Tests
use embedded_systems_resourc.Base.{
  ℕ, ◌+◌, ◌-◌, List, [], ◌∷◌, ◌++◌, ◌==◌, if◌then◌else◌, sub32, codes,
}
use Prim.Native.String.{String}
use embedded_systems_resourc.Uart.{puts, put_u32, put_hex32}
use embedded_systems_resourc.Startup.{Symbols, Memory}
use embedded_systems_resourc.Base.{printed}

-- The addresses of the variables, and `_sheap`.
pub record Places : Type 0 where
  pub banner : ℕ
  pub initialised : ℕ
  pub zeroed : ℕ
  pub big_buffer : ℕ
  pub counter : ℕ
  pub stack_local : ℕ
  pub sheap : ℕ

-- `print_region`
unfoldable pub print_region : String → ℕ → ℕ → List ℕ
print_region name start end = printed (
    puts (codes name)
    ∷ puts (codes " ")
    ∷ put_hex32 start
    ∷ puts (codes " .. ")
    ∷ put_hex32 end
    ∷ puts (codes "  size=")
    ∷ put_u32 (sub32 end start)
    ∷ puts (codes " bytes\n")
    ∷ [])

-- The verdicts of `main` on `g_initialised` and `g_zeroed`.
unfoldable pub copied_text : ℕ → List ℕ
copied_text v =
    puts
      (if v == 0xdeadbeef then codes "   (copied OK)\n" else codes "   *** COPY LOOP BROKEN ***\n")

unfoldable pub zeroed_text : ℕ → List ℕ
zeroed_text v =
    puts (if v == 0 then codes "   (zeroed OK)\n" else codes "   *** ZERO LOOP BROKEN ***\n")

-- The first half of `main`: the two variables, and the regions.
unfoldable pub memory_text : Symbols → Places → Memory → List ℕ
memory_text s places m = printed (
    puts (codes "\n=== ")
    ∷ puts (codes "startup + memory map\n")
    ∷ puts (codes "===\n\n")
    ∷ puts (codes ".data  g_initialised = ")
    ∷ put_hex32 (m places.initialised)
    ∷ copied_text (m places.initialised)
    ∷ puts (codes ".bss   g_zeroed      = ")
    ∷ put_hex32 (m places.zeroed)
    ∷ zeroed_text (m places.zeroed)
    ∷ puts (codes "\n-- linker symbols --\n")
    ∷ print_region ".data (RAM) " s.sdata s.edata
    ∷ puts (codes ".data image in flash at ")
    ∷ put_hex32 s.sidata
    ∷ puts (codes "\n")
    ∷ print_region ".bss  (RAM) " s.sbss s.ebss
    ∷ [])

-- A line that names an address.
abbrev place_text : String → ℕ → List ℕ
place_text label at = printed (puts (codes label) ∷ put_hex32 at ∷ puts (codes "\n") ∷ [])

-- The second half of `main`: where each variable lies.
unfoldable pub places_text : Symbols → Places → List ℕ
places_text s places = printed (
    puts (codes "\n-- where things actually are --\n")
    ∷ place_text "g_banner   (.rodata, flash) " places.banner
    ∷ place_text "g_initialised (.data, SRAM) " places.initialised
    ∷ place_text "g_big_buffer  (.bss,  SRAM) " places.big_buffer
    ∷ place_text "counter       (.bss,  SRAM) " places.counter
    ∷ place_text "stack_local   (stack, SRAM) " places.stack_local
    ∷ place_text "_estack       (top of SRAM) " s.estack
    ∷ puts (codes "\nStack has grown down ")
    ∷ put_u32 (sub32 s.estack places.stack_local)
    ∷ puts (codes " bytes from the top.\n")
    ∷ puts (codes "Heap would start at ")
    ∷ put_hex32 places.sheap
    ∷ puts (codes " and grow up toward it.\n")
    ∷ puts (
        codes "\nRun `make size` and compare: text = flash, data = both,\n"
        ++ codes "bss = RAM only. That is the whole story.\n")
    ∷ [])
