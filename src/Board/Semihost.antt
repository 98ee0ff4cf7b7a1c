-- ===== src/Board/Semihost.antt =====
-- code/qemu-cortex-m/common/semihost.h: the exit calls. The host is a parameter: what it does on a
-- `bkpt 0xAB`, from the operation, the argument and the two words at `block`.
use embedded_systems_resourc.Base.{
  ℕ, ◌≡◌, ap, ap₂, Option, none, some, List, [], ◌∷◌, Bool, true, false, if◌then◌else◌,
}

abbrev pub sys_exit : ℕ
sys_exit = 0x18

abbrev pub sys_exit_extended : ℕ
sys_exit_extended = 0x20

abbrev pub adp_stopped_appexit : ℕ
adp_stopped_appexit = 0x20026

-- The argument in R1: a value, or the address of the words that are given.
pub data Argument : Type 0 where
  value : ℕ → Argument
  address_of : List ℕ → Argument

-- A host: the exit status with which it ends the program, or `none` where the call returns.
abbrev pub Host : Type 0
Host = ℕ → Argument → Option ℕ

-- How `semihost_exit` ends.
pub data Ending : Type 0 where
  exited : (status : ℕ) → Ending
  spins : Ending

-- `semihost_call`
abbrev pub semihost_call : Host → ℕ → Argument → Option ℕ
semihost_call host op arg = host op arg

-- A call that ends the program, or returns to what follows it.
abbrev pub ended : Option ℕ → Ending → Ending
ended (some status) rest = exited status
ended none rest = rest

-- `semihost_exit`, with the code as the 32-bit number that is stored.
unfoldable pub semihost_exit : Host → ℕ → Ending
semihost_exit host code =
    ended (semihost_call host sys_exit_extended (address_of (adp_stopped_appexit ∷ code ∷ [])))
      (ended (semihost_call host sys_exit (value adp_stopped_appexit)) spins)

-- What the header says of a host, with or without each of the two calls.
pub record Documented (host : Host) (extended plain : Bool) : Type 0 where
  pub extended_exit :
      (code : ℕ)
      → host sys_exit_extended (address_of (adp_stopped_appexit ∷ code ∷ []))
        ≡ (if extended then some code else none)
  pub plain_exit : host sys_exit (value adp_stopped_appexit) ≡ (if plain then some 0 else none)

-- With SYS_EXIT_EXTENDED the program ends with the code that it gave. With SYS_EXIT only it ends with 0
-- whatever the code. With neither it spins.
pub semihost_exit_lem :
    (host : Host) (extended plain : Bool) (code : ℕ)
    → Documented host extended plain
    → semihost_exit host code
      ≡ (if extended then exited code else if plain then exited 0 else spins)
unfolding semihost_exit
semihost_exit_lem host true plain code d =
    ap (λ r. ended r (ended (host sys_exit (value adp_stopped_appexit)) spins))
      (d.extended_exit code)
semihost_exit_lem host false true code d =
    ap₂ (λ r q. ended r (ended q spins)) (d.extended_exit code) d.plain_exit
semihost_exit_lem host false false code d =
    ap₂ (λ r q. ended r (ended q spins)) (d.extended_exit code) d.plain_exit
