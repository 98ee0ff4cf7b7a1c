-- ===== src/Crc/Detect.antt =====
-- What `crc16_ccitt` detects.
use embedded_systems_resourc.Base.{
  ℕ, zero, suc, ◌+◌, ◌^◌, ◌<◌, ◌≡◌, refl, sym, ap, ◌∙◌, ◌≢◌, List, [], ◌∷◌, ◌++◌, arith, length,
  take, take_congr, take-append_right, ◌-◌,
}
use embedded_systems_resourc.Crc.{init, update, update_all, crc16}
use embedded_systems_resourc.Crc.Inverse.{update-lt, update_inj_crc, update_inj_byte}

-- The checksum after all bytes of a list.
unfoldable pub absorb : ℕ → List ℕ → ℕ
absorb crc [] = crc
absorb crc (x ∷ xs) = absorb (update crc x) xs

pub absorb-append : (xs ys : List ℕ) (crc : ℕ) → absorb crc (xs ++ ys) ≡ absorb (absorb crc xs) ys
unfolding absorb
absorb-append [] ys crc = refl
absorb-append (x ∷ xs) ys crc = absorb-append xs ys (update crc x)

pub absorb-lt : (xs : List ℕ) (crc : ℕ) → crc < 2 ^ 16 → absorb crc xs < 2 ^ 16
unfolding absorb
absorb-lt [] crc h = h
absorb-lt (x ∷ xs) crc h = absorb-lt xs (update crc x) (update-lt crc x h)

pub update_all-eq-absorb :
    (bytes : List ℕ) (n crc : ℕ) → update_all crc bytes n ≡ absorb crc (take n bytes)
unfolding update_all absorb
update_all-eq-absorb bytes zero crc = refl
update_all-eq-absorb [] (suc n) crc = refl
update_all-eq-absorb (x ∷ rest) (suc n) crc = update_all-eq-absorb rest n (update crc x)

absorb_inj : (xs : List ℕ) (c d : ℕ) → c < 2 ^ 16 → d < 2 ^ 16 → absorb c xs ≡ absorb d xs → c ≡ d
unfolding absorb
absorb_inj [] c d p q e = e
absorb_inj (x ∷ xs) c d p q e =
    update_inj_crc c d x p q
      (absorb_inj xs (update c x) (update d x) (update-lt c x p) (update-lt d x q) e)

-- One changed byte changes the checksum, wherever it stands and whatever surrounds it.
pub absorb_detects :
    (before after : List ℕ) (x y crc : ℕ)
    → crc < 2 ^ 16
    → x < 256
    → y < 256
    → x ≢ y
    → absorb crc (before ++ (x ∷ after)) ≢ absorb crc (before ++ (y ∷ after))
unfolding absorb
absorb_detects before after x y crc h p q ne e = ne (
    update_inj_byte c x y small p q (
      absorb_inj after (update c x) (update c y) (update-lt c x small) (update-lt c y small)
        (sym (absorb-append before (x ∷ after) crc) ∙ e ∙ absorb-append before (y ∷ after) crc)))
  where
    c : ℕ
    c = absorb crc before

    small : c < 2 ^ 16
    small = absorb-lt before crc h

-- `crc16_ccitt` tells any two messages apart that differ in exactly one of the bytes that it reads.
pub crc16_detects :
    (before after : List ℕ) (x y len : ℕ)
    → x < 256
    → y < 256
    → x ≢ y
    → length before < len
    → crc16 (before ++ (x ∷ after)) len ≢ crc16 (before ++ (y ∷ after)) len
unfolding crc16
crc16_detects before after x y len p q ne h e =
    absorb_detects before (take rest after) x y init (omega arith) p q ne
      (sym (read x) ∙ e ∙ read y)
  where
    rest : ℕ
    rest = len - length before - 1

    read :
        (z : ℕ)
        → update_all init (before ++ (z ∷ after)) len
          ≡ absorb init (before ++ (z ∷ take rest after))
    read z =
        update_all-eq-absorb (before ++ (z ∷ after)) len init
        ∙ ap (absorb init) (
            take_congr (before ++ (z ∷ after)) len (length before + suc rest) (omega arith)
            ∙ take-append_right before (z ∷ after) (suc rest))
