-- ===== src/Base/Array.antt =====
-- C arrays as lists with native indices, and `memcpy`.
use Prim.Native.Nat.{ℕ, zero, suc, ◌+◌, ◌-◌, ◌≤◌, ◌<◌, min}
use mathlib.Core.Path.{◌≡◌, refl, sym, ap, ap₂, ◌∙◌}
use mathlib.Core.Logic.{◌≢◌}
use mathlib.Core.List.{List, [], ◌∷◌, ◌++◌, append_assoc, append-nil}
use native.Mathlib.Nat.{add-zero}
use native.Mathlib.Omega.{arith}

module _ {ℓ} {A : Type ℓ} where
  abbrev pub length : List A → ℕ
  length [] = 0
  length (x ∷ xs) = suc (length xs)

  -- A read out of range gives the default.
  abbrev pub get_or : List A → ℕ → A → A
  get_or [] i d = d
  get_or (x ∷ xs) zero d = x
  get_or (x ∷ xs) (suc i) d = get_or xs i d

  -- A write out of range changes nothing.
  abbrev pub set : List A → ℕ → A → List A
  set [] i v = []
  set (x ∷ xs) zero v = v ∷ xs
  set (x ∷ xs) (suc i) v = x ∷ set xs i v

  abbrev pub take : ℕ → List A → List A
  take zero xs = []
  take (suc n) [] = []
  take (suc n) (x ∷ xs) = x ∷ take n xs

  abbrev pub drop : ℕ → List A → List A
  drop zero xs = xs
  drop (suc n) [] = []
  drop (suc n) (x ∷ xs) = drop n xs

  abbrev pub replicate : ℕ → A → List A
  replicate zero a = []
  replicate (suc n) a = a ∷ replicate n a

module _ {ℓ} {A : Type ℓ} where
  pub length-append : (xs ys : List A) → length (xs ++ ys) ≡ length xs + length ys
  length-append [] ys = omega arith
  length-append (x ∷ xs) ys = omega (arith, length-append xs ys)

  pub length-set : (xs : List A) (i : ℕ) (v : A) → length (set xs i v) ≡ length xs
  length-set [] i v = refl
  length-set (x ∷ xs) zero v = refl
  length-set (x ∷ xs) (suc i) v = ap suc (length-set xs i v)

  pub length-replicate : (n : ℕ) (a : A) → length (replicate n a) ≡ n
  length-replicate zero a = refl
  length-replicate (suc n) a = ap suc (length-replicate n a)

  pub length-take : (n : ℕ) (xs : List A) → length (take n xs) ≡ min n (length xs)
  length-take zero xs = omega arith
  length-take (suc n) [] = omega arith
  length-take (suc n) (x ∷ xs) = omega (arith, length-take n xs)

  pub length-drop : (n : ℕ) (xs : List A) → length (drop n xs) ≡ length xs - n
  length-drop zero xs = omega arith
  length-drop (suc n) [] = omega arith
  length-drop (suc n) (x ∷ xs) = omega (arith, length-drop n xs)

  pub get_or-set_self :
      (xs : List A) (i : ℕ) (v d : A) → i < length xs → get_or (set xs i v) i d ≡ v
  get_or-set_self [] i v d h = absurd (omega arith)
  get_or-set_self (x ∷ xs) zero v d h = refl
  get_or-set_self (x ∷ xs) (suc i) v d h = get_or-set_self xs i v d (omega arith)

  pub get_or-set_ne :
      (xs : List A) (i j : ℕ) (v d : A) → i ≢ j → get_or (set xs i v) j d ≡ get_or xs j d
  get_or-set_ne [] i j v d ne = refl
  get_or-set_ne (x ∷ xs) zero zero v d ne = absurd (ne refl)
  get_or-set_ne (x ∷ xs) zero (suc j) v d ne = refl
  get_or-set_ne (x ∷ xs) (suc i) zero v d ne = refl
  get_or-set_ne (x ∷ xs) (suc i) (suc j) v d ne = get_or-set_ne xs i j v d (λ e. ne (ap suc e))

  pub get_or-append_left :
      (xs ys : List A) (i : ℕ) (d : A) → i < length xs → get_or (xs ++ ys) i d ≡ get_or xs i d
  get_or-append_left [] ys i d h = absurd (omega arith)
  get_or-append_left (x ∷ xs) ys zero d h = refl
  get_or-append_left (x ∷ xs) ys (suc i) d h = get_or-append_left xs ys i d (omega arith)

  pub get_or-snoc : (xs : List A) (v d : A) → get_or (xs ++ (v ∷ [])) (length xs) d ≡ v
  get_or-snoc [] v d = refl
  get_or-snoc (x ∷ xs) v d = get_or-snoc xs v d

  pub get_or_ext :
      (d : A) (xs ys : List A)
      → length xs ≡ length ys
      → ((i : ℕ) → i < length xs → get_or xs i d ≡ get_or ys i d)
      → xs ≡ ys
  get_or_ext d [] [] e h = refl
  get_or_ext d [] (y ∷ ys) e h = absurd (omega arith)
  get_or_ext d (x ∷ xs) [] e h = absurd (omega arith)
  get_or_ext d (x ∷ xs) (y ∷ ys) e h =
      ap₂ ◌∷◌ (h 0 (omega arith))
        (get_or_ext d xs ys (omega arith) (λ i lt. h (suc i) (omega arith)))

  pub take-length : (xs : List A) → take (length xs) xs ≡ xs
  take-length [] = refl
  take-length (x ∷ xs) = ap (◌∷◌ x) (take-length xs)

  pub take-append-drop : (n : ℕ) (xs : List A) → take n xs ++ drop n xs ≡ xs
  take-append-drop zero xs = refl
  take-append-drop (suc n) [] = refl
  take-append-drop (suc n) (x ∷ xs) = ap (◌∷◌ x) (take-append-drop n xs)

  pub take-append_left : (n : ℕ) (xs ys : List A) → n ≤ length xs → take n (xs ++ ys) ≡ take n xs
  take-append_left zero xs ys h = refl
  take-append_left (suc n) [] ys h = absurd (omega arith)
  take-append_left (suc n) (x ∷ xs) ys h = ap (◌∷◌ x) (take-append_left n xs ys (omega arith))

  pub take-nil : (n : ℕ) → take {A = A} n [] ≡ []
  take-nil zero = refl
  take-nil (suc n) = refl

  pub take_congr : (xs : List A) (m n : ℕ) → m ≡ n → take m xs ≡ take n xs
  take_congr xs m n e = ap (λ k. take k xs) e

  pub take-add : (m n : ℕ) (xs : List A) → take (m + n) xs ≡ take m xs ++ take n (drop m xs)
  take-add zero n xs = take_congr xs (0 + n) n (omega arith)
  take-add (suc m) n [] = take-nil (suc m + n) ∙ sym (take-nil n)
  take-add (suc m) n (x ∷ xs) =
      take_congr (x ∷ xs) (suc m + n) (suc (m + n)) (omega arith) ∙ ap (◌∷◌ x) (take-add m n xs)

  pub drop_congr : (xs : List A) (m n : ℕ) → m ≡ n → drop m xs ≡ drop n xs
  drop_congr xs m n e = ap (λ k. drop k xs) e

  pub drop-length : (xs : List A) (n : ℕ) → length xs ≤ n → drop n xs ≡ []
  drop-length [] zero h = refl
  drop-length [] (suc n) h = refl
  drop-length (x ∷ xs) zero h = absurd (omega arith)
  drop-length (x ∷ xs) (suc n) h = drop-length xs n (omega arith)

  pub drop-cons :
      (xs : List A) (i : ℕ) (d : A) → i < length xs → drop i xs ≡ get_or xs i d ∷ drop (suc i) xs
  drop-cons [] i d h = absurd (omega arith)
  drop-cons (x ∷ xs) zero d h = refl
  drop-cons (x ∷ xs) (suc i) d h = drop-cons xs i d (omega arith)

  pub set-append_left :
      (xs ys : List A) (i : ℕ) (v : A) → i < length xs → set (xs ++ ys) i v ≡ set xs i v ++ ys
  set-append_left [] ys i v h = absurd (omega arith)
  set-append_left (x ∷ xs) ys zero v h = refl
  set-append_left (x ∷ xs) ys (suc i) v h = ap (◌∷◌ x) (set-append_left xs ys i v (omega arith))

  -- A list around one of its elements, and around a new element in its place.
  pub split_at :
      (xs : List A) (i : ℕ) (d : A)
      → i < length xs
      → xs ≡ take i xs ++ (get_or xs i d ∷ drop (suc i) xs)
  split_at xs i d h = sym (take-append-drop i xs) ∙ ap (λ l. take i xs ++ l) (drop-cons xs i d h)

  pub set-split :
      (xs : List A) (i : ℕ) (v : A)
      → i < length xs
      → set xs i v ≡ take i xs ++ (v ∷ drop (suc i) xs)
  set-split [] i v h = absurd (omega arith)
  set-split (x ∷ xs) zero v h = refl
  set-split (x ∷ xs) (suc i) v h = ap (◌∷◌ x) (set-split xs i v (omega arith))

  pub take-append_right :
      (xs ys : List A) (n : ℕ) → take (length xs + n) (xs ++ ys) ≡ xs ++ take n ys
  take-append_right [] ys n = take_congr ys (0 + n) n (omega arith)
  take-append_right (x ∷ xs) ys n =
      take_congr (x ∷ (xs ++ ys)) (suc (length xs) + n) (suc (length xs + n)) (omega arith)
      ∙ ap (◌∷◌ x) (take-append_right xs ys n)

  pub take-suc :
      (n : ℕ) (xs : List A) (d : A)
      → n < length xs
      → take (suc n) xs ≡ take n xs ++ (get_or xs n d ∷ [])
  take-suc n [] d h = absurd (omega arith)
  take-suc zero (x ∷ xs) d h = refl
  take-suc (suc n) (x ∷ xs) d h = ap (◌∷◌ x) (take-suc n xs d (omega arith))

  pub get_or-take :
      (n : ℕ) (xs : List A) (i : ℕ) (d : A) → i < n → get_or (take n xs) i d ≡ get_or xs i d
  get_or-take zero xs i d h = absurd (omega arith)
  get_or-take (suc n) [] i d h = refl
  get_or-take (suc n) (x ∷ xs) zero d h = refl
  get_or-take (suc n) (x ∷ xs) (suc i) d h = get_or-take n xs i d (omega arith)

  pub take-set_le : (n i : ℕ) (xs : List A) (v : A) → n ≤ i → take n (set xs i v) ≡ take n xs
  take-set_le zero i xs v h = refl
  take-set_le (suc n) i [] v h = refl
  take-set_le (suc n) zero (x ∷ xs) v h = absurd (omega arith)
  take-set_le (suc n) (suc i) (x ∷ xs) v h = ap (◌∷◌ x) (take-set_le n i xs v (omega arith))

  pub take-set_self :
      (i : ℕ) (xs : List A) (v : A)
      → i < length xs
      → take (suc i) (set xs i v) ≡ take i xs ++ (v ∷ [])
  take-set_self i [] v h = absurd (omega arith)
  take-set_self zero (x ∷ xs) v h = refl
  take-set_self (suc i) (x ∷ xs) v h = ap (◌∷◌ x) (take-set_self i xs v (omega arith))

-- `memcpy(&dst[off], src, n)`; the list `src` begins at the source pointer.
module _ {ℓ} {A : Type ℓ} where
  unfoldable pub memcpy : List A → ℕ → List A → ℕ → List A
  memcpy dst off src zero = dst
  memcpy dst off [] (suc n) = dst
  memcpy dst off (x ∷ src) (suc n) = memcpy (set dst off x) (suc off) src n

  pub length-memcpy :
      (n : ℕ) (dst : List A) (off : ℕ) (src : List A) → length (memcpy dst off src n) ≡ length dst
  unfolding memcpy
  length-memcpy zero dst off src = refl
  length-memcpy (suc n) dst off [] = refl
  length-memcpy (suc n) dst off (x ∷ src) =
      length-memcpy n (set dst off x) (suc off) src ∙ length-set dst off x

  pub memcpy-cons :
      (n : ℕ) (d : A) (dst : List A) (off : ℕ) (src : List A)
      → memcpy (d ∷ dst) (suc off) src n ≡ d ∷ memcpy dst off src n
  unfolding memcpy
  memcpy-cons zero d dst off src = refl
  memcpy-cons (suc n) d dst off [] = refl
  memcpy-cons (suc n) d dst off (x ∷ src) = memcpy-cons n d (set dst off x) (suc off) src

  -- What was copied follows what stood before the offset.
  pub take-memcpy :
      (n : ℕ) (dst : List A) (off : ℕ) (src : List A)
      → off + n ≤ length dst
      → n ≤ length src
      → take (off + n) (memcpy dst off src n) ≡ take off dst ++ take n src
  unfolding memcpy
  take-memcpy zero dst off src h k =
      take_congr dst (off + 0) off (add-zero off) ∙ sym (append-nil (take off dst))
  take-memcpy (suc n) dst off [] h k = absurd (omega arith)
  take-memcpy (suc n) dst off (x ∷ src) h k =
      take_congr (memcpy (set dst off x) (suc off) src n) (off + suc n) (suc off + n) (omega arith)
      ∙ take-memcpy n (set dst off x) (suc off) src (omega (arith, length-set dst off x))
          (omega arith)
      ∙ ap (λ p. p ++ take n src) (take-set_self off dst x (omega arith))
      ∙ append_assoc (take off dst) (x ∷ []) (take n src)

abbrev pub AllBytes : List ℕ → Type 0
AllBytes [] = Unit
AllBytes (x ∷ xs) = (x < 256) × AllBytes xs

pub AllBytes-append_right : (xs ys : List ℕ) → AllBytes (xs ++ ys) → AllBytes ys
AllBytes-append_right [] ys h = h
AllBytes-append_right (x ∷ xs) ys h = AllBytes-append_right xs ys h.1

pub AllBytes-append_left : (xs ys : List ℕ) → AllBytes (xs ++ ys) → AllBytes xs
AllBytes-append_left [] ys h = tt
AllBytes-append_left (x ∷ xs) ys h = (h.0, AllBytes-append_left xs ys h.1)

pub AllBytes-snoc : (xs : List ℕ) (x : ℕ) → AllBytes xs → x < 256 → AllBytes (xs ++ (x ∷ []))
AllBytes-snoc [] x h k = (k, tt)
AllBytes-snoc (y ∷ xs) x h k = (h.0, AllBytes-snoc xs x h.1 k)

pub AllBytes-get_or : (xs : List ℕ) (i : ℕ) → AllBytes xs → get_or xs i 0 < 256
AllBytes-get_or [] i h = omega arith
AllBytes-get_or (x ∷ xs) zero h = h.0
AllBytes-get_or (x ∷ xs) (suc i) h = AllBytes-get_or xs i h.1
