-- ===== src/Frame/Follow.antt =====
-- frame_feed, state by state, against what it has seen of the input.
use embedded_systems_resourc.Base.{
  ℕ, suc, ◌+◌, ◌/◌, ◌%◌, ◌≤◌, ◌<◌, ◌≡◌, refl, sym, ap, ap₂, ◌∙◌, List, [], ◌∷◌, ◌++◌, arith, length,
  length-set, length-take, take, take-set_self, take_congr, set, ◌!=◌, ◌==◌, ltb, leb, bit_or, u8,
  u16, ◌<<<◌, Bool-cases, inl, inr, ==→eq, ltb_false→le, leb→le, leb_false→lt, !=_false→eq, false,
}
use mathlib.Core.List.{append_assoc, append-nil}
use embedded_systems_resourc.Crc
use embedded_systems_resourc.Crc.{update}
use embedded_systems_resourc.Crc.Detect.{absorb, absorb-append}
use embedded_systems_resourc.Frame.{State, Parser, max_payload, stx_byte, etx_byte, feed_in, reset}
use embedded_systems_resourc.Frame.Wire.{wire, checksum, join_bytes}
use embedded_systems_resourc.Frame.Seen.{summed, Holding, Holds, Trace, Follows, snoc_ends}

positive : (n : ℕ) → (n == 0) ≡ false → 0 < n
positive n h = ground arith

module _ (p : Parser) (input : List ℕ) (byte : ℕ) (size : length p.payload ≡ max_payload)
    (small : byte < 256) where
  abbrev pub after : List ℕ
  after = input ++ (byte ∷ [])

  pub follow_idle : p.state ≡ State.idle → Follows (feed_in State.idle p byte) after
  unfolding feed_in
  follow_idle idle = elim (Bool-cases (byte == stx_byte)) [
    | inl e ↦ rw e (record {
      sized = size;
      trace = ((input, ap (λ b. input ++ (b ∷ [])) (==→eq byte stx_byte e)), refl, refl);
      done = λ e. cc;
    })
    | inr e ↦ rw (e, idle) (record { sized = size; trace = tt; done = λ e. cc })
  ]

  -- STX and a length byte, before any payload byte.
  header :
      (len : ℕ)
      → Trace State.len p input
      → len ≤ max_payload
      → (n : ℕ) → n ≡ 0
      → Holding len (update p.crc_computed len) p.payload (input ++ (len ∷ [])) n []
  unfolding absorb
  header len t fits n zero_n = record {
    before = t.0.0;
    ends =
        ap (λ l. l ++ (len ∷ [])) t.0.1
        ∙ append_assoc t.0.0 (stx_byte ∷ []) (len ∷ [])
        ∙ ap (λ k. t.0.0 ++ (stx_byte ∷ len ∷ (take k p.payload ++ []))) (sym zero_n);
    sum = ap (λ c. update c len) t.1 ∙ ap (λ k. summed len (take k p.payload)) (sym zero_n);
    fits = fits;
  }

  pub follow_len : Trace State.len p input → Follows (feed_in State.len p byte) after
  unfolding feed_in
  follow_len t = elim (Bool-cases (ltb max_payload byte)) [
    | inl big ↦ rw big (record { sized = size; trace = tt; done = λ e. cc })
    | inr fits ↦ elim (Bool-cases (byte == 0)) [
      | inl e ↦
          rw (fits, e)
            (record {
              sized = size;
              trace = header byte t (ltb_false→le max_payload byte fits) byte (==→eq byte 0 e);
              done = λ e. cc;
            })
      | inr e ↦
          rw (fits, e)
            (record {
              sized = size;
              trace = (
                header byte t (ltb_false→le max_payload byte fits) p.index t.2,
                rw t.2 (positive byte e),
              );
              done = λ e. cc;
            })
    ]
  ]

  -- One more payload byte.
  grown :
      Trace State.payload p input
      → (n : ℕ) → n ≡ suc p.index
      → Holding p.length
          (update p.crc_computed byte)
          (set p.payload p.index byte)
          (input ++ (byte ∷ []))
          n
          []
  unfolding absorb
  grown t n e = record {
    before = t.0.before;
    ends =
        snoc_ends t.0.before stx_byte p.length (take p.index p.payload) [] byte t.0.ends
        ∙ ap (λ l. t.0.before ++ (stx_byte ∷ p.length ∷ l)) (sym (append-nil (take n buf) ∙ taken));
    sum =
        ap (λ c. update c byte) t.0.sum
        ∙ sym (absorb-append (take p.index p.payload) (byte ∷ []) (update Crc.init p.length))
        ∙ ap (summed p.length) (sym taken);
    fits = t.0.fits;
  }
    where
      buf : List ℕ
      buf = set p.payload p.index byte

      taken : take n buf ≡ take p.index p.payload ++ (byte ∷ [])
      taken =
          take_congr buf n (suc p.index) e
          ∙ take-set_self p.index p.payload byte (omega (arith, t.1, t.0.fits, size))

  pub follow_payload :
      p.state ≡ State.payload
      → Trace State.payload p input
      → Follows (feed_in State.payload p byte) after
  unfolding feed_in
  follow_payload e t = elim (Bool-cases (leb p.length (u8 (p.index + 1)))) [
    | inl last ↦ rw last (record {
      sized = sized';
      trace =
          grown t p.length (omega (arith, leb→le p.length (u8 (p.index + 1)) last, t.1, t.0.fits));
      done = λ e. cc;
    })
    | inr more ↦
        rw (more, e)
          (record {
            sized = sized';
            trace = (
              grown t (u8 (p.index + 1)) (omega (arith, t.1, t.0.fits)),
              leb_false→lt p.length (u8 (p.index + 1)) more,
            );
            done = λ e. cc;
          })
  ]
    where
      sized' : length (set p.payload p.index byte) ≡ max_payload
      sized' = length-set p.payload p.index byte ∙ size

  pub follow_crc_lo : Trace State.crc_lo p input → Follows (feed_in State.crc_lo p byte) after
  unfolding feed_in
  follow_crc_lo t = record {
    sized = size;
    trace = (
      record {
        before = t.before;
        ends = snoc_ends t.before stx_byte p.length (take p.length p.payload) [] byte t.ends;
        sum = t.sum;
        fits = t.fits;
      },
      small,
    );
    done = λ e. cc;
  }

  pub follow_crc_hi : Trace State.crc_hi p input → Follows (feed_in State.crc_hi p byte) after
  unfolding feed_in
  follow_crc_hi t =
      elim (Bool-cases (bit_or p.crc_received (u16 (u16 byte <<< 8)) != p.crc_computed)) [
        | inl e ↦ rw e (record { sized = size; trace = tt; done = λ e. cc })
        | inr e ↦ rw e (record { sized = size; trace = matched e; done = λ e. cc })
      ]
    where
      matched :
          (bit_or p.crc_received (u16 (u16 byte <<< 8)) != p.crc_computed) ≡ false
          → Holds p
              (input ++ (byte ∷ []))
              p.length
              (p.crc_computed % 256 ∷ p.crc_computed / 256 ∷ [])
      matched e =
          let joined = join_bytes p.crc_received byte t.1 small in
          let same = !=_false→eq (bit_or p.crc_received (u16 (u16 byte <<< 8))) p.crc_computed e in
          record {
            before = t.0.before;
            ends =
                snoc_ends t.0.before stx_byte p.length (take p.length p.payload)
                  (p.crc_received ∷ []) byte t.0.ends
                ∙ ap₂
                    (λ lo hi.
                      t.0.before
                      ++ (stx_byte ∷ p.length ∷ (take p.length p.payload ++ (lo ∷ hi ∷ []))))
                    (omega (arith, joined, same, t.1)) (omega (arith, joined, same, t.1));
            sum = t.0.sum;
            fits = t.0.fits;
          }

  pub follow_etx : Trace State.etx p input → Follows (feed_in State.etx p byte) after
  unfolding feed_in
  follow_etx t = elim (Bool-cases (byte != etx_byte)) [
    | inl e ↦ rw e (record { sized = size; trace = tt; done = λ e. cc })
    | inr e ↦ rw e (record {
      sized = size;
      trace = tt;
      done = λ _. (t.before, framed (!=_false→eq byte etx_byte e), t.fits);
    })
  ]
    where
      xs : List ℕ
      xs = take p.length p.payload

      measured : length xs ≡ p.length
      measured = omega (arith, length-take p.length p.payload, t.fits, size)

      framed : byte ≡ etx_byte → input ++ (byte ∷ []) ≡ t.before ++ wire xs
      framed e =
          unfold wire checksum in
          snoc_ends t.before stx_byte p.length xs (p.crc_computed % 256 ∷ p.crc_computed / 256 ∷ [])
            byte t.ends
          ∙ ap₂ (λ c b. t.before ++ (stx_byte ∷ p.length ∷ (xs ++ (c % 256 ∷ c / 256 ∷ b ∷ []))))
              t.sum e
          ∙ ap
              (λ n.
                t.before
                ++ (stx_byte ∷ n ∷ (xs ++ (summed n xs % 256 ∷ summed n xs / 256 ∷ etx_byte ∷ []))))
              (sym measured)

  pub follow_count : Follows (feed_in State.count p byte) after
  unfolding feed_in reset
  follow_count = record { sized = size; trace = tt; done = λ e. cc }
