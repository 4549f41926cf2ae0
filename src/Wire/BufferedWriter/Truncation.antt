-- ===== src/Wire/BufferedWriter/Truncation.antt =====
-- src/lib/peer_server/BufferedConnectionWriter.h: what a flush that does not block keeps, when the
-- socket took a part of the bytes.
use native.Mathlib.Numerals.{add-one}
use native.Mathlib.Nat.{zero-add}
use turbopump.Prelude.{
  ℕ, zero, suc, ◌+◌, ◌-◌, ◌*◌, ◌≤◌, ◌<◌, ◌≡◌, refl, false, Bytes, List, [], ◌∷◌, ◌++◌, length, drop,
  ltb, ◌==◌, if◌then◌else◌, arith, Bool-cases, inl, inr, length-append, drop-append_left,
  le→ltb_false, lt→ltb, subst,
}
use turbopump.Wire.MessagePacker.{pack, high_byte, low_byte}
use turbopump.Wire.Frames.{Frame, wire, FitIn, length-pack, wire-append}
use turbopump.Wire.Socket.{pos, Socket}
use turbopump.Wire.BufferedWriter.{
  W, truncated_from, find_first_truncated_packet, after_try_send, flush_internal, flush,
}

-- The frames that lie wholly within the first n bytes of the wire, and the others.
abbrev pub fitting : ℕ → List Frame → List Frame
fitting n [] = []
fitting n (f ∷ fs) =
    if ltb n (length f.packet + 3) then [] else f ∷ fitting (n - (length f.packet + 3)) fs

abbrev pub unsent : ℕ → List Frame → List Frame
unsent n [] = []
unsent n (f ∷ fs) =
    if ltb n (length f.packet + 3) then f ∷ fs else unsent (n - (length f.packet + 3)) fs

fitting-append-unsent : (n : ℕ) (fs : List Frame) → fitting n fs ++ unsent n fs ≡ fs
fitting-append-unsent n [] = refl
fitting-append-unsent n (f ∷ fs) =
    ground (arith, fitting-append-unsent (n - (length f.packet + 3)) fs)

unsent-zero : (fs : List Frame) → unsent 0 fs ≡ fs
unsent-zero [] = refl
unsent-zero (f ∷ fs) = ground arith

unsent-length : (fs : List Frame) → unsent (length (wire fs)) fs ≡ []
unsent-length [] = refl
unsent-length (f ∷ fs) =
    let e = length-append (pack f.channel f.packet) (wire fs) in
    let e' = length-pack f.channel f.packet in
    let back : length (pack f.channel f.packet ++ wire fs) - (length f.packet + 3)
        ≡ length (wire fs) =
      omega arith in
    rw
      (
        le→ltb_false (length f.packet + 3) (length (pack f.channel f.packet ++ wire fs))
            (omega arith),
        back,
      )
      (unsent-length fs)

field-bytes : (n : ℕ) → n < 65535 → high_byte (n + 1) * 256 + low_byte (n + 1) ≡ n + 1
field-bytes n h = omega arith

sub_zero : (n : ℕ) → n - 0 ≡ n
sub_zero n = omega arith

drop-packet : (id : ℕ) (p rest : Bytes) → drop (length p + 1) (id ∷ (p ++ rest)) ≡ rest
drop-packet id p rest = rw add-one (drop-append_left p rest)

next-frame :
    (i : ℕ) (f : Frame) (fs : List Frame) (m : ℕ)
    → m ≡ i + 2 + (length f.packet + 1) + length (wire fs)
    → m ≡ i + length (wire (f ∷ fs))
next-frame i f fs m h =
    omega (arith, length-append (pack f.channel f.packet) (wire fs), length-pack f.channel f.packet)

truncated_from-wire :
    (fuel i size : ℕ) (fs : List Frame)
    → FitIn 65535 fs
    → i ≤ size
    → size < i + fuel
    → size ≤ i + length (wire fs)
    → truncated_from fuel (wire fs) i size ≡ i + length (wire (fitting (size - i) fs))
unfolding truncated_from pack
truncated_from-wire zero i size fs fit h hf hs = absurd (omega arith)
truncated_from-wire (suc fuel) i size [] fit h hf hs = ground arith
truncated_from-wire (suc fuel) i size (f ∷ fs) fit h hf hs =
    let n = length f.packet in
    elim (Bool-cases (ltb i size)) [
      | inr done ↦ rw (done, lt→ltb (size - i) (n + 3) (ground arith)) (ground arith)
      | inl more ↦ elim (Bool-cases (ltb size (n + 1 + i + 2))) [
        | inl cut ↦
            rw (field-bytes n fit.0, more, cut, lt→ltb (size - i) (n + 3) (ground arith))
              (omega arith)
        | inr fits ↦
            let e : size - i - (n + 3) ≡ size - (i + 2 + (n + 1)) = omega arith in
            rw
              (
                field-bytes n fit.0,
                more,
                fits,
                drop-packet f.channel f.packet (wire fs),
                le→ltb_false (n + 3) (size - i) (ground arith),
                e,
              )
              (next-frame i f _ _ (
                truncated_from-wire fuel (i + 2 + (n + 1)) size fs fit.1 (ground arith)
                  (omega arith)
                  (omega (
                    arith,
                    length-append (pack f.channel f.packet) (wire fs),
                    length-pack f.channel f.packet,
                  ))))
      ]
    ]

drop-fitting :
    (n : ℕ) (fs : List Frame) → drop (length (wire (fitting n fs))) (wire fs) ≡ wire (unsent n fs)
drop-fitting n fs =
    subst (λ gs. drop (length (wire (fitting n fs))) (wire gs) ≡ wire (unsent n fs))
      (fitting-append-unsent n fs)
      (rw (wire-append (fitting n fs) (unsent n fs))
        (drop-append_left (wire (fitting n fs)) (wire (unsent n fs))))

after_try_send-unsent :
    (k : Socket) (w : W k) (fs : List Frame) (n : ℕ)
    → w.buffer ≡ wire fs
    → FitIn 65535 fs
    → n ≤ length (wire fs)
    → (after_try_send k w (pos n)).1.buffer ≡ wire (unsent n fs)
unfolding after_try_send find_first_truncated_packet
after_try_send-unsent k w fs n e fit h =
    let kept = drop-fitting n fs in
    rw e (elim (Bool-cases (n == length (wire fs))) [
      | inl all ↦ let e' : n ≡ length (wire fs) = ground arith in rw (all, e', unsent-length fs)
      | inr part ↦ elim (Bool-cases (ltb 0 n)) [
        | inl some ↦
            rw
              (
                part,
                some,
                truncated_from-wire (n + 1) 0 n fs fit (omega arith) (omega arith) (omega arith),
                zero-add,
                sub_zero n,
              )
              kept
        | inr nothing ↦ let e' : n ≡ 0 = ground arith in rw (part, nothing, e', unsent-zero fs)
      ]
    ])

-- A flush that does not block, on a socket that takes n of the bytes that wait, keeps the frames
-- that are not wholly among those n, and nothing else: all of them if n is 0, none if n is the
-- length, and from the start of the first truncated one in between. The frames that wait are
-- shorter than 65535.
pub flush-unsent :
    (k : Socket) (w : W k) (fs : List Frame) (n : ℕ)
    → w.buffer ≡ wire fs
    → FitIn 65535 fs
    → n ≤ length (wire fs)
    → (k.try_send w.sock w.buffer).0 ≡ pos n
    → (flush k false w).1.buffer ≡ wire (unsent n fs)
unfolding flush flush_internal
flush-unsent k w fs n e fit h sent =
    rw sent
      (after_try_send-unsent k (record w { sock = (k.try_send w.sock w.buffer).1 }) fs n e fit h)
