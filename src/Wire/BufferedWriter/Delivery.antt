-- ===== src/Wire/BufferedWriter/Delivery.antt =====
-- src/lib/peer_server/BufferedConnectionWriter.h over a socket that takes all that it is given.
use native.Mathlib.Numerals.{add-one}
use turbopump.Prelude.{
  ℕ, zero, suc, ◌+◌, ◌-◌, ◌%◌, ◌^◌, ◌≤◌, ◌<◌, ◌≡◌, refl, ap, sym, ◌∙◌, Bool, true, false, ◌&&◌,
  Bytes, List, [], ◌∷◌, ◌++◌, append-nil, append_assoc, length, take, drop, ltb, leb, ◌==◌,
  if◌then◌else◌, arith, min, take-append-drop, length-drop, length-take, length-append, take_all,
  lt→leb_false, le→ltb_false, lt→ltb, ◌⊎◌, dec_lt, ℕ_discrete, subst, ne→==_false,
}
use turbopump.Wire.MessagePacker.{pack}
use turbopump.Wire.Frames.{Frame, wire, payload, FitIn, length-pack}
use turbopump.Wire.Socket.{Socket, IsReliable}
use turbopump.Wire.BufferedWriter.{W, push_bytes, flush_internal, write_loop, write}

-- The frames of one channel.
abbrev pub on : ℕ → List Bytes → List Frame
on v [] = []
on v (c ∷ cs) = record { channel = v; packet = c } ∷ on v cs

module _ {k : Socket} (r : IsReliable k) where
  -- All bytes so far: those sent, then those that wait.
  abbrev pub stream : W k → Bytes
  stream w = r.sent w.sock ++ w.buffer

  -- `w'` has put `buff` behind the stream of `w`, cut into frames of the channel that the
  -- capacity admits.
  pub record Delivered (w : W k) (v : ℕ) (buff : Bytes) (w' : W k) : Type 0 where
    pub chunks : List Bytes
    pub joined : payload (on v chunks) ≡ buff
    pub fit : FitIn (w.capacity + 1) (on v chunks)
    pub out : stream w' ≡ stream w ++ wire (on v chunks)
    pub same_capacity : w'.capacity ≡ w.capacity

  -- A flush of a writer with something to send.
  flush_internal-reliable :
      (blocking : Bool) (w : W k)
      → 0 < length w.buffer
      → (s : k.State) × (flush_internal k blocking w ≡ (true, record w { buffer = []; sock = s }))
        × (r.sent s ≡ stream w)
  unfolding flush_internal
  flush_internal-reliable true w h = (
    (k.send w.sock w.buffer).1,
    ground (arith, r.send_result w.sock w.buffer),
    r.send_sent w.sock w.buffer,
  )
  flush_internal-reliable false w h = (
    (k.try_send w.sock w.buffer).1,
    ground (arith, r.try_send_result w.sock w.buffer),
    r.try_send_sent w.sock w.buffer,
  )

  Delivered-nil : (w : W k) (v : ℕ) → Delivered w v [] w
  Delivered-nil w v = record {
    chunks = [];
    joined = refl;
    fit = tt;
    out = sym (append-nil _);
    same_capacity = refl;
  }

  Delivered-cons :
      (w w1 w' : W k) (v : ℕ) (c rest : Bytes)
      → length c ≤ w.capacity
      → w1.capacity ≡ w.capacity
      → stream w1 ≡ stream w ++ pack v c
      → Delivered w1 v rest w'
      → Delivered w v (c ++ rest) w'
  Delivered-cons w w1 w' v c rest h e out d = record {
    chunks = c ∷ d.chunks;
    joined = ap (◌++◌ c) d.joined;
    fit = (omega arith, rw e at d.fit);
    out = d.out ∙ rw out (append_assoc (stream w) (pack v c) (wire (on v d.chunks)));
    same_capacity = d.same_capacity ∙ e;
  }

-- The last round: what is left fits.
write_loop-small :
    (k : Socket) (fuel : ℕ) (blocking : Bool) (w : W k) (v : ℕ) (buff : Bytes) (n : ℕ)
    → length buff ≡ n
    → length w.buffer + n < w.capacity
    → w.capacity < 2 ^ 32
    → write_loop k (suc fuel) blocking w v buff n true ≡ (0, push_bytes k w v buff)
unfolding write_loop
write_loop-small k fuel blocking w v buff n en h hc =
    let e : (length w.buffer + n) % 2 ^ 32 ≡ length w.buffer + n = omega arith in
    let all : take n buff ≡ buff = subst (λ m. take m buff ≡ buff) en (take_all buff) in
    rw (e, lt→leb_false _ _ h, all) (ground arith)

-- A round that fills the buffer and sends it.
write_loop-full :
    (k : Socket) (fuel : ℕ) (blocking : Bool) (w w' : W k) (v : ℕ) (buff : Bytes) (n p : ℕ)
    → length w.buffer + p ≡ w.capacity
    → 0 < p
    → p ≤ n
    → length w.buffer + n < 2 ^ 32
    → flush_internal k blocking (push_bytes k w v (take p buff)) ≡ (true, w')
    → write_loop k (suc fuel) blocking w v buff n true ≡ (
        if (n - p) == 0
        then (n - p, w')
        else write_loop k fuel blocking w' v (drop p buff) (n - p) true)
unfolding write_loop
write_loop-full k fuel blocking w w' v buff n p e hp hn h f =
    let e1 : (length w.buffer + n) % 2 ^ 32 ≡ length w.buffer + n = omega arith in
    let e2 : w.capacity - length w.buffer ≡ p = omega arith in
    let e3 : leb w.capacity (length w.buffer + n) ≡ true = ground arith in
    let e4 : ltb (length w.buffer) w.capacity ≡ true = ground arith in
    let e5 : min p n ≡ p = omega arith in rw (e1, e3, e4, e2, f, e5)

length_zero : (xs : Bytes) → length xs ≡ 0 → xs ≡ []
length_zero [] h = refl
length_zero (x ∷ xs) h = absurd (omega arith)

module _ {k : Socket} (r : IsReliable k) where
  small-Delivered :
      (fuel : ℕ) (blocking : Bool) (w : W k) (v : ℕ) (buff : Bytes) (n : ℕ)
      → length buff ≡ n
      → length w.buffer + n < w.capacity
      → w.capacity < 65535
      → (w' : W k) × (write_loop k (suc fuel) blocking w v buff n true ≡ (0, w'))
        × Delivered r w v buff w'
  unfolding push_bytes
  small-Delivered fuel blocking w v buff n en h hc = (
    push_bytes k w v buff,
    write_loop-small k fuel blocking w v buff n en h (omega arith),
    rw append-nil at (
        Delivered-cons r w (push_bytes k w v buff) (push_bytes k w v buff) v buff [] (omega arith)
          refl (sym (append_assoc (r.sent w.sock) w.buffer (pack v buff)))
          (Delivered-nil r (push_bytes k w v buff) v)),
  )

  -- The writer after a full round.
  full_round :
      (blocking : Bool) (w : W k) (v : ℕ) (c : Bytes)
      → (w1 : W k) × (flush_internal k blocking (push_bytes k w v c) ≡ (true, w1))
        × (w1.buffer ≡ [])
        × (w1.capacity ≡ w.capacity)
        × (stream r w1 ≡ stream r w ++ pack v c)
  unfolding push_bytes
  full_round blocking w v c =
      let (s, flushed, sent) =
        flush_internal-reliable r blocking (push_bytes k w v c)
          (omega (arith, length-append w.buffer (pack v c), length-pack v c)) in
      (
        record w { buffer = []; sock = s },
        flushed,
        refl,
        refl,
        append-nil _ ∙ sent ∙ sym (append_assoc (r.sent w.sock) w.buffer (pack v c)),
      )

  round-Delivered :
      (w w1 w' : W k) (v p : ℕ) (buff : Bytes)
      → p ≤ w.capacity
      → w1.capacity ≡ w.capacity
      → stream r w1 ≡ stream r w ++ pack v (take p buff)
      → Delivered r w1 v (drop p buff) w'
      → Delivered r w v buff w'
  round-Delivered w w1 w' v p buff hp e out d =
      subst (λ b. Delivered r w v b w') (take-append-drop p buff)
        (Delivered-cons r w w1 w' v (take p buff) (drop p buff) (omega (arith, length-take p buff))
          e out d)

  loop-Delivered :
      (fuel : ℕ) (blocking : Bool) (w : W k) (v : ℕ) (buff : Bytes) (n : ℕ)
      → length buff ≡ n
      → n ≤ fuel
      → length w.buffer < w.capacity
      → w.capacity < 65535
      → n < 2 ^ 31
      → (w' : W k) × (write_loop k (suc fuel) blocking w v buff n true ≡ (0, w'))
        × Delivered r w v buff w'
  loop-Delivered zero blocking w v buff n en hf hb hc hn =
      small-Delivered zero blocking w v buff n en (omega arith) hc
  loop-Delivered (suc fuel) blocking w v buff n en hf hb hc hn =
      let p = w.capacity - length w.buffer in
      let (w1, flushed, empty, cap, out) = full_round blocking w v (take p buff) in
      let rest : length (drop p buff) ≡ n - p = omega (arith, length-drop p buff) in
      elim (dec_lt (length w.buffer + n) w.capacity) [
        | yes small ↦ small-Delivered (suc fuel) blocking w v buff n en small hc
        | no large ↦
            let step =
              write_loop-full k (suc fuel) blocking w w1 v buff n p (omega arith) (omega arith)
                (omega arith) (omega arith) flushed in
            elim (ℕ_discrete (n - p) 0) [
              | yes done ↦ (
                w1,
                step ∙ rw done,
                round-Delivered w w1 w1 v p buff (omega arith) cap out
                    (rw (length_zero (drop p buff) (rest ∙ done)) (Delivered-nil r w1 v)),
              )
              | no more ↦
                  let e : length w1.buffer ≡ 0 = ap length empty in
                  let (w', ran, d) =
                    loop-Delivered fuel blocking w1 v (drop p buff) (n - p) rest (omega arith)
                      (omega arith) (omega arith) (omega arith) in
                  (
                    w',
                    step ∙ rw (ne→==_false (n - p) 0 more) ran,
                    round-Delivered w w1 w' v p buff (omega arith) cap out d,
                  )
            ]
      ]

  Delivered-from :
      (w w1 w' : W k) (v : ℕ) (buff : Bytes)
      → w1.capacity ≡ w.capacity
      → stream r w1 ≡ stream r w
      → Delivered r w1 v buff w'
      → Delivered r w v buff w'
  Delivered-from w w1 w' v buff e out d = record {
    chunks = d.chunks;
    joined = d.joined;
    fit = rw e at d.fit;
    out = rw out at d.out;
    same_capacity = d.same_capacity ∙ e;
  }

  -- `write` from a writer that has been chosen by the test before the loop.
  write_from :
      (blocking : Bool) (w w1 : W k) (v : ℕ) (buff : Bytes)
      → (if ltb 0 (length w.buffer) && ltb w.capacity (length w.buffer + length buff)
          then flush_internal k blocking w
          else (true, w))
        ≡ (true, w1)
      → length w1.buffer < w1.capacity
      → w1.capacity < 65535
      → length buff < 2 ^ 31
      → (w' : W k) × (write k blocking w v buff ≡ (length buff, w')) × Delivered r w1 v buff w'
  unfolding write
  write_from blocking w w1 v buff e hb hc hn =
      let (w', ran, d) =
        loop-Delivered (length buff) blocking w1 v buff (length buff) refl (omega arith) hb hc hn in
      (w', rw (e, add-one, ran) (ground arith), d)

  -- On a socket that takes all that it is given, `write` takes the whole buffer, blocking or not:
  -- it puts the bytes behind all earlier ones, cut into frames of their channel that fit the
  -- capacity. The writer's capacity is at least 1 and below 65535, the buffer is shorter than
  -- 2 ^ 31, and it is not empty, unless the writer has less than a capacity waiting.
  pub write-Delivered :
      (blocking : Bool) (w : W k) (v : ℕ) (buff : Bytes)
      → 0 < w.capacity
      → w.capacity < 65535
      → length buff < 2 ^ 31
      → (0 < length buff) ⊎ (length w.buffer < w.capacity)
      → (w' : W k) × (write k blocking w v buff ≡ (length buff, w')) × Delivered r w v buff w'
  write-Delivered blocking w v buff h0 hc hn some_room = elim (dec_lt 0 (length w.buffer)) [
    | yes waiting ↦ elim (dec_lt w.capacity (length w.buffer + length buff)) [
      | yes over ↦
          let (s, flushed, sent) = flush_internal-reliable r blocking w waiting in
          let (w', wrote, d) =
            write_from blocking w (record w { buffer = []; sock = s }) v buff
              (rw (lt→ltb _ _ waiting, lt→ltb _ _ over) flushed) h0 hc hn in
          (w', wrote, Delivered-from w _ w' v buff refl (append-nil _ ∙ sent) d)
      | no under ↦
          write_from blocking w w v buff
            (rw (
              lt→ltb _ _ waiting,
              le→ltb_false (length w.buffer + length buff) w.capacity (omega arith),
            ))
            (omega arith) hc hn
    ]
    | no quiet ↦
        write_from blocking w w v buff (rw (le→ltb_false (length w.buffer) 0 (omega arith)))
          (omega arith) hc hn
  ]

  -- A packet of no bytes is lost whenever exactly a capacity waits in the buffer: `write` sends
  -- what waits, and the stream that has gone out ends there, without the packet.
  pub write-empty_lost :
      (blocking : Bool) (w : W k) (v : ℕ)
      → 0 < w.capacity
      → w.capacity < 65535
      → length w.buffer ≡ w.capacity
      → (w' : W k) × (write k blocking w v [] ≡ (0, w'))
        × (w'.buffer ≡ [])
        × (stream r w' ≡ stream r w)
  unfolding write write_loop
  write-empty_lost blocking w v h0 hc e =
      let (s, flushed, sent) = flush_internal-reliable r blocking w (omega arith) in
      let w' : W k = record w { buffer = []; sock = s } in
      let e1 : ltb w.capacity (length w.buffer + 0) ≡ false = ground arith in
      let e2 : (length w.buffer + 0) % 2 ^ 32 ≡ length w.buffer = omega arith in
      let e3 : leb w.capacity (length w.buffer) ≡ true = ground arith in
      let e4 : ltb (length w.buffer) w.capacity ≡ false = ground arith in
      (
        w',
        rw (lt→ltb 0 (length w.buffer) (omega arith), e1, e2, e3, e4, flushed) (ground arith),
        refl,
        append-nil _ ∙ sent,
      )
