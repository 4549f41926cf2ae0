-- ===== src/PeerServer/CommandRunner/Isolation.antt =====
-- src/lib/peer_server/PeerCommandRunner.cpp: a channel's command is driven by that channel's
-- frames alone.
use turbopump.Prelude.{
  ℕ, ◌≡◌, refl, ◌∙◌, true, false, Bytes, List, [], ◌∷◌, ◌==◌, if◌then◌else◌, arith, Bool-cases,
  Option-cases, inl, inr,
}
use turbopump.Wire.DataBuffer.{DataBuffer}
use turbopump.Wire.PacketParser.{get_next}
use turbopump.Wire.Frames.{Frame, wire, FitIn}
use turbopump.PeerServer.CommandRunner.{
  Center, Call, Runner, live, run_held, run_new, start, deliver, parse_and_run,
}
use turbopump.PeerServer.CommandRunner.Dispatch.{deliver_all, parse_and_run-wire}

-- The frames of a channel, and the calls on it.
abbrev pub frames_of : ℕ → List Frame → List Frame
frames_of v [] = []
frames_of v (f ∷ fs) = let rest = frames_of v fs in if f.channel == v then f ∷ rest else rest

abbrev pub calls_of : {C : Type 0} → ℕ → List (Call C) → List (Call C)
calls_of v [] = []
calls_of v (c ∷ cs) = let rest = calls_of v cs in if c.channel == v then c ∷ rest else rest

-- Two runners that agree on a channel: the same command, driven by the same calls.
pub record Agree {C : Type 0} (v : ℕ) (s t : Runner C) : Type 0 where
  pub command : s.commands v ≡ t.commands v
  pub calls : calls_of v s.log ≡ calls_of v t.log

module _ {C : Type 0} (center : Center C) where
  run_held-other :
      (s : Runner C) (v j : ℕ) (c : C) (b : Bytes)
      → (j == v) ≡ false
      → Agree v (run_held center s j c b) s
  unfolding run_held
  run_held-other s v j c b h = record { command = rw h; calls = rw h }

  run_new-other :
      (s : Runner C) (v j : ℕ) (c : C) (b : Bytes)
      → (j == v) ≡ false
      → Agree v (run_new center s j c b) s
  unfolding run_new
  run_new-other s v j c b h = elim (Bool-cases (center.finished c)) [
    | inl e ↦ rw e (record { command = refl; calls = rw h })
    | inr e ↦ rw e (run_held-other s v j c b h)
  ]

  start-other :
      (s : Runner C) (v j : ℕ) (b : DataBuffer) → (j == v) ≡ false → Agree v (start center s j b) s
  unfolding start
  start-other s v j b h =
      let n = get_next b 0 b in
      elim (Bool-cases n.found) [
        | inr e ↦ rw e (record { command = refl; calls = refl })
        | inl e ↦ elim (Option-cases (center.command n.virtid n.next.bytes)) [
          | inl m ↦ rw (e, m) (record { command = refl; calls = refl })
          | inr (c, m) ↦ rw (e, m) (run_new-other s v j (center.set_peer c) n.rest.bytes h)
        ]
      ]

  deliver-other :
      (s : Runner C) (v j : ℕ) (b : DataBuffer)
      → (j == v) ≡ false
      → Agree v (deliver center s j b) s
  unfolding deliver
  deliver-other s v j b h = elim (Option-cases (live center (s.commands j))) [
    | inl e ↦ rw (e, deliver) (start-other s v j b h)
    | inr (c, e) ↦ rw (e, deliver) (run_held-other s v j c b.bytes h)
  ]

  run_held-same :
      (s t : Runner C) (v : ℕ) (c : C) (b : Bytes)
      → Agree v s t
      → Agree v (run_held center s v c b) (run_held center t v c b)
  unfolding run_held
  run_held-same s t v c b a =
      let self : (v == v) ≡ true = ground arith in
      record { command = rw self; calls = rw (self, a.calls) }

  run_new-same :
      (s t : Runner C) (v : ℕ) (c : C) (b : Bytes)
      → Agree v s t
      → Agree v (run_new center s v c b) (run_new center t v c b)
  unfolding run_new
  run_new-same s t v c b a = elim (Bool-cases (center.finished c)) [
    | inl e ↦
        let self : (v == v) ≡ true = ground arith in
        rw e (record { command = a.command; calls = rw (self, a.calls) })
    | inr e ↦ rw e (run_held-same s t v c b a)
  ]

  start-same :
      (s t : Runner C) (v : ℕ) (b : DataBuffer)
      → Agree v s t
      → Agree v (start center s v b) (start center t v b)
  unfolding start
  start-same s t v b a =
      let n = get_next b 0 b in
      elim (Bool-cases n.found) [
        | inr e ↦ rw e a
        | inl e ↦ elim (Option-cases (center.command n.virtid n.next.bytes)) [
          | inl m ↦ rw (e, m) a
          | inr (c, m) ↦ rw (e, m) (run_new-same s t v (center.set_peer c) n.rest.bytes a)
        ]
      ]

  deliver-same :
      (s t : Runner C) (v : ℕ) (b : DataBuffer)
      → Agree v s t
      → Agree v (deliver center s v b) (deliver center t v b)
  unfolding deliver
  deliver-same s t v b a = elim (Option-cases (live center (s.commands v))) [
    | inl e ↦ rw (e, (rw a.command at e), deliver) (start-same s t v b a)
    | inr (c, e) ↦ rw (e, (rw a.command at e), deliver) (run_held-same s t v c b.bytes a)
  ]

  Agree-trans : (v : ℕ) (s t u : Runner C) → Agree v s t → Agree v t u → Agree v s u
  Agree-trans v s t u a b = record { command = a.command ∙ b.command; calls = a.calls ∙ b.calls }

  deliver_all-frames_of :
      (v : ℕ) (s t : Runner C) (fs : List Frame)
      → Agree v s t
      → Agree v (deliver_all center s fs) (deliver_all center t (frames_of v fs))
  deliver_all-frames_of v s t [] a = a
  deliver_all-frames_of v s t (f ∷ fs) a =
      let buff : DataBuffer = record { bytes = f.packet } in
      elim (Bool-cases (f.channel == v)) [
        | inl hit ↦
            let e : f.channel ≡ v = ground arith in
            rw (hit, e)
              (deliver_all-frames_of v (deliver center s v buff) (deliver center t v buff) fs
                (deliver-same s t v buff a))
        | inr miss ↦ rw miss (
            deliver_all-frames_of v (deliver center s f.channel buff) t fs (
              Agree-trans v (deliver center s f.channel buff) s t
                (deliver-other s v f.channel buff miss) a))
      ]

  FitIn-frames_of : (n v : ℕ) (fs : List Frame) → FitIn n fs → FitIn n (frames_of v fs)
  FitIn-frames_of n v [] fit = tt
  FitIn-frames_of n v (f ∷ fs) fit = ground (arith, FitIn-frames_of n v fs fit.1)

  -- The runner hands the buffers of a channel to the command of that channel alone. However the
  -- frames of several channels are interleaved in a packet, and if what a command does depends on
  -- its own state and buffers only, the command of a channel ends as it would if the packet held
  -- the frames of that channel alone, and the calls made on that channel are the same. What
  -- commands do to each other through the store that they share is not part of this. The frames
  -- are shorter than 65535.
  pub parse_and_run-Agree :
      (v : ℕ) (s : Runner C) (fs : List Frame)
      → FitIn 65535 fs
      → Agree v (parse_and_run center s (wire fs)) (parse_and_run center s (wire (frames_of v fs)))
  parse_and_run-Agree v s fs fit =
      rw
        (
          parse_and_run-wire center s fs fit,
          parse_and_run-wire center s (frames_of v fs) (FitIn-frames_of 65535 v fs fit),
        )
        (deliver_all-frames_of v s s fs (record { command = refl; calls = refl }))
