-- ===== src/PeerServer/CommandRunner/Dispatch.antt =====
-- src/lib/peer_server/PeerCommandRunner.cpp: each frame of a well formed packet is delivered once,
-- in order, and no channel sees the frames of another.
use turbopump.Prelude.{
  ℕ, zero, suc, ◌≤◌, ◌≡◌, refl, true, List, [], ◌∷◌, ◌++◌, ltb, length, arith, length-append,
  lt→ltb,
}
use turbopump.Wire.DataBuffer
use turbopump.Wire.DataBuffer.{DataBuffer}
use turbopump.Wire.Frames.{Frame, wire, FitIn, length-pack}
use turbopump.Wire.MessagePacker.{pack}
use turbopump.Wire.RoundTrip.{get_next-pack}
use turbopump.PeerServer.CommandRunner.{Center, Runner, deliver, parse_loop, parse_and_run}

abbrev pub deliver_all : {C : Type 0} → Center C → Runner C → List Frame → Runner C
deliver_all center s [] = s
deliver_all center s (f ∷ fs) =
    deliver_all center (deliver center s f.channel (record { bytes = f.packet })) fs

module _ {C : Type 0} (center : Center C) where
  parse_loop-wire :
      (fuel : ℕ) (s : Runner C) (fs : List Frame) (buff : DataBuffer)
      → FitIn 65535 fs
      → length (wire fs) ≤ fuel
      → parse_loop center fuel s (record { bytes = wire fs }) buff ≡ deliver_all center s fs
  unfolding parse_loop
  parse_loop-wire zero s [] buff fit h = refl
  parse_loop-wire (suc fuel) s [] buff fit h = refl
  parse_loop-wire zero s (f ∷ fs) buff fit h = absurd (
      omega
        (arith, length-append (pack f.channel f.packet) (wire fs), length-pack f.channel f.packet))
  parse_loop-wire (suc fuel) s (f ∷ fs) buff fit h =
      let e1 = length-append (pack f.channel f.packet) (wire fs) in
      let e2 = length-pack f.channel f.packet in
      let some_bytes : ltb 0 (length (pack f.channel f.packet ++ wire fs)) ≡ true =
        lt→ltb 0 _ (omega arith) in
      rw (get_next-pack f.channel f.packet (wire fs) 0 buff fit.0, some_bytes)
        (parse_loop-wire fuel (deliver center s f.channel (record { bytes = f.packet })) fs
          (record { bytes = f.packet }) fit.1 (omega arith))

  -- On a packet that is a sequence of frames, each of at most 65534 bytes, the loop ends with
  -- every frame delivered once, in the order of the packet.
  pub parse_and_run-wire :
      (s : Runner C) (fs : List Frame)
      → FitIn 65535 fs
      → parse_and_run center s (wire fs) ≡ deliver_all center s fs
  unfolding parse_and_run
  parse_and_run-wire s fs fit =
      parse_loop-wire (length (wire fs)) s fs DataBuffer.null fit (omega arith)
