-- ===== src/Storage/FileReader.antt =====
-- src/lib/storage/FileReader.cpp, on a file that can be read: `content` is what it holds, and
-- reads from it return all that is asked for up to its end.
use turbopump.Prelude.{
  ℕ, ◌+◌, ◌^◌, Bool, true, false, not, ◌&&◌, Bytes, [], ◌∷◌, length, take, drop, Option, none, some,
  ltb, leb, ◌==◌, if◌then◌else◌,
}
use turbopump.Wire.Socket.{ℤ, pos}
use turbopump.PeerClient.ConnectionWriteStream.{Writer, Stream, max_packet_length, write}

pub record FileReader : Type 0 where
  pub content : Bytes
  pub position : ℕ

abbrev pub size : FileReader → ℕ
size r = length r.content

-- lseek64 takes no offset that does not fit into 63 bits.
unfoldable pub set_position : FileReader → ℕ → Bool × FileReader
set_position r offset =
    if ltb offset (2 ^ 63) then (true, record r { position = offset }) else (false, r)

-- `open`, and the constructor with a name: none for a reader that is not good. `content_of` is what
-- can be read of the file with the name, none if it cannot be opened.
unfoldable pub open_file : (content_of : Bytes → Option Bytes) → Bytes → ℕ → Option FileReader
open_file content_of filename offset = elim (content_of filename) [
  | none ↦ none
  | some content ↦
      let r : FileReader = record { content = content; position = 0 } in
      let (moved, r') = set_position r offset in
      if not (offset == 0) && not moved then none else some r'
]

-- `attribute`: `stored` is what the file has under the key. attr_getf fails if there is none, or if
-- it is longer than the buffer.
unfoldable pub attribute : (stored : Bytes → Option Bytes) → Bytes → Bytes
attribute stored key = elim (stored key) [
  | none ↦ []
  | some value ↦ if leb (length value) 200 then value else []
]

module _ (w : Writer) where
  -- The sink is a connection's stream, as in WriteSupervisor::store.
  unfoldable pub stream : FileReader → Stream w → ℤ × FileReader × Stream w
  stream r sink =
      let buff = take (max_packet_length w sink) (drop r.position r.content) in
      let (sent, sink') = write w sink buff in
      elim buff as (λ _. ℤ × FileReader × Stream w) [
        | [] ↦ (pos 0, r, sink)
        | x ∷ xs ↦ (sent, record r { position = r.position + length buff }, sink')
      ]
