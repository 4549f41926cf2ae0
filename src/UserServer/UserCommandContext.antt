-- ===== src/UserServer/UserCommandContext.antt =====
-- src/lib/user_server/UserCommandContext.cpp. `_params`, which is only ever cleared, is left out.
pub mod Answer
use turbopump.Prelude.{
  ℕ, ◌+◌, ◌%◌, ◌^◌, Bool, true, false, not, ◌&&◌, Bytes, List, [], ◌∷◌, ◌++◌, Option, none, some,
  length, ltb, ◌==◌, if◌then◌else◌,
}

-- The constants of StatusCode in the library beside the program.
pub record Codes : Type 0 where
  pub success : ℕ
  pub bad_request : ℕ
  pub not_acceptable : ℕ
  pub request_uri_too_long : ℕ
  pub internal_server_error : ℕ

-- What the context calls: Url of the library beside the program, the handler, and the commands that
-- it gives. A run with no buffer is one with the empty buffer.
pub record Handler : Type 1 where
  pub Command : Type 0
  -- Url::components
  pub components : Bytes → List Bytes
  -- the command for a first component and the parameters of a URL
  pub command : Bytes → Bytes → Option Command
  pub run : Command → Bytes → Bool × Command
  pub status : Command → ℕ

module _ (codes : Codes) (h : Handler) where
  -- `sent` keeps the responses, the last first.
  pub record Context : Type 0 where
    pub status : ℕ
    pub url : Bytes
    pub command : Option h.Command
    pub sent : List ℕ

  abbrev pub fresh : Context
  fresh = record { status = 0; url = []; command = none; sent = [] }

  -- Whether the parser is told to stop.
  unfoldable pub on_url : Context → Bytes → Bool × Context
  on_url c buff = elim c.command [
    | some command ↦ (true, c)
    | none ↦
        if ltb 8192 ((length c.url + length buff) % 2 ^ 64)
        then (true, record c { status = codes.request_uri_too_long })
        else (false, record c { url = c.url ++ buff })
  ]

  -- `_command` behind the selection, which leaves it alone on a URL with no components.
  unfoldable pub select : Option h.Command → Bytes → Option h.Command
  select held url = elim (h.components url) [ [] ↦ held | p ∷ rest ↦ h.command p url ]

  unfoldable pub on_begin : Context → Context
  on_begin c = elim (select c.command c.url) [
    | none ↦ record c { command = none; status = codes.bad_request }
    | some command ↦ record c { command = some command }
  ]

  -- The status behind a run on a part of the body.
  abbrev pub body_status : Bool → ℕ → ℕ
  body_status res status = if status == 0 && not res then codes.internal_server_error else status

  unfoldable pub run_body : Context → Bytes → Option h.Command → Context
  run_body c buff none = c
  run_body c buff (some command) =
      let (res, command') = h.run command buff in
      record c { command = some command'; status = body_status res (h.status command') }

  unfoldable pub on_body : Context → Bytes → Context
  on_body c buff = let ran = run_body c buff c.command in if c.status == 0 then ran else c

  -- The status behind the last run.
  abbrev pub end_status : Bool → ℕ → ℕ
  end_status res status =
      if status == 0 then (if res then codes.success else codes.internal_server_error) else status

  unfoldable pub run_end : ℕ → Option h.Command → ℕ
  run_end status none = status
  run_end status (some command) =
      let (res, command') = h.run command [] in end_status res (h.status command')

  unfoldable pub on_complete : Context → Context
  on_complete c =
      let ran = run_end c.status c.command in
      let status = if c.status == 0 then ran else c.status in
      let answer = if status == 0 then codes.not_acceptable else status in
      record fresh { sent = answer ∷ c.sent }

  -- The calls that the parser makes for the parts of a URL, unless one tells it to stop.
  unfoldable pub feed_url : Context → List Bytes → Option Context
  feed_url c [] = some c
  feed_url c (buff ∷ rest) =
      let (stop, c') = on_url c buff in let later = feed_url c' rest in if stop then none else later

  unfoldable pub feed_body : Context → List Bytes → Context
  feed_body c [] = c
  feed_body c (buff ∷ rest) = feed_body (on_body c buff) rest

  -- The calls for a whole request.
  unfoldable pub serve : Context → List Bytes → List Bytes → Option Context
  serve c urls bodies = elim (feed_url c urls) [
    | none ↦ none
    | some c' ↦ some (on_complete (feed_body (on_begin c') bodies))
  ]
