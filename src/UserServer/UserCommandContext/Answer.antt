-- ===== src/UserServer/UserCommandContext/Answer.antt =====
-- src/lib/user_server/UserCommandContext.cpp: what a request is answered.
use turbopump.Prelude.{
  ℕ, zero, suc, ◌+◌, ◌%◌, ◌^◌, ◌≤◌, ◌≡◌, ◌≢◌, refl, ◌∙◌, ap, Bool, true, false, Bytes, List, [],
  ◌∷◌, ◌++◌, append_assoc, append-nil, Option, none, some, length, length-append, ltb, ◌==◌,
  if◌then◌else◌, arith, ne→==_false,
}
use turbopump.UserServer.UserCommandContext.{
  Codes, Handler, Context, fresh, on_url, select, on_begin, body_status, run_body, on_body, run_end,
  on_complete, feed_url, feed_body, serve,
}

-- The status codes are not 0.
pub record Laws (codes : Codes) : Type 0 where
  pub success : codes.success ≢ 0
  pub bad_request : codes.bad_request ≢ 0
  pub internal_server_error : codes.internal_server_error ≢ 0

abbrev pub concat : List Bytes → Bytes
concat [] = []
concat (b ∷ bs) = b ++ concat bs

-- What a command is to answer for the parts of a body: its own status as soon as it has one, an
-- error as soon as it fails without one, and success if neither happens up to the last run.
abbrev pub answer : (codes : Codes) (h : Handler) → h.Command → List Bytes → ℕ
answer codes h c [] =
    let (res, c') = h.run c [] in
    if h.status c' == 0
    then (if res then codes.success else codes.internal_server_error)
    else h.status c'
answer codes h c (b ∷ bs) =
    let (res, c') = h.run c b in
    let later = answer codes h c' bs in
    if h.status c' == 0 then (if res then later else codes.internal_server_error) else h.status c'

abbrev pub reply : (codes : Codes) (h : Handler) → Option h.Command → List Bytes → ℕ
reply codes h none bodies = codes.bad_request
reply codes h (some c) bodies = answer codes h c bodies

module _ {codes : Codes} (laws : Laws codes) (h : Handler) where
  C : Type 0
  C = Context codes h

  answer-nonzero : (c : h.Command) (bodies : List Bytes) → answer codes h c bodies ≢ 0
  answer-nonzero c [] = ground (arith, laws.success, laws.internal_server_error)
  answer-nonzero c (b ∷ bs) =
      ground (arith, laws.success, laws.internal_server_error, answer-nonzero (h.run c b).1 bs)

  reply-nonzero : (o : Option h.Command) (bodies : List Bytes) → reply codes h o bodies ≢ 0
  reply-nonzero none bodies = laws.bad_request
  reply-nonzero (some c) bodies = answer-nonzero c bodies

  feed_url-concat :
      (url : Bytes) (sent : List ℕ) (urls : List Bytes)
      → length url + length (concat urls) ≤ 8192
      → feed_url codes h (record { status = 0; url = url; command = none; sent = sent }) urls
        ≡ some (record { status = 0; url = url ++ concat urls; command = none; sent = sent })
  unfolding feed_url on_url
  feed_url-concat url sent [] fits = rw (append-nil url) refl
  feed_url-concat url sent (b ∷ bs) fits =
      let lens = length-append b (concat bs) in
      let short : ltb 8192 ((length url + length b) % 2 ^ 64) ≡ false = ground (arith, lens) in
      let later = feed_url-concat (url ++ b) sent bs (omega (arith, lens, length-append url b)) in
      rw (short, ← append_assoc url b (concat bs)) later

  complete_nonzero :
      (url : Bytes) (cmd : Option h.Command) (sent : List ℕ) (status : ℕ)
      → status ≢ 0
      → on_complete codes h (record { status = status; url = url; command = cmd; sent = sent })
        ≡ record (fresh codes h) { sent = status ∷ sent }
  unfolding on_complete
  complete_nonzero url cmd sent status nz =
      rw (ne→==_false status 0 nz, ne→==_false status 0 nz) refl

  -- Once there is a status, the rest of the body is passed over.
  feed_body_nonzero :
      (c : Context codes h) (bodies : List Bytes) → c.status ≢ 0 → feed_body codes h c bodies ≡ c
  unfolding feed_body on_body
  feed_body_nonzero c [] nz = refl
  feed_body_nonzero c (b ∷ bs) nz = rw (ne→==_false c.status 0 nz) (feed_body_nonzero c bs nz)

  complete-end :
      (url : Bytes) (cmd : h.Command) (sent : List ℕ)
      → on_complete codes h (record { status = 0; url = url; command = some cmd; sent = sent })
        ≡ record (fresh codes h) { sent = answer codes h cmd [] ∷ sent }
  unfolding on_complete run_end
  complete-end url cmd sent = rw (ne→==_false _ 0 (answer-nonzero cmd [])) refl

  stopped :
      (url : Bytes) (cmd : Option h.Command) (sent : List ℕ) (status : ℕ) (bodies : List Bytes)
      → status ≢ 0
      → on_complete codes h (
          feed_body codes h
            (record { status = status; url = url; command = cmd; sent = sent })
            bodies)
        ≡ record (fresh codes h) { sent = status ∷ sent }
  stopped url cmd sent status bodies nz =
      ap (on_complete codes h) (feed_body_nonzero _ bodies nz)
      ∙ complete_nonzero url cmd sent status nz

  feed_body_step :
      (url : Bytes) (cmd : h.Command) (sent : List ℕ) (bodies : List Bytes) (res : Bool)
      (status : ℕ)
      → on_complete codes h (
          feed_body codes h
            (record { status = 0; url = url; command = some cmd; sent = sent })
            bodies)
        ≡ record (fresh codes h) { sent = answer codes h cmd bodies ∷ sent }
      → on_complete codes h (
          feed_body codes h
            (record {
              status = body_status codes h res status;
              url = url;
              command = some cmd;
              sent = sent;
            })
            bodies)
        ≡ record (fresh codes h) {
          sent =
              (if status == 0
                then (if res then answer codes h cmd bodies else codes.internal_server_error)
                else status)
              ∷ sent;
        }
  feed_body_step url cmd sent bodies true zero later = later
  feed_body_step url cmd sent bodies false zero later =
      stopped url (some cmd) sent codes.internal_server_error bodies laws.internal_server_error
  feed_body_step url cmd sent bodies res (suc n) later =
      rw (ne→==_false (suc n) 0 (omega arith))
        (stopped url (some cmd) sent (suc n) bodies (omega arith))

  feed_body-answer :
      (url : Bytes) (cmd : h.Command) (sent : List ℕ) (bodies : List Bytes)
      → on_complete codes h (
          feed_body codes h
            (record { status = 0; url = url; command = some cmd; sent = sent })
            bodies)
        ≡ record (fresh codes h) { sent = answer codes h cmd bodies ∷ sent }
  unfolding feed_body on_body run_body
  feed_body-answer url cmd sent [] = complete-end url cmd sent
  feed_body-answer url cmd sent (b ∷ bs) =
      let (res, cmd') = h.run cmd b in
      feed_body_step url cmd' sent bs res (h.status cmd') (feed_body-answer url cmd' sent bs)

  begun :
      (url : Bytes) (sent : List ℕ) (o : Option h.Command) (bodies : List Bytes)
      → select codes h none url ≡ o
      → on_complete codes h (
          feed_body codes h
            (on_begin codes h (record { status = 0; url = url; command = none; sent = sent }))
            bodies)
        ≡ record (fresh codes h) { sent = reply codes h o bodies ∷ sent }
  begun url sent none bodies e =
      unfold on_begin in
      rw (e, on_begin) (stopped url none sent codes.bad_request bodies laws.bad_request)
  begun url sent (some cmd) bodies e =
      unfold on_begin in rw (e, on_begin) (feed_body-answer url cmd sent bodies)

  -- A request whose URL has no more than 8192 bytes, in however many parts it and the body come,
  -- gets exactly one response, and leaves the context as it was before, ready for the next one. The
  -- response is not 0: it is that of the command for the URL, or a bad request if there is none.
  -- The command's first status ends its run, and a failure without a status is an internal error.
  pub serve-reply :
      (sent : List ℕ) (urls bodies : List Bytes)
      → length (concat urls) ≤ 8192
      → (serve codes h (record (fresh codes h) { sent = sent }) urls bodies
          ≡ some (record (fresh codes h) {
            sent = reply codes h (select codes h none (concat urls)) bodies ∷ sent;
          }))
        × (reply codes h (select codes h none (concat urls)) bodies ≢ 0)
  serve-reply sent urls bodies fits =
      let fed = feed_url-concat [] sent urls (omega arith) in
      let done = begun (concat urls) sent (select codes h none (concat urls)) bodies refl in
      (unfold serve in rw (fed, serve) (ap some done), reply-nonzero _ bodies)
