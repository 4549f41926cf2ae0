-- ===== src/Tests/UserServer.antt =====
-- A request to a command that fails on its second buffer:
-- src/lib/user_server/UserCommandContext.cpp.
use turbopump.Prelude.{ℕ, suc, ◌≡◌, ◌≢◌, [], ◌∷◌, some, ltb, arith}
use turbopump.UserServer.UserCommandContext.{Codes, Handler, fresh, select, serve}
use turbopump.UserServer.UserCommandContext.Answer.{Laws, reply, serve-reply}

abbrev http : Codes
http = record {
  success = 200;
  bad_request = 400;
  not_acceptable = 406;
  request_uri_too_long = 414;
  internal_server_error = 500;
}

http-Laws : Laws http
http-Laws = record {
  success = omega arith;
  bad_request = omega arith;
  internal_server_error = omega arith;
}

abbrev counting : Handler
counting = record {
  Command = ℕ;
  components = λ url. url ∷ [];
  command = λ name url. some 0;
  run = λ c b. (ltb c 1, suc c);
  status = λ c. 0;
}

serve-reply_example :
    (serve http counting
        (record (fresh http counting) { sent = 200 ∷ [] })
        ((1 ∷ []) ∷ [])
        ((2 ∷ []) ∷ (3 ∷ []) ∷ [])
      ≡ some (record (fresh http counting) {
        sent =
            reply http counting
              (select http counting (fresh http counting).command (1 ∷ []))
              ((2 ∷ []) ∷ (3 ∷ []) ∷ [])
            ∷ 200
            ∷ [];
      }))
    × (reply http counting
          (select http counting (fresh http counting).command (1 ∷ []))
          ((2 ∷ []) ∷ (3 ∷ []) ∷ [])
        ≢ 0)
serve-reply_example =
    serve-reply http-Laws counting (200 ∷ []) ((1 ∷ []) ∷ []) ((2 ∷ []) ∷ (3 ∷ []) ∷ [])
      (omega arith)
