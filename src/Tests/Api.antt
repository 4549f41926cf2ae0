-- ===== src/Tests/Api.antt =====
-- An upload into a store in memory: src/lib/api/WriteCommand.cpp.
use turbopump.Prelude.{refl, true, Bytes, [], ◌∷◌, ◌++◌, some, codes, length, arith}
use turbopump.Api.Instructions.{Instructions, fresh}
use turbopump.Storage.Streams.{Streams, IsReliable}
use turbopump.Api.WriteCommand.{new, run}
use turbopump.Api.WriteCommand.Open.{Ended}
use turbopump.Api.WriteCommand.Upload.{feed, run-upload}

-- A store whose streams keep what is written to them.
abbrev pub memory : Streams
memory = record {
  Writer = Bytes;
  Reader = Bytes;
  unopened = [];
  good = λ w. true;
  position = λ w. length w;
  write = λ w b. w ++ b;
  commit = λ w close. (some w, w);
  version = λ r. codes "1,a:1";
  digest = λ r. length r;
  open_write = λ name version copies offset. [];
}

unfoldable pub memory-IsReliable : IsReliable memory
memory-IsReliable = record {
  written = λ w. w;
  written-write = λ w b. refl;
  written-commit = λ w close. refl;
  commits = λ w close. (w, refl);
}

abbrev pub ignore : Instructions → Bytes → Instructions
ignore i r = i

abbrev put_a : Instructions
put_a = record fresh { name = codes "a" }

run-upload_example :
    Ended memory-IsReliable ignore
      (λ i x. refl)
      []
      (1 ∷ 2 ∷ 3 ∷ [])
      (run memory ignore
        (feed memory ignore
          (run memory ignore (new memory ignore put_a) (1 ∷ [])).1
          ((2 ∷ 3 ∷ []) ∷ []))
        [])
unfolding memory-IsReliable
run-upload_example =
    run-upload memory-IsReliable ignore (λ i x. refl) put_a (1 ∷ []) ((2 ∷ 3 ∷ []) ∷ []) refl refl
      refl (omega arith) (omega arith, omega arith, tt)
