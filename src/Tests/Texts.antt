-- ===== src/Tests/Texts.antt =====
-- The theorems about what is printed at concrete inputs.
use dnswire.Prelude.{false, ℕ, ◌≡◌, arith, Bool, ◌&&◌, leb, refl, [], ◌∷◌, replicate}
use dnswire.Exec.{Bytes, Ensures}
use dnswire.Dnstap.{initializer, decode_protobuf}
use dnswire.Names.Bounds.{IsNamed, decode_protobuf-IsNamed}
use dnswire.Tests.Toy.{toy_protobuf, some_unpacked}
use dnswire.Trace.{printable_string}
use dnswire.Print
use dnswire.Trace.Text.{Printed, c_string, printable_string_lem}
use dnswire.Print.Same.{AreBytes, printable_string-Same}

-- `isprint` of the C locale.
abbrev ascii : ℕ → Bool
ascii c = leb 32 c && leb c 126

printable_string_lem_example :
    Ensures
      (Printed ascii (104 ∷ 0 ∷ 105 ∷ []))
      (printable_string ascii (104 ∷ 0 ∷ 105 ∷ []) (replicate 512 7))
printable_string_lem_example =
    printable_string_lem ascii refl (104 ∷ 0 ∷ 105 ∷ []) (replicate 512 7) refl

abbrev bytes : Bytes
bytes = 104 ∷ 200 ∷ 105 ∷ []

bytes-AreBytes : AreBytes bytes
bytes-AreBytes = ground arith

printable_string-Same_example :
    Ensures
      (λ x.
        Ensures
          (λ y. c_string x ≡ c_string y)
          (Print.printable_string ascii bytes (replicate 512 8)))
      (printable_string ascii bytes (replicate 512 7))
printable_string-Same_example =
    printable_string-Same ascii bytes (replicate 512 7) (replicate 512 8) bytes-AreBytes refl refl

decode_protobuf-IsNamed_example :
    Ensures
      (λ r. (r.0 ≡ false) × IsNamed some_unpacked r.1)
      (decode_protobuf toy_protobuf (initializer toy_protobuf) (5 ∷ []))
unfolding initializer
decode_protobuf-IsNamed_example =
    decode_protobuf-IsNamed toy_protobuf (initializer toy_protobuf) (5 ∷ []) some_unpacked refl refl
