-- ===== src/Interpret/Machine/AssignCode/Source.antt =====
-- The source that `op_assigncodeitem` (src/interpret.c) puts together again.
use sin.Interpret.Machine.AssignCode.{params_length, separated, source_text, source_room}
use sin.Prelude.{
  ◌+◌, ◌*◌, ◌≤◌, ◌<◌, List, [], ◌∷◌, ◌++◌, length, length-append, Bytes, codes, c_string, arith,
}

length-c_string : (s : Bytes) → length (c_string s) ≤ length s
unfolding c_string
length-c_string [] = omega arith
length-c_string (c ∷ s) = ground (arith, length-c_string s)

length-separated :
    (p : Bytes) (ps : List Bytes)
    → length (separated (p ∷ ps)) + 2 ≤ params_length (p ∷ ps) + 2 * length (p ∷ ps)
unfolding separated params_length
length-separated p [] =
    let e = length-append (c_string p) [] in let h = length-c_string p in omega arith
length-separated p (q ∷ ps) =
    let h = length-c_string p in
    let ih = length-separated q ps in
    let e = length-append (c_string p) (codes ", " ++ separated (q ∷ ps)) in omega arith

-- The buffer for the source of an item has room for the text and its null, whatever the parameters and
-- the source are.
pub source_text-lt-source_room :
    (params : List Bytes) (source : Bytes)
    → length (source_text params source) < source_room params source
unfolding source_text source_room params_length
source_text-lt-source_room [] source =
    let h = length-c_string source in
    let e = length-append (c_string source) (codes ");\n") in omega arith
source_text-lt-source_room (p ∷ ps) source =
    let h = length-c_string source in
    let s = length-separated p ps in
    let e = length-append (c_string source) (codes ");\n") in
    let e' =
      length-append (separated (p ∷ ps)) (codes "} (" ++ (c_string source ++ codes ");\n")) in
    omega arith
