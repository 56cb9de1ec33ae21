-- ===== src/Tests/Batches.antt =====
-- The output of batched commands, on the texts of the repository's own test and others.
use git_cinnabar.Common.{◌≡◌, ◌≢◌, refl, codes, arith}
use git_cinnabar.Connect.{Unescaped, unescape_batched_output}
use git_cinnabar.Connect.Ends.{unescape_batched_output-ends, unescape_batched_output-panics}
use git_cinnabar.Connect.Escape.{escape, unescape_batched_output-escape}

unknown_letter : unescape_batched_output (codes "abc:def:") ≡ Unescaped.done (codes "abc:def:")
unfolding unescape_batched_output
unknown_letter = refl

known_letters :
    unescape_batched_output (codes "abc:edef:c:s:e:oz") ≡ Unescaped.done (codes "abc=def:;=,z")
unfolding unescape_batched_output
known_letters = refl

unescape_batched_output-escape_example :
    unescape_batched_output (escape (codes "a=b;c,d:")) ≡ Unescaped.done (codes "a=b;c,d:")
unescape_batched_output-escape_example = unescape_batched_output-escape (codes "a=b;c,d:")

unescape_batched_output-ends_example :
    unescape_batched_output (codes "a:x:") ≢ Unescaped.out_of_fuel
unescape_batched_output-ends_example = unescape_batched_output-ends (codes "a:x:")

unescape_batched_output-panics_example :
    unescape_batched_output (codes "a:bc:sx") ≡ Unescaped.panics
unescape_batched_output-panics_example =
    unescape_batched_output-panics (codes "a") (codes "c") (codes "x") b'b' b's' b';' (ground arith)
      (ground arith) refl (omega arith) refl refl (omega arith)
