-- ===== src/GitCommit/Body.antt =====
-- The empty line between the header and the body of a commit or a changeset (src/git/commit.rs).
use git_cinnabar.Common.{
  ℕ, ◌≡◌, ◌≢◌, refl, List, [], ◌∷◌, ◌++◌, Bytes, Lacks, All, some, append_assoc, arith,
}
use git_cinnabar.Util.Splits.{join}
use git_cinnabar.Store.Lines.{newline, IsLine}
use git_cinnabar.GitCommit.{split_body}

split_body-Lacks :
    (l body : Bytes)
    → Lacks newline l
    → split_body (l ++ newline ∷ (newline ∷ body)) ≡ some (l, body)
unfolding split_body
split_body-Lacks [] body h = refl
split_body-Lacks (c ∷ []) body (h, _) = ground arith
split_body-Lacks (c ∷ (d ∷ l)) body (h, hs) = ground (arith, split_body-Lacks (d ∷ l) body hs)

split_body-line :
    (l : Bytes) (e : ℕ) (t x body : Bytes)
    → Lacks newline l
    → e ≢ newline
    → split_body (e ∷ t) ≡ some (x, body)
    → split_body (l ++ newline ∷ (e ∷ t)) ≡ some (l ++ newline ∷ x, body)
unfolding split_body
split_body-line [] e t x body h ne k = ground arith
split_body-line (c ∷ []) e t x body (h, _) ne k = ground arith
split_body-line (c ∷ (d ∷ l)) e t x body (h, hs) ne k =
    ground (arith, split_body-line (d ∷ l) e t x body hs ne k)

-- Lines that are not empty, and behind them an empty one.
pub split_body-join :
    (l : Bytes) (ls : List Bytes) (body : Bytes)
    → All IsLine (l ∷ ls)
    → split_body (join newline (l ∷ ls) ++ newline ∷ (newline ∷ body))
      ≡ some (join newline (l ∷ ls), body)
split_body-join [] ls body (h, _) = absurd h
split_body-join (c ∷ l) [] body ((lacks, _), _) = split_body-Lacks (c ∷ l) body lacks
split_body-join (c ∷ l) ([] ∷ ls) body (_, (h, _)) = absurd h
split_body-join (c ∷ l) ((d ∷ m) ∷ []) body ((lacks, _), (h, hs)) =
    rw (append_assoc (c ∷ l) (newline ∷ (d ∷ m)) (newline ∷ (newline ∷ body)))
      (split_body-line (c ∷ l) d _ _ body lacks h.0.0 (split_body-join (d ∷ m) [] body (h, hs)))
split_body-join (c ∷ l) ((d ∷ m) ∷ (n ∷ ls)) body ((lacks, _), (h, hs)) =
    rw
      (append_assoc (c ∷ l) (newline ∷ join newline ((d ∷ m) ∷ (n ∷ ls)))
        (newline ∷ (newline ∷ body)))
      (split_body-line (c ∷ l) d _ _ body lacks h.0.0
        (split_body-join (d ∷ m) (n ∷ ls) body (h, hs)))
