-- ===== src/Store/Metadata/Text.antt =====
-- The text of the metadata of a changeset is made of lines (src/store.rs).
use git_cinnabar.Common.{
  ℕ, ◌≡◌, refl, ap, sym, ◌∙◌, inl, inr, List, [], ◌∷◌, ◌++◌, Bytes, codes, Option, none, some,
  if◌then◌else◌, append_assoc, Bool-cases,
}
use git_cinnabar.Util.Splits.{join}
use git_cinnabar.Oid.{Oid, is_null, display}
use git_cinnabar.Store.Lines.{newline}
use git_cinnabar.Store.Metadata.{GitChangesetMetadata, line, field_line, pop, buffer, serialize}

-- The lines of the text, without their newlines.
abbrev pub field_lines : Bytes → Option Bytes → List Bytes
field_lines key none = []
field_lines key (some value) = (key ++ value) ∷ []

unfoldable pub manifest_lines : Oid → List Bytes
manifest_lines o = if is_null o then [] else (codes "manifest " ++ display o) ∷ []

unfoldable pub later_lines : GitChangesetMetadata → List Bytes
unfolding manifest_lines
later_lines m =
    manifest_lines m.manifest_id
    ++ (field_lines (codes "author ") m.author
        ++ (field_lines (codes "extra ") m.extra
            ++ (field_lines (codes "files ") m.files ++ field_lines (codes "patch ") m.patch)))

-- Each line with its newline.
abbrev ended : List Bytes → Bytes
ended [] = []
ended (l ∷ ls) = l ++ newline ∷ ended ls

ended-append : (ks ls : List Bytes) → ended (ks ++ ls) ≡ ended ks ++ ended ls
ended-append [] ls = refl
ended-append (k ∷ ks) ls =
    ap (λ x. k ++ newline ∷ x) (ended-append ks ls)
    ∙ sym (append_assoc k (newline ∷ ended ks) (ended ls))

ended-field_lines : (key : Bytes) (o : Option Bytes) → ended (field_lines key o) ≡ field_line key o
ended-field_lines key none = refl
ended-field_lines key (some v) = append_assoc key v (newline ∷ [])

pop-cons :
    (l : Bytes) (x c : ℕ) (rest : Bytes) → pop (l ++ x ∷ (c ∷ rest)) ≡ l ++ x ∷ pop (c ∷ rest)
unfolding pop
pop-cons [] x c rest = refl
pop-cons (a ∷ []) x c rest = refl
pop-cons (a ∷ (b ∷ l)) x c rest = ap (◌∷◌ a) (pop-cons (b ∷ l) x c rest)

pop-last : (l : Bytes) (x : ℕ) → pop (l ++ x ∷ []) ≡ l
unfolding pop
pop-last [] x = refl
pop-last (a ∷ []) x = refl
pop-last (a ∷ (b ∷ l)) x = ap (◌∷◌ a) (pop-last (b ∷ l) x)

cons-of-ended :
    (l : Bytes) (ls : List Bytes) → (c : ℕ) × (rest : Bytes) × (ended (l ∷ ls) ≡ c ∷ rest)
cons-of-ended [] ls = (_, _, refl)
cons-of-ended (c ∷ l) ls = (_, _, refl)

pop-ended : (l : Bytes) (ls : List Bytes) → pop (ended (l ∷ ls)) ≡ join newline (l ∷ ls)
pop-ended l [] = pop-last l newline
pop-ended l (k ∷ ks) =
    let (c, rest, e) = cons-of-ended k ks in
    let moved : pop (l ++ newline ∷ (c ∷ rest)) ≡ l ++ newline ∷ pop (c ∷ rest) =
      pop-cons l newline c rest in
    let moved' : pop (l ++ newline ∷ ended (k ∷ ks)) ≡ l ++ newline ∷ pop (ended (k ∷ ks)) =
      rw (e) moved in
    moved' ∙ ap (λ x. l ++ newline ∷ x) (pop-ended k ks)

ended-line :
    (key value : Bytes) (ls : List Bytes) → line key value ++ ended ls ≡ ended ((key ++ value) ∷ ls)
ended-line key value ls =
    append_assoc key (value ++ newline ∷ []) (ended ls)
    ∙ ap (λ x. key ++ x) (append_assoc value (newline ∷ []) (ended ls))
    ∙ sym (append_assoc key value (newline ∷ ended ls))

ended-manifest_lines :
    (o : Oid)
    → ended (manifest_lines o) ≡ (if is_null o then [] else line (codes "manifest ") (display o))
unfolding manifest_lines
ended-manifest_lines o = elim (Bool-cases (is_null o)) [ inl e ↦ rw (e) refl | inr e ↦ rw (e) refl ]

buffer-ended :
    (m : GitChangesetMetadata)
    → buffer m ≡ ended ((codes "changeset " ++ display m.changeset_id) ∷ later_lines m)
unfolding buffer later_lines
buffer-ended m =
    let files = field_lines (codes "files ") m.files in
    let patch = field_lines (codes "patch ") m.patch in
    let extra = field_lines (codes "extra ") m.extra in
    let author = field_lines (codes "author ") m.author in
    let later : ended (later_lines m)
        ≡ (if is_null m.manifest_id then [] else line (codes "manifest ") (display m.manifest_id))
          ++ (field_line (codes "author ") m.author
              ++ (field_line (codes "extra ") m.extra
                  ++ (field_line (codes "files ") m.files
                      ++ field_line (codes "patch ") m.patch))) =
      rw (
        ended-append (manifest_lines m.manifest_id) (author ++ (extra ++ (files ++ patch))),
        ended-append author (extra ++ (files ++ patch)),
        ended-append extra (files ++ patch),
        ended-append files patch,
        ended-manifest_lines m.manifest_id,
        ended-field_lines (codes "author ") m.author,
        ended-field_lines (codes "extra ") m.extra,
        ended-field_lines (codes "files ") m.files,
        ended-field_lines (codes "patch ") m.patch,
      ) in
    ap (λ x. line (codes "changeset ") (display m.changeset_id) ++ x) (sym later)
    ∙ ended-line (codes "changeset ") (display m.changeset_id) (later_lines m)

pub serialize-join :
    (m : GitChangesetMetadata)
    → serialize m ≡ join newline ((codes "changeset " ++ display m.changeset_id) ∷ later_lines m)
unfolding serialize
serialize-join m =
    ap pop (buffer-ended m)
    ∙ pop-ended (codes "changeset " ++ display m.changeset_id) (later_lines m)
