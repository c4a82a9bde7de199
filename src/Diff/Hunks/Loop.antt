-- ===== src/Diff/Hunks/Loop.antt =====
-- The loop of `parseDiffHunks`: an invariant that each kind of round keeps holds at the end.
use open_pi.Prelude.{
  ◌+◌, ◌≡◌, refl, subst, inl, inr, true, not, ◌&&◌, Option, none, some, List, [], ◌∷◌, ◌++◌, foldl,
  append_assoc, append-nil, arith, Bool-cases, is_some,
}
use open_pi.Text.{Text, split}
use open_pi.Diff.{is_hunk_line, is_header_line, is_add_line, is_del_line}
use open_pi.Diff.Hunks.{
  Parsing, DiffHunk, open_hunk, push_header, synthetic, push_add, push_del, push_ctx, push_body,
  body_line, parse_line, start,
}

-- the state with a hunk made for a diff that has no `@@` line
abbrev pub with_synthetic : Parsing → Parsing
with_synthetic p = record p {
  hunk_counter = p.hunk_counter + 1;
  current_hunk = some (synthetic (p.hunk_counter + 1));
}

-- `P p done`: the state `p` after the lines `done`
module _ (P : Parsing → List Text → Type 0)
    (opens : (p : Parsing) (done : List Text) (raw : Text)
      → P p done
      → P (open_hunk raw p) (done ++ raw ∷ []))
    (heads : (p : Parsing) (done : List Text) (raw : Text)
      → P p done
      → p.current_hunk ≡ none
      → P (push_header raw p) (done ++ raw ∷ []))
    (creates : (p : Parsing) (done : List Text)
      → P p done
      → p.current_hunk ≡ none
      → P (with_synthetic p) done)
    (adds : (p : Parsing) (done : List Text) (raw : Text) (h : DiffHunk)
      → P p done
      → p.current_hunk ≡ some h
      → is_add_line raw ≡ true
      → P (push_add raw h p) (done ++ raw ∷ []))
    (dels : (p : Parsing) (done : List Text) (raw : Text) (h : DiffHunk)
      → P p done
      → p.current_hunk ≡ some h
      → is_del_line raw ≡ true
      → P (push_del raw h p) (done ++ raw ∷ []))
    (keeps : (p : Parsing) (done : List Text) (raw : Text) (h : DiffHunk)
      → P p done
      → p.current_hunk ≡ some h
      → P (push_ctx raw h p) (done ++ raw ∷ [])) where
  body-P :
      (p : Parsing) (done : List Text) (raw : Text) (h : DiffHunk)
      → P p done
      → p.current_hunk ≡ some h
      → P (push_body raw h p) (done ++ raw ∷ [])
  unfolding push_body
  body-P p done raw h i e = elim (Bool-cases (is_add_line raw)) [
    | inl a ↦ rw a (adds p done raw h i e a)
    | inr a ↦ elim (Bool-cases (is_del_line raw)) [
      | inl d ↦ rw (a, d) (dels p done raw h i e d)
      | inr d ↦ rw (a, d) (keeps p done raw h i e)
    ]
  ]

  body_line-P :
      (p : Parsing) (done : List Text) (raw : Text) (o : Option DiffHunk)
      → P p done
      → p.current_hunk ≡ o
      → P (body_line o raw p) (done ++ raw ∷ [])
  unfolding body_line push_body push_add push_del push_ctx
  body_line-P p done raw none i e =
      body-P (with_synthetic p) done raw (synthetic (p.hunk_counter + 1)) (creates p done i e) refl
  body_line-P p done raw (some h) i e = body-P p done raw h i e

  parse_line-P :
      (p : Parsing) (done : List Text) (raw : Text)
      → P p done
      → P (parse_line p raw) (done ++ raw ∷ [])
  unfolding parse_line
  parse_line-P p done raw i = elim (Bool-cases (is_hunk_line raw)) [
    | inl a ↦ rw a (opens p done raw i)
    | inr a ↦ elim (Bool-cases (not (is_some p.current_hunk) && is_header_line raw)) [
      | inl b ↦ rw (a, b) (heads p done raw i (ground arith))
      | inr b ↦ rw (a, b) (body_line-P p done raw p.current_hunk i refl)
    ]
  ]

  foldl-P :
      (p : Parsing) (done raws : List Text) → P p done → P (foldl parse_line p raws) (done ++ raws)
  foldl-P p done [] i = rw append-nil i
  foldl-P p done (raw ∷ raws) i =
      subst (P (foldl parse_line (parse_line p raw) raws)) (append_assoc done (raw ∷ []) raws)
        (foldl-P (parse_line p raw) (done ++ raw ∷ []) raws (parse_line-P p done raw i))

  -- what holds of the state behind the last line, before the last hunk is closed
  pub loop_inv :
      (t : Text) → P start [] → P (foldl parse_line start (split b'\n' t)) (split b'\n' t)
  loop_inv t i = foldl-P start [] (split b'\n' t) i
