-- ===== src/Markdown/Fenced.antt =====
-- apps/desktop/web/lib/markdown.tsx: a block of code in fences.
use open_pi.Prelude.{◌≡◌, refl, ap, ◌∙◌, true, false, not, some, List, [], ◌∷◌, ◌++◌, span, All}
use open_pi.Text.{Text, units, join, trim, starts_with}
use open_pi.Markdown.{is_fence}
use open_pi.Markdown.Blocks.{code_block, language, read_code, next_block}
use open_pi.Markdown.Fuel.{blocks_of, blocks_of_cons}

-- a line that opens or closes no fence
abbrev pub IsCode : Text → Type 0
IsCode line = is_fence line ≡ false

span_code :
    (body : List Text) (close : Text) (rest : List Text)
    → All IsCode body
    → is_fence close ≡ true
    → span (λ l. not (is_fence l)) (body ++ close ∷ rest) ≡ (body, close ∷ rest)
span_code [] close rest h e = rw (e, span) refl
span_code (l ∷ body) close rest (h, hs) e =
    rw (h, span)
      (ap (λ (p : List Text × List Text). (l ∷ p.0, p.1)) (span_code body close rest hs e))

-- If a line opens a fence, no line of the body is a fence, and the next line is, then the first
-- block is the body as code, whatever its lines look like, and what follows is read on its own.
pub blocks_of_fenced :
    (line : Text) (body : List Text) (close : Text) (rest : List Text)
    → starts_with (trim line) (units "```") ≡ true
    → All IsCode body
    → is_fence close ≡ true
    → blocks_of (line ∷ body ++ close ∷ rest)
      ≡ code_block (join (b'\n' ∷ []) body) (language line) ∷ blocks_of rest
unfolding next_block read_code
blocks_of_fenced line body close rest begins code closes =
    let all = body ++ close ∷ rest in
    let first : next_block line all ≡ read_code line all = rw (begins, next_block) refl in
    let read : read_code line all
        ≡ (some (code_block (join (b'\n' ∷ []) body) (language line)), rest) =
      rw (span_code body close rest code closes, read_code) refl in
    blocks_of_cons line all ∙ rw (first ∙ read) refl
