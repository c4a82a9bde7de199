-- ===== src/Markdown/Links.antt =====
-- apps/desktop/web/lib/markdown.tsx: what `renderInline` keeps of the text, and where its links lead.
use open_pi.Prelude.{
  ℕ, zero, suc, ◌+◌, ◌≡◌, refl, ap, sym, ◌∙◌, subst, Bool, true, not, ◌&&◌, ◌||◌, Option, none,
  some, List, [], ◌∷◌, ◌++◌, map, span, drop, length, flat_map, All, arith, Bool-cases,
  Option-cases, inl, inr, append_assoc, append-nil, length-append, ◌≤◌, if-then_else_lem, ◌==◌,
}
use open_pi.Text.{Text, units, is_empty, is_space, starts_with}
use open_pi.FileLinks.{ParsedFileLink, ParsedUrl, parse_file_link}
use open_pi.Markdown.Inline.{
  Token, link_token, code_token, strong_token, em_token, token_text, link_here, marked_here,
  or_token, token_here, Piece, plain_piece, token_piece, flush, pieces_from, pieces_of, Node,
  text_node, link_node, file_node, is_safe_href, token_node, piece_node, render_inline,
}

span-append {ℓ} :
    {A : Type ℓ} (test : A → Bool) (xs : List A) → xs ≡ (span test xs).0 ++ (span test xs).1
span-append test [] = refl
span-append test (x ∷ xs) = elim (Bool-cases (test x)) [
  | inl kept ↦ rw (kept, span) (ap (◌∷◌ x) (span-append test xs))
  | inr out ↦ rw (out, span) refl
]

starts_with-drop : (s mark : Text) → starts_with s mark ≡ true → s ≡ mark ++ drop (length mark) s
unfolding starts_with
starts_with-drop s [] h = refl
starts_with-drop [] (m ∷ mark) h = absurd (cc)
starts_with-drop (c ∷ s) (m ∷ mark) h =
    let same : c ≡ m = ground arith in
    let ih = starts_with-drop s mark (ground arith) in rw same (ap (◌∷◌ m) ih)

-- what a match was read from is its text and what follows
abbrev IsFrom : Text → Option (Token × Text) → Type 0
IsFrom s none = Unit
IsFrom s (some (t, rest)) = (s ≡ token_text t ++ rest) × (1 ≤ length (token_text t))

-- the parts of a link put together again
link_parts :
    (label rest href behind : Text)
    → starts_with rest (units "](") ≡ true
    → drop 2 rest ≡ href ++ behind
    → starts_with behind (units ")") ≡ true
    → b'[' ∷ label ++ rest ≡ token_text (link_token label href) ++ drop 1 behind
unfolding token_text
link_parts label rest href behind h e k =
    let middle : rest ≡ b']' ∷ b'(' ∷ drop 2 rest = starts_with-drop rest (units "](") h in
    let end : behind ≡ b')' ∷ drop 1 behind = starts_with-drop behind (units ")") k in
    let inner : href ++ behind ≡ (href ++ b')' ∷ []) ++ drop 1 behind =
      ap (◌++◌ href) end ∙ sym (append_assoc href (b')' ∷ []) (drop 1 behind)) in
    ap (λ t. b'[' ∷ label ++ t) (middle ∙ ap (λ t. b']' ∷ b'(' ∷ t) (e ∙ inner))
    ∙ ap (◌∷◌ b'[') (sym (append_assoc label (b']' ∷ b'(' ∷ href ++ b')' ∷ []) (drop 1 behind)))

link_here-IsFrom : (s : Text) → IsFrom s (link_here s)
unfolding link_here
link_here-IsFrom [] = tt
link_here-IsFrom (c ∷ s) =
    if-then_else_lem (IsFrom (c ∷ s))
      (c == b'['
        && not (is_empty label)
        && starts_with rest (units "](")
        && not (is_empty href)
        && starts_with behind (units ")"))
      _ none
      (λ h.
        let mark : c ≡ b'[' = ground arith in
        (
          rw mark (
              ap (◌∷◌ b'[') (span-append (λ d. not (d == b']')) s)
              ∙ link_parts label rest href behind (ground arith)
                  (span-append (λ d. not (d == b')' || is_space d)) (drop 2 rest)) (ground arith)),
          (unfold token_text in omega arith),
        ))
      (λ h. tt)
  where
    label : Text
    label = (span (λ d. not (d == b']')) s).0

    rest : Text
    rest = (span (λ d. not (d == b']')) s).1

    href : Text
    href = (span (λ d. not (d == b')' || is_space d)) (drop 2 rest)).0

    behind : Text
    behind = (span (λ d. not (d == b')' || is_space d)) (drop 2 rest)).1

-- the parts of a marked body put together again
marked_parts :
    (mark body rest s : Text)
    → starts_with s mark ≡ true
    → drop (length mark) s ≡ body ++ rest
    → starts_with rest mark ≡ true
    → s ≡ (mark ++ (body ++ mark)) ++ drop (length mark) rest
marked_parts mark body rest s h e k =
    starts_with-drop s mark h
    ∙ ap (◌++◌ mark) (
        e
        ∙ ap (◌++◌ body) (starts_with-drop rest mark k)
        ∙ sym (append_assoc body mark (drop (length mark) rest)))
    ∙ sym (append_assoc mark (body ++ mark) (drop (length mark) rest))

marked_here-IsFrom :
    (token : Text → Text → Token) (mark : Text) (unit : ℕ) (s : Text)
    → 1 ≤ length mark
    → ((body : Text) → token_text (token mark body) ≡ mark ++ (body ++ mark))
    → IsFrom s (marked_here token mark unit s)
unfolding marked_here
marked_here-IsFrom token mark unit s long shape =
    if-then_else_lem (IsFrom s) (starts_with s mark && not (is_empty body) && starts_with rest mark)
      _ none
      (λ h. (
        marked_parts mark body rest s (ground arith)
              (span-append (λ d. not (d == unit)) (drop (length mark) s)) (ground arith)
            ∙ ap (λ t. t ++ drop (length mark) rest) (sym (shape body)),
        rw (shape body, length-append mark (body ++ mark)) (omega arith),
      ))
      (λ h. tt)
  where
    body : Text
    body = (span (λ d. not (d == unit)) (drop (length mark) s)).0

    rest : Text
    rest = (span (λ d. not (d == unit)) (drop (length mark) s)).1

or_token-IsFrom :
    (s : Text) (a b : Option (Token × Text)) → IsFrom s a → IsFrom s b → IsFrom s (or_token a b)
or_token-IsFrom s none b h k = k
or_token-IsFrom s (some (t, rest)) b h k = h

token_here-IsFrom : (s : Text) → IsFrom s (token_here s)
unfolding token_here token_text
token_here-IsFrom s = or_token-IsFrom s _ _ (link_here-IsFrom s) (
    or_token-IsFrom s _ _
      (marked_here-IsFrom code_token (units "`") b'`' s (omega arith) (λ body. refl))
      (or_token-IsFrom s _ _
        (marked_here-IsFrom strong_token (units "**") b'*' s (omega arith) (λ body. refl))
        (or_token-IsFrom s _ _
          (marked_here-IsFrom strong_token (units "__") b'_' s (omega arith) (λ body. refl))
          (or_token-IsFrom s _ _
            (marked_here-IsFrom em_token (units "*") b'*' s (omega arith) (λ body. refl))
            (marked_here-IsFrom em_token (units "_") b'_' s (omega arith) (λ body. refl))))))

-- the text of a piece
unfoldable pub piece_text : Piece → Text
piece_text (plain_piece s) = s
piece_text (token_piece t) = token_text t

flush_text :
    (before : Text) (pieces : List Piece)
    → flat_map piece_text (flush before pieces) ≡ before ++ flat_map piece_text pieces
unfolding piece_text
flush_text [] pieces = refl
flush_text (c ∷ before) pieces = refl

pieces_from_text :
    (fuel : ℕ) (before s : Text) → flat_map piece_text (pieces_from fuel before s) ≡ before ++ s
unfolding pieces_from piece_text
pieces_from_text zero before s = flush_text (before ++ s) [] ∙ append-nil (before ++ s)
pieces_from_text (suc fuel) before [] = flush_text before []
pieces_from_text (suc fuel) before (c ∷ s) = elim (Option-cases (token_here (c ∷ s))) [
  | inl out ↦
      rw (out, pieces_from)
        (pieces_from_text fuel (before ++ c ∷ []) s ∙ append_assoc before (c ∷ []) s)
  | inr ((token, rest), found) ↦
      let rests = pieces_from_text fuel [] rest in
      let from : c ∷ s ≡ token_text token ++ rest =
        (subst (IsFrom (c ∷ s)) found (token_here-IsFrom (c ∷ s))).0 in
      rw (found, pieces_from)
        (flush_text before (token_piece token ∷ pieces_from fuel [] rest)
          ∙ ap (◌++◌ before) (ap (◌++◌ (token_text token)) rests ∙ sym from))
]

-- what is left behind a token is shorter
token_here_rest :
    (c : ℕ) (s : Text) (token : Token) (rest : Text)
    → token_here (c ∷ s) ≡ some (token, rest)
    → length rest ≤ length s
token_here_rest c s token rest found =
    let (from, long) = subst (IsFrom (c ∷ s)) found (token_here-IsFrom (c ∷ s)) in
    let measure : suc (length s) ≡ length (token_text token) + length rest =
      ap length from ∙ length-append (token_text token) rest in
    omega arith

-- the loop ends: more rounds than there are units change nothing
pieces_from_fuel :
    (fuel more : ℕ) (before s : Text)
    → length s ≤ fuel
    → length s ≤ more
    → pieces_from fuel before s ≡ pieces_from more before s
unfolding pieces_from
pieces_from_fuel zero zero before s h k = refl
pieces_from_fuel zero (suc more) before [] h k = ap (λ t. flush t []) (append-nil before)
pieces_from_fuel (suc fuel) zero before [] h k = ap (λ t. flush t []) (sym (append-nil before))
pieces_from_fuel (suc fuel) (suc more) before [] h k = refl
pieces_from_fuel zero (suc more) before (c ∷ s) h k = absurd (omega arith)
pieces_from_fuel (suc fuel) zero before (c ∷ s) h k = absurd (omega arith)
pieces_from_fuel (suc fuel) (suc more) before (c ∷ s) h k =
    elim (Option-cases (token_here (c ∷ s))) [
      | inl out ↦
          rw (out, pieces_from)
            (pieces_from_fuel fuel more (before ++ c ∷ []) s (omega arith) (omega arith))
      | inr ((token, rest), found) ↦
          let less = token_here_rest c s token rest found in
          rw (found, pieces_from)
            (ap (λ ps. flush before (token_piece token ∷ ps))
              (pieces_from_fuel fuel more [] rest (omega arith) (omega arith)))
    ]

-- Nothing is lost and nothing moves: the pieces with their marks are the text. They are the pieces
-- that any number of rounds gives that is at least the number of units.
pub pieces_of_text :
    (s : Text) (fuel : ℕ)
    → length s ≤ fuel
    → (flat_map piece_text (pieces_of s) ≡ s) × (pieces_from fuel [] s ≡ pieces_of s)
unfolding pieces_of
pieces_of_text s fuel h =
    (pieces_from_text (length s) [] s, pieces_from_fuel fuel (length s) [] s h (omega arith))

-- the address of a link is one of the web or of a mail
abbrev pub IsSafe : Node → Type 0
IsSafe (link_node label href) = is_safe_href href ≡ true
IsSafe _ = Unit

module _ (parse_url : Text → Option ParsedUrl) (decode : Text → Option Text) where
  token_node-IsSafe : (t : Token) → IsSafe (token_node parse_url decode t)
  unfolding token_node
  token_node-IsSafe (link_token label href) =
      if-then_else_lem IsSafe (is_safe_href href) _ _ (λ e. e)
        (λ e. go (parse_file_link parse_url decode href))
    where
      go :
          (o : Option ParsedFileLink)
          → IsSafe (elim o [
            | none ↦ text_node (token_text (link_token label href))
            | some found ↦ file_node label found
          ])
      go none = tt
      go (some found) = tt
  token_node-IsSafe (code_token mark body) = tt
  token_node-IsSafe (strong_token mark body) = tt
  token_node-IsSafe (em_token mark body) = tt

  nodes-IsSafe : (ps : List Piece) → All IsSafe (map (piece_node parse_url decode) ps)
  nodes-IsSafe [] = tt
  nodes-IsSafe (plain_piece s ∷ ps) = (tt, nodes-IsSafe ps)
  nodes-IsSafe (token_piece t ∷ ps) = (token_node-IsSafe t, nodes-IsSafe ps)

  -- However URLs are parsed and percent signs decoded, the address of every web link begins with
  -- `http://`, `https://` or `mailto:`.
  pub render_inline-IsSafe : (s : Text) → All IsSafe (render_inline parse_url decode s)
  unfolding render_inline
  render_inline-IsSafe s = nodes-IsSafe (pieces_of s)
