-- ===== src/Export/Filename.antt =====
-- The units of the name of an exported file.
use open_pi.Prelude.{
  ℕ, ◌≡◌, refl, Bool, true, false, [], ◌∷◌, All, All-append, Option, some, if◌then◌else◌,
}
use open_pi.Text.{Text, units, is_space, trim}
use open_pi.Export.{
  is_forbidden, is_dash, replace_runs, drop_first_dash, drop_last_dash, sanitized, raw_title_of,
  generate_export_filename, message_or,
}

-- neither forbidden nor white space
abbrev pub IsSafe : ℕ → Type 0
IsSafe c = (is_forbidden c ≡ false) × (is_space c ≡ false)

-- what holds of the units kept and of the dash holds of all units
replace_runs-All :
    (P : ℕ → Type 0) (p : ℕ → Bool) (inside : Bool) (s : Text)
    → P b'-'
    → All (λ c. p c ≡ false → P c) s
    → All P (replace_runs p inside s)
unfolding replace_runs
replace_runs-All P p inside [] dash h = tt
replace_runs-All P p inside (c ∷ s) dash (h, hs) =
    go (p c) refl (replace_runs-All P p true s dash hs) (replace_runs-All P p false s dash hs)
  where
    go :
        (b : Bool)
        → p c ≡ b
        → All P (replace_runs p true s)
        → All P (replace_runs p false s)
        → All P (elim b as (λ x. Text) [
          | true ↦ if inside then replace_runs p true s else b'-' ∷ replace_runs p true s
          | false ↦ c ∷ replace_runs p false s
        ])
    go true e r r' =
        elim inside
          as (λ i. All P (if i then replace_runs p true s else b'-' ∷ replace_runs p true s)) [
            | true ↦ r
            | false ↦ (dash, r)
          ]
    go false e r r' = (h e, r')

All-map : (P Q : ℕ → Type 0) (s : Text) → ((c : ℕ) → P c → Q c) → All P s → All Q s
All-map P Q [] f h = tt
All-map P Q (c ∷ s) f (h, hs) = (f c h, All-map P Q s f hs)

All-of : (P : ℕ → Type 0) (s : Text) → ((c : ℕ) → P c) → All P s
All-of P [] f = tt
All-of P (c ∷ s) f = (f c, All-of P s f)

drop_first_dash-All : (P : ℕ → Type 0) (s : Text) → All P s → All P (drop_first_dash s)
unfolding drop_first_dash
drop_first_dash-All P [] h = tt
drop_first_dash-All P (c ∷ s) (h, hs) = elim (is_dash c) as (λ b. All P (if b then s else c ∷ s)) [
  | true ↦ hs
  | false ↦ (h, hs)
]

drop_last_dash-All : (P : ℕ → Type 0) (s : Text) → All P s → All P (drop_last_dash s)
unfolding drop_last_dash
drop_last_dash-All P [] h = tt
drop_last_dash-All P (c ∷ []) h = elim (is_dash c) as (λ b. All P (if b then [] else c ∷ [])) [
  | true ↦ tt
  | false ↦ h
]
drop_last_dash-All P (c ∷ d ∷ s) (h, hs) = (h, drop_last_dash-All P (d ∷ s) hs)

sanitized-IsSafe : (lower : Text → Text) (raw : Text) → All IsSafe (sanitized lower raw)
unfolding sanitized is_space
sanitized-IsSafe lower raw =
    let s : Text = lower (trim raw) in
    let a : All (λ c. is_forbidden c ≡ false) (replace_runs is_forbidden false s) =
      replace_runs-All (λ c. is_forbidden c ≡ false) is_forbidden false s refl
        (All-of _ s (λ c e. e)) in
    let b : All IsSafe (replace_runs is_space false (replace_runs is_forbidden false s)) =
      replace_runs-All IsSafe is_space false _ (refl, refl)
        (All-map (λ c. is_forbidden c ≡ false) (λ c. is_space c ≡ false → IsSafe c) _
          (λ c f e. (f, e)) a) in
    drop_last_dash-All IsSafe _ (
      drop_first_dash-All IsSafe _ (
        replace_runs-All IsSafe is_dash false _ (refl, refl)
          (All-map IsSafe (λ c. is_dash c ≡ false → IsSafe c) _ (λ c f e. f) b)))

either-IsSafe : (s t : Text) → All IsSafe s → All IsSafe t → All IsSafe (message_or (some s) t)
either-IsSafe [] t hs ht = ht
either-IsSafe (c ∷ s) t hs ht = hs

-- Whatever the conversation is called, and whatever lower case is, the name of its file holds no
-- white space and none of the units \ / : * ? " < > |, if the date holds none.
pub generate_export_filename-IsSafe :
    (lower : Text → Text) (session_name label : Option Text) (date : Text)
    → All IsSafe date
    → All IsSafe (generate_export_filename lower session_name label date)
unfolding generate_export_filename is_space
generate_export_filename-IsSafe lower session_name label date h =
    let s : Text = sanitized lower (raw_title_of session_name label) in
    All-append IsSafe (message_or (some s) (units "conversation")) _
      (either-IsSafe s (units "conversation")
        (sanitized-IsSafe lower (raw_title_of session_name label))
        (
          (refl, refl),
          (
            (refl, refl),
            (
              (refl, refl),
              (
                (refl, refl),
                (
                  (refl, refl),
                  (
                    (refl, refl),
                    (
                      (refl, refl),
                      (
                        (refl, refl),
                        ((refl, refl), ((refl, refl), ((refl, refl), ((refl, refl), tt)))),
                      ),
                    ),
                  ),
                ),
              ),
            ),
          ),
        ))
      (All-append IsSafe (units "-") _ ((refl, refl), tt)
        (All-append IsSafe date (units ".md") h ((refl, refl), ((refl, refl), ((refl, refl), tt)))))
