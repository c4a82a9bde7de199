-- ===== src/MobileData/Readable.antt =====
-- apps/desktop/web/mobile/mobile-data.ts: what of an encrypted row reaches the transcript.
use open_pi.Prelude.{
  ◌≡◌, refl, ap, sym, ◌∙◌, inl, inr, ◌⊎◌, Bool, true, false, not, ◌&&◌, List, [], ◌∷◌, ◌++◌, Pairs,
  if◌then◌else◌,
}
use open_pi.Text.{units}
use open_pi.JsValue.{JsValue, get, truthy}
use open_pi.MobileData.{sealed_message, open_message, is_sealed, transcript_entry, load_transcript}

-- the rows are the same, or both are encrypted
abbrev pub Alike : JsValue → JsValue → Type 0
Alike r s = (r ≡ s) ⊎ ((is_sealed r ≡ true) × (is_sealed s ≡ true))

sealed_entry : (r : JsValue) → is_sealed r ≡ true → transcript_entry r ≡ sealed_message ∷ []
unfolding transcript_entry
sealed_entry r h = go (truthy r) (truthy (get r (units "__enc"))) h
  where
    go :
        (a b : Bool)
        → (a && b) ≡ true
        → (if not a
            then []
            else if b
            then sealed_message ∷ []
            else (if not (truthy (get r (units "message")))
                then []
                else open_message r (get r (units "message")) ∷ []))
          ≡ sealed_message ∷ []
    go true true k = refl
    go true false k = absurd (cc)
    go false b k = absurd (cc)

transcript_entry-Alike : (r s : JsValue) → Alike r s → transcript_entry r ≡ transcript_entry s
transcript_entry-Alike r s (inl e) = ap transcript_entry e
transcript_entry-Alike r s (inr (h, k)) = sealed_entry r h ∙ sym (sealed_entry s k)

-- Nothing that is encrypted reaches the transcript: rows that differ only in encrypted payloads give
-- the same transcript.
pub load_transcript-Alike :
    (rows others : List JsValue)
    → Pairs Alike rows others
    → load_transcript rows ≡ load_transcript others
unfolding load_transcript
load_transcript-Alike [] [] h = refl
load_transcript-Alike [] (s ∷ others) h = absurd h
load_transcript-Alike (r ∷ rows) [] h = absurd h
load_transcript-Alike (r ∷ rows) (s ∷ others) (a, h) =
    rw (transcript_entry-Alike r s a)
      (ap (◌++◌ (transcript_entry s)) (load_transcript-Alike rows others h))
