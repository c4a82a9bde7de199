-- ===== src/TurnProgress/Reduce/Ending.antt =====
-- Which events end a turn, and what a step does with an event of the turn or of another one.
use open_pi.Prelude.{
  ℕ, ◌≡◌, refl, ap, sym, ◌∙◌, subst, inl, inr, Bool, true, false, ◌||◌, Option, none, some, List,
  [], ◌∷◌, if◌then◌else◌, any, Bool-cases, or-cases, if-then_else_lem,
}
use open_pi.Text.{Text, units, text_eq}
use open_pi.Text.Laws.{eq_of_text_eq, any-All}
use open_pi.TurnProgress.{
  TurnProgress, TurnProgressEvent, EventKind, turn_guard, agent_start, turn_start, message_start,
  tool_execution, tool_execution_end, message_update, review_start, review_result, agent_settled,
  stream_end, other_event, kind_of, event_kind,
}
use open_pi.TurnProgress.Reduce.{
  reduce_kind, reduce_turn_progress_inner, reduce_turn_progress, stamped, next_of, same_object,
  new_object,
}

-- the types of the events that end a turn
abbrev pub terminal_types : List Text
terminal_types =
    units "agent_settled"
    ∷ units "stream_error"
    ∷ units "stream_closed"
    ∷ units "abort"
    ∷ units "send_error"
    ∷ []

-- the event has one of these types
abbrev pub is_terminal : TurnProgressEvent → Bool
is_terminal e = elim (e.type) [ none ↦ false | some t ↦ any (λ w. text_eq w t) terminal_types ]

abbrev pub is_over : EventKind → Bool
is_over agent_settled = true
is_over stream_end = true
is_over k = false

-- the event is one of the instance of this turn
abbrev pub is_own : TurnProgress → TurnProgressEvent → Bool
is_own p e = text_eq p.instance_id e.instance_id

is_over-kind_of :
    (t : Text) → any (λ w. text_eq w t) terminal_types ≡ true → is_over (kind_of t) ≡ true
is_over-kind_of t h =
    any-All (λ w. is_over (kind_of w) ≡ true) terminal_types t h
      (unfold kind_of text_eq in (refl, (refl, (refl, (refl, (refl, tt))))))

-- the text is one of those that end a turn, when the kind says so
Ends : Text → EventKind → Type 0
Ends t k = is_over k ≡ true → any (λ w. text_eq w t) terminal_types ≡ true

Ends-open : (t : Text) (k : EventKind) → is_over k ≡ false → Ends t k
unfolding Ends
Ends-open t k h over = absurd (cc)

Ends-type :
    (t w : Text) (k : EventKind)
    → any (λ v. text_eq v w) terminal_types ≡ true
    → text_eq t w ≡ true
    → Ends t k
unfolding Ends
Ends-type t w k h same over =
    subst (λ u. any (λ v. text_eq v u) terminal_types ≡ true) (sym (eq_of_text_eq t w same)) h

-- a branch of the tests on the type, and what is behind it
Ends-if :
    (t : Text) (b : Bool) (k next : EventKind)
    → (b ≡ true → Ends t k)
    → Ends t next
    → Ends t (if b then k else next)
Ends-if t b k next h g = if-then_else_lem (Ends t) b k next h (λ _. g)

stream_end-Ends :
    (t : Text)
    → (text_eq t (units "stream_error")
        || text_eq t (units "stream_closed")
        || text_eq t (units "abort")
        || text_eq t (units "send_error"))
      ≡ true
    → Ends t stream_end
stream_end-Ends t h = elim (or-cases _ _ h) [
  | inr same ↦ Ends-type t (units "send_error") stream_end (unfold text_eq in refl) same
  | inl k ↦ elim (or-cases _ _ k) [
    | inr same ↦ Ends-type t (units "abort") stream_end (unfold text_eq in refl) same
    | inl l ↦ elim (or-cases _ _ l) [
      | inl same ↦ Ends-type t (units "stream_error") stream_end (unfold text_eq in refl) same
      | inr same ↦ Ends-type t (units "stream_closed") stream_end (unfold text_eq in refl) same
    ]
  ]
]

kind_of-Ends : (t : Text) → Ends t (kind_of t)
unfolding kind_of
kind_of-Ends t =
    let settled_here : text_eq t (units "agent_settled") ≡ true → Ends t agent_settled =
      Ends-type t (units "agent_settled") agent_settled (unfold text_eq in refl) in
    Ends-if t _ turn_guard _ (λ _. Ends-open t turn_guard refl)
      (Ends-if t _ agent_start _ (λ _. Ends-open t agent_start refl)
        (Ends-if t _ turn_start _ (λ _. Ends-open t turn_start refl)
          (Ends-if t _ message_start _ (λ _. Ends-open t message_start refl)
            (Ends-if t _ tool_execution _ (λ _. Ends-open t tool_execution refl)
              (Ends-if t _ tool_execution_end _ (λ _. Ends-open t tool_execution_end refl)
                (Ends-if t _ message_update _ (λ _. Ends-open t message_update refl)
                  (Ends-if t _ review_start _ (λ _. Ends-open t review_start refl)
                    (Ends-if t _ review_result _ (λ _. Ends-open t review_result refl)
                      (Ends-if t _ agent_settled _ settled_here (
                        Ends-if t _ stream_end other_event (stream_end-Ends t)
                          (Ends-open t other_event refl)))))))))))

pub reduce_turn_progress_other :
    (p : TurnProgress) (e : TurnProgressEvent) (now : ℕ)
    → is_own p e ≡ false
    → reduce_turn_progress (some p) e now ≡ some p
unfolding reduce_turn_progress reduce_turn_progress_inner
reduce_turn_progress_other p e now other =
    ap
      (λ b.
        next_of (if b then new_object (reduce_kind (event_kind e) p e now) else same_object)
          (some p) now)
      other

pub reduce_turn_progress_own :
    (p : TurnProgress) (e : TurnProgressEvent) (now : ℕ)
    → is_own p e ≡ true
    → reduce_turn_progress (some p) e now ≡ stamped now (reduce_kind (event_kind e) p e now)
unfolding reduce_turn_progress reduce_turn_progress_inner
reduce_turn_progress_own p e now own =
    ap
      (λ b.
        next_of (if b then new_object (reduce_kind (event_kind e) p e now) else same_object)
          (some p) now)
      own

kind_of-is_over : (t : Text) → is_over (kind_of t) ≡ any (λ w. text_eq w t) terminal_types
kind_of-is_over t = elim (Bool-cases (any (λ w. text_eq w t) terminal_types)) [
  | inl ends ↦ is_over-kind_of t ends ∙ sym ends
  | inr goes_on ↦ elim (Bool-cases (is_over (kind_of t))) [
    | inl over ↦ over ∙ sym (unfold Ends in kind_of-Ends t over)
    | inr open_end ↦ open_end ∙ sym goes_on
  ]
]

-- The kinds that end a turn are those of the terminal types.
pub event_kind-is_terminal : (e : TurnProgressEvent) → is_over (event_kind e) ≡ is_terminal e
unfolding event_kind
event_kind-is_terminal e = go (e.type)
  where
    go :
        (o : Option Text)
        → is_over (elim o [ none ↦ other_event | some t ↦ kind_of t ])
          ≡ (elim o [ none ↦ false | some t ↦ any (λ w. text_eq w t) terminal_types ])
    go none = refl
    go (some t) = kind_of-is_over t
