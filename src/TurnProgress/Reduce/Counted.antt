-- ===== src/TurnProgress/Reduce/Counted.antt =====
-- The number of finished tools that a turn shows.
use open_pi.Prelude.{
  ℕ, ◌+◌, ◌≡◌, refl, ap, sym, ◌∙◌, subst, inl, inr, Bool, true, false, ◌||◌, ◌&&◌, Option, none,
  some, List, [], ◌∷◌, arith, if◌then◌else◌, or_else, any, count_if, Bool-cases, if-then_else_lem,
}
use open_pi.Text.{Text, units, text_eq}
use open_pi.TurnProgress.{
  TurnProgress, is_string, TurnProgressEvent, EventKind, turn_guard, agent_start, turn_start,
  message_start, tool_execution, tool_execution_end, message_update, review_start, review_result,
  agent_settled, stream_end, other_event, event_kind, DeltaKind, thinking_delta, text_delta,
  toolcall_delta, other_delta, delta_kind,
}
use open_pi.TurnProgress.Reduce.{
  on_agent_start, on_message_start, on_tool_execution, on_tool_execution_end, on_other,
  on_message_update, on_review_start, on_review_result, reduce_kind, reduce_turn_progress, stamped,
}
use open_pi.TurnProgress.Reduce.Ending.{
  is_own, reduce_turn_progress_other, reduce_turn_progress_own,
}
use open_pi.TurnProgress.Reduce.Interleaved.{IsOf, step-IsOf, run_step, run-none}
use open_pi.TurnProgress.Reduce.Trace.{run, WhenSome}

-- the events that can set the number of tools to another value
abbrev pub sets_count : EventKind → Bool
sets_count turn_guard = true
sets_count turn_start = true
sets_count k = false

abbrev pub is_tool_end : EventKind → Bool
is_tool_end tool_execution_end = true
is_tool_end k = false

-- such an event of the instance
abbrev pub has_kind : (EventKind → Bool) → Text → TurnProgressEvent × ℕ → Bool
has_kind f id (e, now) = text_eq id e.instance_id && f (event_kind e)

abbrev pub shown_count : TurnProgress → ℕ
shown_count q = or_else q.tool_count 0

-- one if the test holds
abbrev one_if : Bool → ℕ
one_if b = if b then 1 else 0

count_update :
    (d : DeltaKind) (q : TurnProgress) (now : ℕ)
    → (on_message_update d q now).tool_count ≡ q.tool_count
unfolding on_message_update on_other
count_update thinking_delta q now = refl
count_update text_delta q now = refl
count_update toolcall_delta q now = refl
count_update other_delta q now = refl

module _ (q : TurnProgress) (e : TurnProgressEvent) (now : ℕ) where
  count_review : (on_review_result q e now).tool_count ≡ q.tool_count
  unfolding on_review_result on_other
  count_review =
      let Same : TurnProgress → Type 0 = λ r. r.tool_count ≡ q.tool_count in
      if-then_else_lem Same (is_string e.status (units "rejected")) _ _ (λ _. refl)
        (λ _.
          if-then_else_lem Same (is_string e.status (units "approved")) _ _ (λ _. refl) (λ _. refl))

  abbrev Adds : ℕ → TurnProgress → Type 0
  Adds n r = shown_count r ≡ shown_count q + n

  Adds-same : (r : TurnProgress) → r.tool_count ≡ q.tool_count → Adds 0 r
  Adds-same r h = let same : shown_count r ≡ shown_count q = ap (λ o. or_else o 0) h in omega arith

  Adds-kind :
      (k : EventKind)
      → sets_count k ≡ false
      → WhenSome (Adds (one_if (is_tool_end k))) (stamped now (reduce_kind k q e now))
  unfolding reduce_kind on_agent_start on_message_start on_tool_execution on_tool_execution_end
      on_review_start on_other
  Adds-kind turn_guard h = absurd (cc)
  Adds-kind agent_start h = Adds-same q refl
  Adds-kind turn_start h = absurd (cc)
  Adds-kind message_start h = Adds-same q refl
  Adds-kind tool_execution h = Adds-same q refl
  Adds-kind tool_execution_end h = refl
  Adds-kind message_update h =
      Adds-same (on_message_update (delta_kind e) q now) (count_update (delta_kind e) q now)
  Adds-kind review_start h = Adds-same q refl
  Adds-kind review_result h = Adds-same (on_review_result q e now) count_review
  Adds-kind agent_settled h = tt
  Adds-kind stream_end h = tt
  Adds-kind other_event h = Adds-same q refl

-- the turn of the instance, with so many tools
abbrev Shows : Text → ℕ → TurnProgress → Type 0
Shows id n q = IsOf id q × (shown_count q ≡ n)

WhenSome-map :
    {P Q : TurnProgress → Type 0} (o : Option TurnProgress)
    → ((r : TurnProgress) → P r → Q r)
    → WhenSome P o
    → WhenSome Q o
WhenSome-map none f h = tt
WhenSome-map (some r) f h = f r h

WhenSome-both :
    (P Q : TurnProgress → Type 0) (o : Option TurnProgress)
    → WhenSome P o
    → WhenSome Q o
    → WhenSome (λ r. P r × Q r) o
WhenSome-both P Q none h k = tt
WhenSome-both P Q (some r) h k = (h, k)

or-false : (a b : Bool) → (a || b) ≡ false → (a ≡ false) × (b ≡ false)
or-false true b h = absurd (cc)
or-false false b h = (refl, h)

step_counts :
    (id : Text) (n : ℕ) (q : TurnProgress) (e : TurnProgressEvent) (now : ℕ)
    → Shows id n q
    → has_kind sets_count id (e, now) ≡ false
    → WhenSome
        (λ r. shown_count r ≡ n + one_if (has_kind is_tool_end id (e, now)))
        (reduce_turn_progress (some q) e now)
step_counts id n q e now (i, c) h = elim (Bool-cases (is_own q e)) [
  | inl own ↦
      let mine : text_eq id e.instance_id ≡ true =
        subst (λ x. text_eq x e.instance_id ≡ true) i own in
      let keeps : sets_count (event_kind e) ≡ false =
        sym (ap (λ b. b && sets_count (event_kind e)) mine) ∙ h in
      let adds : one_if (has_kind is_tool_end id (e, now)) ≡ one_if (is_tool_end (event_kind e)) =
        ap (λ b. one_if (b && is_tool_end (event_kind e))) mine in
      subst (WhenSome (λ r. shown_count r ≡ n + one_if (has_kind is_tool_end id (e, now))))
        (sym (reduce_turn_progress_own q e now own))
        (WhenSome-map (stamped now (reduce_kind (event_kind e) q e now))
          (λ r a.
            a ∙ (ap (λ k. k + one_if (is_tool_end (event_kind e))) c ∙ ap (λ k. n + k) (sym adds)))
          (Adds-kind q e now (event_kind e) keeps))
  | inr other ↦
      let not_mine : text_eq id e.instance_id ≡ false =
        subst (λ x. text_eq x e.instance_id ≡ false) i other in
      let none_added : one_if (has_kind is_tool_end id (e, now)) ≡ 0 =
        ap (λ b. one_if (b && is_tool_end (event_kind e))) not_mine in
      subst (WhenSome (λ r. shown_count r ≡ n + one_if (has_kind is_tool_end id (e, now))))
        (sym (reduce_turn_progress_other q e now other)) (omega (arith, c, none_added))
]

add_assoc : (a b c : ℕ) → a + b + c ≡ a + (b + c)
add_assoc a b c = omega arith

count_if-cons {ℓ} :
    {A : Type ℓ} (f : A → Bool) (x : A) (xs : List A)
    → count_if f (x ∷ xs) ≡ one_if (f x) + count_if f xs
count_if-cons f x xs = ground arith

run_counts :
    (id : Text) (n : ℕ) (es : List (TurnProgressEvent × ℕ)) (o : Option TurnProgress)
    → WhenSome (Shows id n) o
    → any (has_kind sets_count id) es ≡ false
    → WhenSome (λ r. shown_count r ≡ n + count_if (has_kind is_tool_end id) es) (run o es)
run_counts id n es none s h = rw (run-none es) tt
run_counts id n [] (some q) (i, c) h = unfold run in omega (arith, c)
run_counts id n ((e, now) ∷ es) (some q) (i, c) h =
    let (here, later) = or-false _ _ h in
    let m = n + one_if (has_kind is_tool_end id (e, now)) in
    let next = reduce_turn_progress (some q) e now in
    let shows : WhenSome (Shows id m) next =
      WhenSome-both (IsOf id) (λ r. shown_count r ≡ m) next (step-IsOf id q i e now)
        (step_counts id n q e now (i, c) here) in
    let rest = run_counts id m es next shows later in
    rw (run_step (some q) e now es) (
      WhenSome-map (run next es)
        (λ r a.
          a
          ∙ (add_assoc n _ _
              ∙ ap (λ k. n + k) (sym (count_if-cons (has_kind is_tool_end id) (e, now) es))))
        rest)

-- Between the events that set the number of tools, guard notices and starts of turns, a turn shows
-- the tools that it showed before and one for each tool of its instance that ended since, whatever
-- other events come.
pub run-shown_count :
    (p : TurnProgress) (es : List (TurnProgressEvent × ℕ))
    → any (has_kind sets_count p.instance_id) es ≡ false
    → WhenSome
        (λ q. shown_count q ≡ shown_count p + count_if (has_kind is_tool_end p.instance_id) es)
        (run (some p) es)
run-shown_count p es h = run_counts p.instance_id (shown_count p) es (some p) (refl, refl) h
