-- ===== src/TurnProgress/Reduce/Interleaved.antt =====
-- Sequences of events of several instances: which end the turn, and what the tools add up to.
use open_pi.Prelude.{
  ℕ, ◌≡◌, refl, ap, sym, ◌∙◌, subst, inl, inr, Bool, true, false, ◌||◌, ◌&&◌, Option, none, some,
  List, [], ◌∷◌, arith, any, keep_if, Bool-cases, is_some, not, if-then_else_lem,
}
use open_pi.Text.{Text, units, text_eq}
use open_pi.TurnProgress.{
  TurnProgress, is_string, TurnProgressEvent, EventKind, turn_guard, agent_start, turn_start,
  message_start, tool_execution, tool_execution_end, message_update, review_start, review_result,
  agent_settled, stream_end, other_event, event_kind, DeltaKind, thinking_delta, text_delta,
  toolcall_delta, other_delta, delta_kind,
}
use open_pi.TurnProgress.Reduce.{
  on_turn_guard, on_agent_start, on_turn_start, on_message_start, on_tool_execution,
  on_tool_execution_end, on_other, on_message_update, on_review_start, on_review_result,
  reduce_kind, reduce_turn_progress, stamped,
}
use open_pi.TurnProgress.Reduce.Ending.{
  is_terminal, is_over, is_own, reduce_turn_progress_other, reduce_turn_progress_own,
  event_kind-is_terminal,
}
use open_pi.TurnProgress.Reduce.Trace.{run, is_for, WhenSome, reduce_none}

update-instance :
    (d : DeltaKind) (q : TurnProgress) (now : ℕ)
    → (on_message_update d q now).instance_id ≡ q.instance_id
unfolding on_message_update on_other
update-instance thinking_delta q now = refl
update-instance text_delta q now = refl
update-instance toolcall_delta q now = refl
update-instance other_delta q now = refl

-- the instance of what a step makes
module _ (q : TurnProgress) (e : TurnProgressEvent) (now : ℕ) where
  kind-instance :
      (k : EventKind)
      → WhenSome (λ r. r.instance_id ≡ q.instance_id) (stamped now (reduce_kind k q e now))
  unfolding reduce_kind on_turn_guard on_agent_start on_turn_start on_message_start
      on_tool_execution on_tool_execution_end on_review_start
  kind-instance turn_guard = refl
  kind-instance agent_start = refl
  kind-instance turn_start = refl
  kind-instance message_start = refl
  kind-instance tool_execution = refl
  kind-instance tool_execution_end = refl
  kind-instance message_update = update-instance (delta_kind e) q now
  kind-instance review_start = refl
  kind-instance review_result =
      unfold on_review_result on_other in
      if-then_else_lem (λ (r : TurnProgress). r.instance_id ≡ q.instance_id)
        (is_string e.status (units "rejected")) _ _ (λ _. refl)
        (λ _.
          if-then_else_lem (λ (r : TurnProgress). r.instance_id ≡ q.instance_id)
            (is_string e.status (units "approved")) _ _ (λ _. refl) (λ _. refl))
  kind-instance agent_settled = tt
  kind-instance stream_end = tt
  kind-instance other_event = unfold on_other in refl

-- the turn of an instance
abbrev pub IsOf : Text → TurnProgress → Type 0
IsOf id q = q.instance_id ≡ id

pub step-IsOf :
    (id : Text) (q : TurnProgress)
    → IsOf id q
    → (e : TurnProgressEvent) (now : ℕ) → WhenSome (IsOf id) (reduce_turn_progress (some q) e now)
step-IsOf id q i e now = elim (Bool-cases (is_own q e)) [
  | inl own ↦ subst (WhenSome (IsOf id)) (sym (reduce_turn_progress_own q e now own)) (
      subst (λ x. WhenSome (IsOf x) (stamped now (reduce_kind (event_kind e) q e now))) i
        (kind-instance q e now (event_kind e)))
  | inr other ↦ subst (WhenSome (IsOf id)) (sym (reduce_turn_progress_other q e now other)) i
]

pub run_step :
    (o : Option TurnProgress) (e : TurnProgressEvent) (now : ℕ) (es : List (TurnProgressEvent × ℕ))
    → run o ((e, now) ∷ es) ≡ run (reduce_turn_progress o e now) es
unfolding run
run_step o e now es = refl

pub run-none : (es : List (TurnProgressEvent × ℕ)) → run none es ≡ none
unfolding run
run-none [] = refl
run-none ((e, now) ∷ es) = ap (λ o. run o es) (reduce_none e now) ∙ run-none es

-- an event of another instance
run-other :
    (id : Text) (q : TurnProgress) (e : TurnProgressEvent) (now : ℕ)
    (es : List (TurnProgressEvent × ℕ))
    → IsOf id q
    → text_eq id e.instance_id ≡ false
    → run (some q) ((e, now) ∷ es) ≡ run (some q) es
unfolding run
run-other id q e now es i other =
    ap (λ o. run o es)
      (reduce_turn_progress_other q e now
        (subst (λ x. text_eq x e.instance_id ≡ false) (sym i) other))

keep_if-true {ℓ} :
    {A : Type ℓ} (f : A → Bool) (x : A) (xs : List A)
    → f x ≡ true
    → keep_if f (x ∷ xs) ≡ x ∷ keep_if f xs
keep_if-true f x xs h = ground arith

keep_if-false {ℓ} :
    {A : Type ℓ} (f : A → Bool) (x : A) (xs : List A)
    → f x ≡ false
    → keep_if f (x ∷ xs) ≡ keep_if f xs
keep_if-false f x xs h = ground arith

run_of-keep_if :
    (id : Text) (es : List (TurnProgressEvent × ℕ)) (o : Option TurnProgress)
    → WhenSome (IsOf id) o
    → run o es ≡ run o (keep_if (is_for id) es)
run_of-keep_if id es none i = run-none es ∙ sym (run-none (keep_if (is_for id) es))
run_of-keep_if id [] (some q) i = refl
run_of-keep_if id ((e, now) ∷ es) (some q) i = elim (Bool-cases (text_eq id e.instance_id)) [
  | inl own ↦
      run_step (some q) e now es
      ∙ (run_of-keep_if id es (reduce_turn_progress (some q) e now) (step-IsOf id q i e now)
          ∙ (sym (run_step (some q) e now (keep_if (is_for id) es))
              ∙ ap (run (some q)) (sym (keep_if-true (is_for id) (e, now) es own))))
  | inr other ↦
      run-other id q e now es i other
      ∙ (run_of-keep_if id es (some q) i
          ∙ ap (run (some q)) (sym (keep_if-false (is_for id) (e, now) es other)))
]

-- Of the events of several instances, one after the other, those of other instances make no
-- difference to the turn.
pub run-keep_if :
    (p : TurnProgress) (es : List (TurnProgressEvent × ℕ))
    → run (some p) es ≡ run (some p) (keep_if (is_for p.instance_id) es)
run-keep_if p es = run_of-keep_if p.instance_id es (some p) refl

-- the event is one of the instance and ends its turn
abbrev pub ends_turn : Text → TurnProgressEvent × ℕ → Bool
ends_turn id (e, now) = text_eq id e.instance_id && is_terminal e

reduce_kind-over :
    (k : EventKind) (p : TurnProgress) (e : TurnProgressEvent) (now : ℕ)
    → is_some (stamped now (reduce_kind k p e now)) ≡ not (is_over k)
unfolding reduce_kind
reduce_kind-over turn_guard p e now = refl
reduce_kind-over agent_start p e now = refl
reduce_kind-over turn_start p e now = refl
reduce_kind-over message_start p e now = refl
reduce_kind-over tool_execution p e now = refl
reduce_kind-over tool_execution_end p e now = refl
reduce_kind-over message_update p e now = refl
reduce_kind-over review_start p e now = refl
reduce_kind-over review_result p e now = refl
reduce_kind-over agent_settled p e now = refl
reduce_kind-over stream_end p e now = refl
reduce_kind-over other_event p e now = refl

-- a step ends the turn exactly at its own terminal events
step_ends :
    (id : Text) (q : TurnProgress) (e : TurnProgressEvent) (now : ℕ)
    → IsOf id q
    → is_some (reduce_turn_progress (some q) e now) ≡ not (ends_turn id (e, now))
step_ends id q e now i = elim (Bool-cases (is_own q e)) [
  | inl own ↦
      let mine : text_eq id e.instance_id ≡ true =
        subst (λ x. text_eq x e.instance_id ≡ true) i own in
      ap is_some (reduce_turn_progress_own q e now own)
      ∙ (reduce_kind-over (event_kind e) q e now
          ∙ ap not (event_kind-is_terminal e ∙ sym (ap (λ b. b && is_terminal e) mine)))
  | inr other ↦
      let not_mine : text_eq id e.instance_id ≡ false =
        subst (λ x. text_eq x e.instance_id ≡ false) i other in
      ap is_some (reduce_turn_progress_other q e now other)
      ∙ sym (ap (λ b. not (b && is_terminal e)) not_mine)
]

de_morgan : (a b : Bool) → (not a && not b) ≡ not (a || b)
de_morgan true b = refl
de_morgan false b = refl

run_of-is_terminal :
    (id : Text) (es : List (TurnProgressEvent × ℕ)) (o : Option TurnProgress)
    → WhenSome (IsOf id) o
    → is_some (run o es) ≡ (is_some o && not (any (ends_turn id) es))
run_of-is_terminal id es none i = ap is_some (run-none es)
run_of-is_terminal id [] (some q) i = unfold run in refl
run_of-is_terminal id ((e, now) ∷ es) (some q) i =
    let rest =
      run_of-is_terminal id es (reduce_turn_progress (some q) e now) (step-IsOf id q i e now) in
    ap is_some (run_step (some q) e now es)
    ∙ (rest
        ∙ (ap (λ b. b && not (any (ends_turn id) es)) (step_ends id q e now i)
            ∙ de_morgan (ends_turn id (e, now)) (any (ends_turn id) es)))

-- The turn is over after a sequence of events exactly if one of them is of its instance and has a
-- terminal type.
pub run-is_terminal :
    (p : TurnProgress) (es : List (TurnProgressEvent × ℕ))
    → is_some (run (some p) es) ≡ not (any (ends_turn p.instance_id) es)
run-is_terminal p es = run_of-is_terminal p.instance_id es (some p) refl
