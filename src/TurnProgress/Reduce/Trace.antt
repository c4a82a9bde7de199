-- ===== src/TurnProgress/Reduce/Trace.antt =====
-- What the machine keeps over a whole sequence of events, whatever instances they come from.
use open_pi.Prelude.{
  ℕ, ◌≡◌, ◌≢◌, refl, sym, ◌∙◌, subst, inl, inr, Bool, true, false, Option, none, some, List, [],
  ◌∷◌, arith, ◌==◌, if◌then◌else◌, Bool-cases, if-then_else_lem,
}
use open_pi.Text.{Text, units, text_eq}
use open_pi.TurnProgress.{
  Stage, settled, error, TurnProgress, is_string, TurnProgressEvent, EventKind, turn_guard,
  agent_start, turn_start, message_start, tool_execution, tool_execution_end, message_update,
  review_start, review_result, agent_settled, stream_end, other_event, event_kind, DeltaKind,
  thinking_delta, text_delta, toolcall_delta, other_delta, delta_kind,
}
use open_pi.TurnProgress.Reduce.{
  on_turn_guard, on_agent_start, on_turn_start, on_message_start, on_tool_execution,
  on_tool_execution_end, on_other, on_message_update, on_review_start, on_review_result,
  reduce_kind, reduce_turn_progress_inner, reduce_turn_progress, stamped,
}
use open_pi.TurnProgress.Reduce.Ending.{
  is_own, reduce_turn_progress_other, reduce_turn_progress_own,
}

-- the events and the times at which they come, one after the other
unfoldable pub run : Option TurnProgress → List (TurnProgressEvent × ℕ) → Option TurnProgress
run current [] = current
run current ((e, now) ∷ es) = run (reduce_turn_progress current e now) es

-- the event is one of the instance with this identifier
abbrev pub is_for : Text → TurnProgressEvent × ℕ → Bool
is_for id (e, now) = text_eq id e.instance_id

-- a turn under way, which no event calls settled or failed
abbrev pub is_live : Stage → Bool
is_live settled = false
is_live error = false
is_live s = true

-- the turn `q` goes on from `p`: the same instance, the same start, not settled or failed
pub record Continues (p q : TurnProgress) : Type 0 where
  same_instance : q.instance_id ≡ p.instance_id
  same_start : q.started_at ≡ p.started_at
  live : is_live q.stage ≡ true

-- none, or a turn with the property
abbrev pub WhenSome : (TurnProgress → Type 0) → Option TurnProgress → Type 0
WhenSome P none = Unit
WhenSome P (some q) = P q

module _ (p q : TurnProgress) (started : p.started_at ≢ 0) (c : Continues p q)
    (e : TurnProgressEvent) (now : ℕ) where
  Continues-with_stage :
      (r : TurnProgress)
      → r.instance_id ≡ q.instance_id
      → r.started_at ≡ q.started_at
      → is_live r.stage ≡ true
      → Continues p r
  Continues-with_stage r i s l = record {
    same_instance = i ∙ c.same_instance;
    same_start = s ∙ c.same_start;
    live = l;
  }

  Continues-other : Continues p (on_other q now)
  unfolding on_other
  Continues-other =
      let on_time : q.started_at ≢ 0 = λ z. started (sym c.same_start ∙ z) in
      let same : (if q.started_at == 0 then now else q.started_at) ≡ q.started_at = ground arith in
      Continues-with_stage (on_other q now) refl same c.live

  Continues-update : (d : DeltaKind) → Continues p (on_message_update d q now)
  unfolding on_message_update
  Continues-update thinking_delta = Continues-with_stage _ refl refl refl
  Continues-update text_delta = Continues-with_stage _ refl refl refl
  Continues-update toolcall_delta = Continues-with_stage _ refl refl refl
  Continues-update other_delta = Continues-other

  Continues-review_result : Continues p (on_review_result q e now)
  unfolding on_review_result
  Continues-review_result =
      if-then_else_lem (Continues p) (is_string e.status (units "rejected")) _ _
        (λ _. Continues-with_stage _ refl refl refl)
        (λ _.
          if-then_else_lem (Continues p) (is_string e.status (units "approved")) _ _
            (λ _. Continues-with_stage _ refl refl refl) (λ _. Continues-other))

  Continues-stamped :
      (r : TurnProgress) → Continues p r → Continues p (record r { last_event_at = some now })
  Continues-stamped r d = record {
    same_instance = d.same_instance;
    same_start = d.same_start;
    live = d.live;
  }

  Continues-kind : (k : EventKind) → WhenSome (Continues p) (stamped now (reduce_kind k q e now))
  unfolding reduce_kind on_turn_guard on_agent_start on_turn_start on_message_start
      on_tool_execution on_tool_execution_end on_review_start
  Continues-kind turn_guard = Continues-with_stage _ refl refl c.live
  Continues-kind agent_start = Continues-with_stage _ refl refl refl
  Continues-kind turn_start = Continues-with_stage _ refl refl refl
  Continues-kind message_start = Continues-with_stage _ refl refl refl
  Continues-kind tool_execution = Continues-with_stage _ refl refl refl
  Continues-kind tool_execution_end = Continues-with_stage _ refl refl refl
  Continues-kind message_update =
      Continues-stamped (on_message_update (delta_kind e) q now) (Continues-update (delta_kind e))
  Continues-kind review_start = Continues-with_stage _ refl refl refl
  Continues-kind review_result =
      Continues-stamped (on_review_result q e now) Continues-review_result
  Continues-kind agent_settled = tt
  Continues-kind stream_end = tt
  Continues-kind other_event = Continues-stamped (on_other q now) Continues-other

  Continues-step : WhenSome (Continues p) (reduce_turn_progress (some q) e now)
  Continues-step = elim (Bool-cases (is_own q e)) [
    | inl own ↦
        subst (WhenSome (Continues p)) (sym (reduce_turn_progress_own q e now own))
          (Continues-kind (event_kind e))
    | inr other ↦ subst (WhenSome (Continues p)) (sym (reduce_turn_progress_other q e now other)) c
  ]

pub reduce_none : (e : TurnProgressEvent) (now : ℕ) → reduce_turn_progress none e now ≡ none
unfolding reduce_turn_progress reduce_turn_progress_inner
reduce_none e now = refl

-- what every step keeps, every sequence of events keeps
pub run-WhenSome :
    (I : TurnProgress → Type 0)
    → ((q : TurnProgress)
        → I q
        → (e : TurnProgressEvent) (now : ℕ) → WhenSome I (reduce_turn_progress (some q) e now))
    → (es : List (TurnProgressEvent × ℕ)) (o : Option TurnProgress) → WhenSome I o
    → WhenSome I (run o es)
unfolding run
run-WhenSome I keep [] o h = h
run-WhenSome I keep ((e, now) ∷ es) none h =
    run-WhenSome I keep es (reduce_turn_progress none e now)
      (subst (WhenSome I) (sym (reduce_none e now)) tt)
run-WhenSome I keep ((e, now) ∷ es) (some q) h =
    run-WhenSome I keep es (reduce_turn_progress (some q) e now) (keep q h e now)

-- Whatever events come, of this instance and of others, a turn that has a start and is not settled
-- or failed keeps its instance and its start and is not shown as settled or failed, as long as it
-- is there.
pub run-Continues :
    (p : TurnProgress) (es : List (TurnProgressEvent × ℕ))
    → p.started_at ≢ 0
    → is_live p.stage ≡ true
    → WhenSome (Continues p) (run (some p) es)
run-Continues p es started l =
    run-WhenSome (Continues p) (λ q c e now. Continues-step p q started c e now) es (some p)
      (record { same_instance = refl; same_start = refl; live = l })
