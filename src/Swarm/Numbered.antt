-- ===== src/Swarm/Numbered.antt =====
-- The identifiers of the steps, and which of them is running.
use open_pi.Prelude.{
  ℕ, zero, suc, ◌+◌, ◌≡◌, refl, ap, Bool, true, false, List, [], ◌∷◌, ◌++◌, map, length,
  length-append, Option, none, some, if◌then◌else◌, arith,
}
use open_pi.Text.{Text, text_eq, units}
use open_pi.Swarm.{
  SwarmTaskStep, step_running, SwarmMember, ToolCallStatus, ConversationMessage, Extraction,
  step_id, extract_call, extract_calls, extract_message, extract_messages, run_last, last_step,
  run_extraction, initial_extraction, extract_swarm_from_messages,
}

-- `step-m`, `step-(m + 1)` and so on, n of them
abbrev pub ids_from : ℕ → ℕ → List Text
ids_from m zero = []
ids_from m (suc n) = step_id m ∷ ids_from (suc m) n

ids_from-suc : (m n : ℕ) → ids_from m n ++ step_id (m + n) ∷ [] ≡ ids_from m (suc n)
ids_from-suc m zero = let e : m + 0 ≡ m = omega arith in rw e refl
ids_from-suc m (suc n) =
    let e : m + suc n ≡ suc m + n = omega arith in
    rw e (ap (◌∷◌ (step_id m)) (ids_from-suc (suc m) n))

abbrev pub is_running : SwarmTaskStep → Bool
is_running s = elim s.status [ step_running ↦ true | _ ↦ false ]

-- n flags, of which only the last can be set
abbrev pub last_flag : Bool → ℕ → List Bool
last_flag b zero = []
last_flag b (suc zero) = b ∷ []
last_flag b (suc (suc n)) = false ∷ last_flag b (suc n)

map-concat {ℓ κ} :
    {A : Type ℓ} {B : Type κ} (f : A → B) (xs : List A) (x : A)
    → map f (xs ++ x ∷ []) ≡ map f xs ++ f x ∷ []
map-concat f [] x = refl
map-concat f (y ∷ xs) x = ap (◌∷◌ (f y)) (map-concat f xs x)

last_flag-suc : (n : ℕ) → last_flag false n ++ false ∷ [] ≡ last_flag false (suc n)
last_flag-suc zero = refl
last_flag-suc (suc zero) = refl
last_flag-suc (suc (suc n)) = ap (◌∷◌ false) (last_flag-suc (suc n))

-- the invariant of the loop
record IsNumbered (x : Extraction) : Type 0 where
  counter : x.step_counter ≡ suc (length x.steps)
  ids : map (λ s. s.id) x.steps ≡ ids_from 1 (length x.steps)
  flags : map is_running x.steps ≡ last_flag false (length x.steps)

push-IsNumbered :
    (x : Extraction) (members : List SwarmMember) (s : SwarmTaskStep)
    → s.id ≡ step_id x.step_counter
    → is_running s ≡ false
    → IsNumbered x
    → IsNumbered
        (record { members = members; steps = x.steps ++ s ∷ []; step_counter = x.step_counter + 1 })
push-IsNumbered x members s named calm h =
    let len : length (x.steps ++ s ∷ []) ≡ suc (length x.steps) =
      omega (arith, length-append x.steps (s ∷ [])) in
    let same_id : s.id ≡ step_id (1 + length x.steps) =
      let plus : suc (length x.steps) ≡ 1 + length x.steps = omega arith in
      rw (named, h.counter, plus) refl in
    record {
      counter = let c : x.step_counter ≡ suc (length x.steps) = h.counter in omega arith;
      ids =
          rw (len, map-concat (λ t. t.id) x.steps s, h.ids, same_id)
            (ids_from-suc 1 (length x.steps));
      flags =
          rw (len, map-concat is_running x.steps s, h.flags, calm) (last_flag-suc (length x.steps));
    }

extract_call-IsNumbered :
    (is_error : Bool) (x : Extraction) (call : ToolCallStatus)
    → IsNumbered x
    → IsNumbered (extract_call is_error x call)
unfolding extract_call
extract_call-IsNumbered true x call h = push-IsNumbered x _ _ refl refl h
extract_call-IsNumbered false x call h = push-IsNumbered x _ _ refl refl h

extract_calls-IsNumbered :
    (is_error : Bool) (x : Extraction) (calls : List ToolCallStatus)
    → IsNumbered x
    → IsNumbered (extract_calls is_error x calls)
unfolding extract_calls
extract_calls-IsNumbered is_error x [] h = h
extract_calls-IsNumbered is_error x (call ∷ calls) h =
    extract_calls-IsNumbered is_error (extract_call is_error x call) calls
      (extract_call-IsNumbered is_error x call h)

either-IsNumbered :
    (b : Bool) (x y : Extraction) → IsNumbered x → IsNumbered y → IsNumbered (if b then x else y)
either-IsNumbered true x y hx hy = hx
either-IsNumbered false x y hx hy = hy

extract_message-IsNumbered :
    (x : Extraction) (msg : Option ConversationMessage)
    → IsNumbered x
    → IsNumbered (extract_message x msg)
unfolding extract_message
extract_message-IsNumbered x none h = h
extract_message-IsNumbered x (some msg) h =
    either-IsNumbered (text_eq msg.role (units "user")) _ _
      (push-IsNumbered x x.members _ refl refl h)
      (either-IsNumbered (text_eq msg.role (units "assistant")) _ _
        (extract_calls-IsNumbered msg.is_error x msg.tool_calls h) h)

extract_messages-IsNumbered :
    (x : Extraction) (messages : List (Option ConversationMessage))
    → IsNumbered x
    → IsNumbered (extract_messages x messages)
unfolding extract_messages
extract_messages-IsNumbered x [] h = h
extract_messages-IsNumbered x (msg ∷ messages) h =
    extract_messages-IsNumbered (extract_message x msg) messages
      (extract_message-IsNumbered x msg h)

run_last-ids :
    (steps : List SwarmTaskStep) → map (λ s. s.id) (run_last steps) ≡ map (λ s. s.id) steps
unfolding run_last
run_last-ids [] = refl
run_last-ids (s ∷ []) = refl
run_last-ids (s ∷ t ∷ steps) = ap (◌∷◌ s.id) (run_last-ids (t ∷ steps))

length-run_last : (steps : List SwarmTaskStep) → length (run_last steps) ≡ length steps
unfolding run_last
length-run_last [] = refl
length-run_last (s ∷ []) = refl
length-run_last (s ∷ t ∷ steps) = ap suc (length-run_last (t ∷ steps))

run_last-flags :
    (steps : List SwarmTaskStep)
    → map is_running steps ≡ last_flag false (length steps)
    → map is_running (run_last steps) ≡ last_flag true (length steps)
unfolding run_last
run_last-flags [] h = refl
run_last-flags (s ∷ []) h = refl
run_last-flags (s ∷ t ∷ steps) h =
    let calm : is_running s ≡ false = cc in
    let rest : map is_running (run_last (t ∷ steps)) ≡ last_flag true (length (t ∷ steps)) =
      run_last-flags (t ∷ steps) cc in
    rw (calm, rest) refl

-- the steps are numbered from 1, and the last one runs exactly where `working` holds
pub record IsNumberedTo (working : Bool) (steps : List SwarmTaskStep) : Type 0 where
  ids : map (λ s. s.id) steps ≡ ids_from 1 (length steps)
  flags : map is_running steps ≡ last_flag working (length steps)

last_step-cons :
    (s : SwarmTaskStep) (steps : List SwarmTaskStep)
    → (r : SwarmTaskStep) × (last_step (s ∷ steps) ≡ some r)
unfolding last_step
last_step-cons s [] = (s, refl)
last_step-cons s (t ∷ steps) = last_step-cons t steps

run_extraction-nil :
    (members : List SwarmMember) (n : ℕ)
    → (run_extraction (record { members = members; steps = []; step_counter = n })).steps
      ≡ run_last []
unfolding run_extraction last_step run_last
run_extraction-nil members n = refl

run_extraction-steps :
    (members : List SwarmMember) (steps : List SwarmTaskStep) (n : ℕ)
    → (run_extraction (record { members = members; steps = steps; step_counter = n })).steps
      ≡ run_last steps
unfolding run_extraction
run_extraction-steps members [] n = run_extraction-nil members n
run_extraction-steps members (s ∷ steps) n =
    let (r, e) : (r : SwarmTaskStep) × (last_step (s ∷ steps) ≡ some r) = last_step-cons s steps in
    rw (e, run_extraction) refl

run_extraction-IsNumberedTo :
    (x : Extraction) → IsNumbered x → IsNumberedTo true (run_extraction x).steps
run_extraction-IsNumberedTo x h =
    let e : (run_extraction x).steps ≡ run_last x.steps =
      run_extraction-steps x.members x.steps x.step_counter in
    record {
      ids = rw (e, run_last-ids x.steps, length-run_last x.steps) h.ids;
      flags = rw (e, length-run_last x.steps) (run_last-flags x.steps h.flags);
    }

initial-IsNumbered :
    (model : Option Text) (working : Bool) → IsNumbered (initial_extraction model working)
initial-IsNumbered model working = record { counter = refl; ids = refl; flags = refl }

-- The steps of the workflow have the ids step-1, step-2 and so on, and none of them is running but
-- the last, which is running exactly if the agent is working.
pub extract_swarm_from_messages-IsNumberedTo :
    (messages : List (Option ConversationMessage)) (model : Option Text) (working : Bool)
    → IsNumberedTo working (extract_swarm_from_messages messages model working).steps
unfolding extract_swarm_from_messages
extract_swarm_from_messages-IsNumberedTo messages model true =
    run_extraction-IsNumberedTo _
      (extract_messages-IsNumbered _ messages (initial-IsNumbered model true))
extract_swarm_from_messages-IsNumberedTo messages model false =
    let h : IsNumbered (extract_messages (initial_extraction model false) messages) =
      extract_messages-IsNumbered _ messages (initial-IsNumbered model false) in
    record { ids = h.ids; flags = h.flags }
