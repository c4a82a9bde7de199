-- ===== src/Swarm/Credit.antt =====
-- The counts of completed tasks of the members.
use open_pi.Prelude.{
  map, ◌+◌, ◌≡◌, refl, ap, sym, ◌∙◌, Bool, true, false, ◌&&◌, List, [], ◌∷◌, ◌++◌, All, count_if,
  count_if-append, Option, none, some, if◌then◌else◌, arith,
}
use open_pi.Text.{Text, text_eq, units}
use open_pi.Text.Laws.{text_eq_comm, eq_of_text_eq}
use open_pi.Swarm.{
  SwarmTaskStep, SwarmMember, ToolCallStatus, ConversationMessage, Extraction, credit, user_step,
  run_member, last_step, default_members, lead_member, update_member, extract_call, extract_calls,
  extract_message, extract_messages, run_last, run_extraction, initial_extraction,
  extract_swarm_from_messages,
}

-- a step that a tool call of the member gave
abbrev pub is_call_of : Text → SwarmTaskStep → Bool
is_call_of id s = text_eq s.member_id id && elim s.tool_calls [ [] ↦ false | c ∷ cs ↦ true ]

abbrev pub IsCredited : List SwarmTaskStep → SwarmMember → Type 0
IsCredited steps m = m.completed_tasks_count ≡ count_if (is_call_of m.id) steps

-- the members have different ids
abbrev IsApart : List Text → Type 0
IsApart [] = Unit
IsApart (id ∷ ids) = All (λ o. text_eq id o ≡ false) ids × IsApart ids

abbrev member_ids : List SwarmMember → List Text
member_ids members = map (λ m. m.id) members

abbrev HasCredits : List SwarmTaskStep → List SwarmMember → Type 0
HasCredits steps members = All (IsCredited steps) members

count_one :
    (p : SwarmTaskStep → Bool) (s : SwarmTaskStep) (b : Bool)
    → p s ≡ b
    → count_if p (s ∷ []) ≡ (if b then 1 else 0)
count_one p s true h = rw (count_if, h) refl
count_one p s false h = rw (count_if, h) refl

-- a step for no member leaves its credit
push-IsCredited :
    (steps : List SwarmTaskStep) (s : SwarmTaskStep) (m : SwarmMember)
    → is_call_of m.id s ≡ false
    → IsCredited steps m
    → IsCredited (steps ++ s ∷ []) m
push-IsCredited steps s m other h =
    let e : count_if (is_call_of m.id) (steps ++ s ∷ []) ≡ count_if (is_call_of m.id) steps + 0 =
      rw
        (
          count_if-append (is_call_of m.id) steps (s ∷ []),
          count_one (is_call_of m.id) s false other,
        )
        refl in
    omega arith

-- a call's step adds to the credit of its member
credit-IsCredited :
    (steps : List SwarmTaskStep) (s : SwarmTaskStep) (m : SwarmMember)
    → is_call_of m.id s ≡ true
    → IsCredited steps m
    → IsCredited (steps ++ s ∷ []) (credit m)
credit-IsCredited steps s m own h =
    let e : count_if (is_call_of m.id) (steps ++ s ∷ []) ≡ count_if (is_call_of m.id) steps + 1 =
      rw (count_if-append (is_call_of m.id) steps (s ∷ []), count_one (is_call_of m.id) s true own)
        refl in
    omega arith

others-IsCredited :
    (steps : List SwarmTaskStep) (s : SwarmTaskStep) (members : List SwarmMember)
    → All (λ m. is_call_of m.id s ≡ false) members
    → HasCredits steps members
    → HasCredits (steps ++ s ∷ []) members
others-IsCredited steps s [] none_of h = tt
others-IsCredited steps s (m ∷ members) (o, os) (h, hs) =
    (push-IsCredited steps s m o h, others-IsCredited steps s members os hs)

and_false : (b : Bool) → (b && false) ≡ false
and_false true = refl
and_false false = refl

and_true : (b : Bool) → (b && true) ≡ b
and_true true = refl
and_true false = refl

-- a step that no tool call gave is of no member's calls
not_a_call :
    (steps : List SwarmTaskStep) (s : SwarmTaskStep) (members : List SwarmMember)
    → s.tool_calls ≡ []
    → All (λ m. is_call_of m.id s ≡ false) members
not_a_call steps s [] e = tt
not_a_call steps s (m ∷ members) e =
    (rw e (and_false (text_eq s.member_id m.id)), not_a_call steps s members e)

apart_from :
    (s : SwarmTaskStep) (m : SwarmMember) (members : List SwarmMember)
    → ((id : Text) → is_call_of id s ≡ text_eq s.member_id id)
    → m.id ≡ s.member_id
    → All (λ o. text_eq m.id o ≡ false) (member_ids members)
    → All (λ o. is_call_of o.id s ≡ false) members
apart_from s m [] is_call own h = tt
apart_from s m (o ∷ members) is_call own (h, hs) =
    (is_call o.id ∙ ap (λ i. text_eq i o.id) (sym own) ∙ h, apart_from s m members is_call own hs)

-- the step of a call, by a member's id
update_member-HasCredits :
    (steps : List SwarmTaskStep) (s : SwarmTaskStep) (members : List SwarmMember)
    → ((id : Text) → is_call_of id s ≡ text_eq s.member_id id)
    → IsApart (member_ids members)
    → HasCredits steps members
    → HasCredits (steps ++ s ∷ []) (update_member credit s.member_id members)
unfolding update_member
update_member-HasCredits steps s [] is_call apart h = tt
update_member-HasCredits steps s (m ∷ members) is_call (a, apart) (h, hs) =
    go (text_eq m.id s.member_id) refl (update_member-HasCredits steps s members is_call apart hs)
  where
    go :
        (b : Bool)
        → text_eq m.id s.member_id ≡ b
        → HasCredits (steps ++ s ∷ []) (update_member credit s.member_id members)
        → HasCredits
            (steps ++ s ∷ [])
            (if b then credit m ∷ members else m ∷ update_member credit s.member_id members)
    go true same rest = (
      credit-IsCredited steps s m (is_call m.id ∙ text_eq_comm s.member_id m.id ∙ same) h,
      others-IsCredited steps s members
          (apart_from s m members is_call (eq_of_text_eq m.id s.member_id same) a) hs,
    )
    go false other rest =
        (push-IsCredited steps s m (is_call m.id ∙ text_eq_comm s.member_id m.id ∙ other) h, rest)

update_member-ids :
    (id : Text) (members : List SwarmMember) (change : SwarmMember → SwarmMember)
    → ((m : SwarmMember) → (change m).id ≡ m.id)
    → member_ids (update_member change id members) ≡ member_ids members
unfolding update_member
update_member-ids id [] change keeps = refl
update_member-ids id (m ∷ members) change keeps =
    elim (text_eq m.id id)
      as (λ b.
        member_ids (if b then change m ∷ members else m ∷ update_member change id members)
        ≡ member_ids (m ∷ members)) [
          | true ↦ ap (λ i. i ∷ member_ids members) (keeps m)
          | false ↦ ap (◌∷◌ m.id) (update_member-ids id members change keeps)
        ]

-- the invariant of the loop
record IsFair (x : Extraction) : Type 0 where
  apart : IsApart (member_ids x.members)
  credits : HasCredits x.steps x.members

extract_call-IsFair :
    (is_error : Bool) (x : Extraction) (call : ToolCallStatus)
    → IsFair x
    → IsFair (extract_call is_error x call)
unfolding extract_call
extract_call-IsFair is_error x call h = record {
  apart = rw (update_member-ids _ x.members credit (λ m. refl)) h.apart;
  credits = update_member-HasCredits x.steps _ x.members (λ id. and_true _) h.apart h.credits;
}

extract_calls-IsFair :
    (is_error : Bool) (x : Extraction) (calls : List ToolCallStatus)
    → IsFair x
    → IsFair (extract_calls is_error x calls)
unfolding extract_calls
extract_calls-IsFair is_error x [] h = h
extract_calls-IsFair is_error x (call ∷ calls) h =
    extract_calls-IsFair is_error (extract_call is_error x call) calls
      (extract_call-IsFair is_error x call h)

either-IsFair : (b : Bool) (x y : Extraction) → IsFair x → IsFair y → IsFair (if b then x else y)
either-IsFair true x y hx hy = hx
either-IsFair false x y hx hy = hy

extract_message-IsFair :
    (x : Extraction) (msg : Option ConversationMessage) → IsFair x → IsFair (extract_message x msg)
unfolding extract_message
extract_message-IsFair x none h = h
extract_message-IsFair x (some msg) h =
    let s : SwarmTaskStep = user_step x.step_counter msg.content in
    either-IsFair (text_eq msg.role (units "user")) _ _
      (record {
        apart = h.apart;
        credits =
            others-IsCredited x.steps s x.members (not_a_call x.steps s x.members refl) h.credits;
      })
      (either-IsFair (text_eq msg.role (units "assistant")) _ _
        (extract_calls-IsFair msg.is_error x msg.tool_calls h) h)

extract_messages-IsFair :
    (x : Extraction) (messages : List (Option ConversationMessage))
    → IsFair x
    → IsFair (extract_messages x messages)
unfolding extract_messages
extract_messages-IsFair x [] h = h
extract_messages-IsFair x (msg ∷ messages) h =
    extract_messages-IsFair (extract_message x msg) messages (extract_message-IsFair x msg h)

-- setting the last step running and its member changes no credit
count_if-run_last :
    (id : Text) (steps : List SwarmTaskStep)
    → count_if (is_call_of id) (run_last steps) ≡ count_if (is_call_of id) steps
unfolding run_last
count_if-run_last id [] = refl
count_if-run_last id (s ∷ []) = refl
count_if-run_last id (s ∷ t ∷ steps) = ground (arith, count_if-run_last id (t ∷ steps))

run_last-HasCredits :
    (steps : List SwarmTaskStep) (members : List SwarmMember)
    → HasCredits steps members
    → HasCredits (run_last steps) members
run_last-HasCredits steps [] h = tt
run_last-HasCredits steps (m ∷ members) (h, hs) =
    (h ∙ sym (count_if-run_last m.id steps), run_last-HasCredits steps members hs)

run_member-HasCredits :
    (steps : List SwarmTaskStep) (title id : Text) (members : List SwarmMember)
    → HasCredits steps members
    → HasCredits steps (update_member (run_member title) id members)
unfolding update_member
run_member-HasCredits steps title id [] h = tt
run_member-HasCredits steps title id (m ∷ members) (h, hs) =
    elim (text_eq m.id id)
      as (λ b. HasCredits steps (
        if b
        then run_member title m ∷ members
        else m ∷ update_member (run_member title) id members)) [
          | true ↦ (h, hs)
          | false ↦ (h, run_member-HasCredits steps title id members hs)
        ]

run_extraction-HasCredits :
    (x : Extraction)
    → HasCredits x.steps x.members
    → HasCredits (run_extraction x).steps (run_extraction x).members
unfolding run_extraction
run_extraction-HasCredits x h =
    elim (last_step x.steps)
      as (λ o.
        HasCredits
          (elim o as (λ q. Extraction) [
            | none ↦ x
            | some s ↦ record x {
              steps = run_last x.steps;
              members = update_member (run_member s.title) s.member_id x.members;
            }
          ]).steps
          (elim o as (λ q. Extraction) [
            | none ↦ x
            | some s ↦ record x {
              steps = run_last x.steps;
              members = update_member (run_member s.title) s.member_id x.members;
            }
          ]).members) [
            | none ↦ h
            | some s ↦
                run_member-HasCredits (run_last x.steps) s.title s.member_id x.members
                  (run_last-HasCredits x.steps x.members h)
          ]

initial-IsFair : (model : Option Text) (working : Bool) → IsFair (initial_extraction model working)
unfolding default_members lead_member text_eq
initial-IsFair model working = record {
  apart = ((refl, (refl, (refl, tt))), ((refl, (refl, tt)), ((refl, tt), (tt, tt))));
  credits = (refl, (refl, (refl, (refl, tt))));
}

-- The number of completed tasks of each member of the workflow is the number of its steps that stand
-- for a tool call.
pub extract_swarm_from_messages-IsCredited :
    (messages : List (Option ConversationMessage)) (model : Option Text) (working : Bool)
    → All
        (IsCredited (extract_swarm_from_messages messages model working).steps)
        (extract_swarm_from_messages messages model working).members
unfolding extract_swarm_from_messages
extract_swarm_from_messages-IsCredited messages model true =
    run_extraction-HasCredits _
      (extract_messages-IsFair _ messages (initial-IsFair model true)).credits
extract_swarm_from_messages-IsCredited messages model false =
    (extract_messages-IsFair (initial_extraction model false) messages
      (initial-IsFair model false)).credits
