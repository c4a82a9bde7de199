-- ===== src/ViewRoute/Routing.antt =====
-- Routes and views: the hash of a view leads back to it, and where a cold start lands.
use open_pi.Prelude.{
  ◌≡◌, refl, ap, ◌∙◌, Bool, true, false, ◌&&◌, Option, none, some, [], ◌∷◌, arith, inl, inr,
  Bool-cases, if◌then◌else◌, All, if-then_else_lem,
}
use open_pi.Text.{Text, units, text_eq, is_empty}
use open_pi.Text.Laws.{any-All}
use open_pi.ViewRoute.{
  view_values, has_view, is_view, normalize_view, route_segment, view_from_hash, is_landing,
  landing_or_today, initial_view, hash_for_view,
}

has_view-All : (P : Text → Type 0) (v : Text) → has_view v ≡ true → All P view_values → P v
unfolding has_view
has_view-All P v h a = any-All P view_values v h a

-- The hash of a recognised view leads back to that view.
pub view_from_hash-hash_for_view :
    (v : Text) → is_view (some v) ≡ true → view_from_hash (hash_for_view v) ≡ some v
unfolding is_view
view_from_hash-hash_for_view v h =
    has_view-All (λ w. view_from_hash (hash_for_view w) ≡ some w) v h
      (unfold view_from_hash is_view has_view route_segment hash_for_view text_eq in
        (
          refl,
          (
            refl,
            (refl, (refl, (refl, (refl, (refl, (refl, (refl, (refl, (refl, (refl, tt)))))))))),
          ),
        ))

-- what is routed is a recognised view
view_from_hash-is_view : (h : Text) {v : Text} → view_from_hash h ≡ some v → is_view (some v) ≡ true
unfolding view_from_hash
view_from_hash-is_view h {v} e = elim (Bool-cases (is_view (route_segment h))) [
  | inl yes' ↦ ground arith
  | inr no' ↦ ground arith
]

-- a recognised view that is not the chat
IsLanding : Text → Type 0
IsLanding v = (is_view (some v) ≡ true) × (text_eq v (units "chat") ≡ false)

today-IsLanding : IsLanding (units "today")
unfolding IsLanding is_view has_view text_eq
today-IsLanding = (refl, refl)

is_landing-chat : (v : Text) → is_landing (some v) ≡ true → text_eq v (units "chat") ≡ false
is_landing-chat v h = ground arith

landing_or_today-IsLanding :
    (o : Option Text)
    → ((v : Text) → o ≡ some v → is_view (some v) ≡ true)
    → IsLanding (landing_or_today o)
unfolding IsLanding landing_or_today
landing_or_today-IsLanding none h = today-IsLanding
landing_or_today-IsLanding (some v) h =
    if-then_else_lem IsLanding (is_landing (some v)) v (units "today")
      (λ yes'. (h v refl, is_landing-chat v yes')) (λ no'. today-IsLanding)

-- Whatever the hash and the stored view, a cold start lands on a recognised view, and not on the
-- chat.
pub initial_view-is_view :
    (h : Text) (p : Option Text)
    → (is_view (some (initial_view h p)) ≡ true)
      × (text_eq (initial_view h p) (units "chat") ≡ false)
unfolding initial_view IsLanding
initial_view-is_view [] none = today-IsLanding
initial_view-is_view [] (some v) =
    if-then_else_lem IsLanding (is_landing (some v) && is_view (some v)) v (units "today")
      (λ yes'. (ground arith, is_landing-chat v (ground arith))) (λ no'. today-IsLanding)
initial_view-is_view (c ∷ h) p =
    landing_or_today-IsLanding (view_from_hash (c ∷ h)) (λ v e. view_from_hash-is_view (c ∷ h) e)

view-is_landing :
    (v : Text)
    → is_view (some v) ≡ true
    → text_eq v (units "chat") ≡ false
    → is_landing (some v) ≡ true
unfolding is_view
view-is_landing v h other = cc (
    has_view-All (λ w. is_empty w ≡ false) v h
      (
        refl,
        (refl, (refl, (refl, (refl, (refl, (refl, (refl, (refl, (refl, (refl, (refl, tt))))))))))),
      ))

landing_or_today-some : (v : Text) → is_landing (some v) ≡ true → landing_or_today (some v) ≡ v
unfolding landing_or_today
landing_or_today-some v h = ap (λ b. if b then v else units "today") h

and_true : {a b : Bool} → a ≡ true → b ≡ true → (a && b) ≡ true
and_true h k = ground arith

-- A cold start at the hash of a recognised view that is not the chat lands on that view, whatever
-- is stored; with no hash it lands on the stored one.
pub initial_view_restores :
    (v : Text) (p : Option Text)
    → is_view (some v) ≡ true
    → text_eq v (units "chat") ≡ false
    → (initial_view (hash_for_view v) p ≡ v) × (initial_view [] (some v) ≡ v)
unfolding initial_view hash_for_view
initial_view_restores v p h other =
    let landing = view-is_landing v h other in
    (
      ap landing_or_today (view_from_hash-hash_for_view v h) ∙ landing_or_today-some v landing,
      ap (λ b. if b then v else units "today") (and_true landing h),
    )

-- a view that `normalizeView` leaves alone
IsNormal : Text → Type 0
IsNormal v = (is_view (some v) ≡ true) × (text_eq v (units "settings") ≡ false)

normal_fixed : (v : Text) → IsNormal v → normalize_view (some v) ≡ v
unfolding IsNormal normalize_view
normal_fixed v (known, other) = ground arith

today-IsNormal : IsNormal (units "today")
unfolding is_view has_view text_eq IsNormal
today-IsNormal = (refl, refl)

capabilities-IsNormal : IsNormal (units "capabilities")
unfolding is_view has_view text_eq IsNormal
capabilities-IsNormal = (refl, refl)

normalize_view-IsNormal : (o : Option Text) → IsNormal (normalize_view o)
unfolding normalize_view
normalize_view-IsNormal none = today-IsNormal
normalize_view-IsNormal (some v) =
    if-then_else_lem IsNormal (text_eq v (units "settings")) (units "capabilities")
      (if is_view (some v) then v else units "today") (λ same. capabilities-IsNormal)
      (λ other.
        if-then_else_lem IsNormal (is_view (some v)) v (units "today")
          (λ known. unfold IsNormal in (known, other)) (λ unknown. today-IsNormal))

-- `normalizeView` always gives a recognised view and never the settings, and a second time
-- changes nothing.
pub normalize_view_lem :
    (o : Option Text)
    → (is_view (some (normalize_view o)) ≡ true)
      × (text_eq (normalize_view o) (units "settings") ≡ false)
      × (normalize_view (some (normalize_view o)) ≡ normalize_view o)
unfolding IsNormal
normalize_view_lem o =
    let normal = normalize_view-IsNormal o in
    (normal.0, normal.1, normal_fixed (normalize_view o) normal)
