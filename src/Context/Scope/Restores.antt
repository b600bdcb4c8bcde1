-- ===== src/Context/Scope/Restores.antt =====
-- Scopes restore what they found, and tasks do not see each other's scopes.
use cekat_event_sdk.Base.{
  ℕ, ◌≡◌, ◌≢◌, refl, ap, ◌∙◌, true, false, List, [], ◌∷◌, ◌++◌, ◌==◌, ==_iff, if◌then◌else◌, arith,
  Bool-cases, inl, inr,
}
use cekat_event_sdk.Objects.{Value}
use cekat_event_sdk.Context.{normalize_visitor_id}
use cekat_event_sdk.Context.Scope.{
  Current, Block, visitor_scope, Task, Action, entering, leaving, act, World, Event, does, starts,
  step, run,
}

-- Whatever the block does to the variable, and whether it returns or raises, the block sees the
-- normalised visitor, its result is passed on, and the visitor that stood before is current again.
pub visitor_scope-restores :
    {A : Type 0} (visitor_id : Value) (block : Block A) (current : Current)
    → visitor_scope visitor_id block current
      ≡ ((block (normalize_visitor_id visitor_id)).0, current)
unfolding visitor_scope
visitor_scope-restores v block current = refl

perform : List Action → Task → Task
perform [] t = t
perform (a ∷ rest) t = perform rest (act a t)

-- A sequence in which every scope that is entered is left again, properly nested.
pub data Balanced : List Action → Type 0 where
  nothing : Balanced []
  scope :
      {v : Value} {inner rest : List Action}
      → Balanced inner
      → Balanced rest
      → Balanced (entering v ∷ (inner ++ leaving ∷ rest))

perform-append : (xs ys : List Action) (t : Task) → perform (xs ++ ys) t ≡ perform ys (perform xs t)
unfolding perform
perform-append [] ys t = refl
perform-append (a ∷ xs) ys t = perform-append xs ys (act a t)

leaving-entering : (v : Value) (t : Task) → act leaving (act (entering v) t) ≡ t
unfolding act
leaving-entering v t = refl

perform-Balanced : {xs : List Action} → Balanced xs → (t : Task) → perform xs t ≡ t
unfolding perform
perform-Balanced nothing t = refl
perform-Balanced (scope {v} {inner} {rest} b c) t =
    rw
      (
        perform-append inner (leaving ∷ rest) (act (entering v) t),
        perform-Balanced b (act (entering v) t),
        leaving-entering v t,
      )
      (perform-Balanced c t)

-- What one task does in a schedule.
unfoldable pub own : ℕ → List Event → List Action
own t [] = []
own t (does i a ∷ es) = let rest = own t es in if i == t then a ∷ rest else rest
own t (starts i j ∷ es) = own t es

-- No event of the schedule starts the task anew.
abbrev pub IsNotStarted : ℕ → List Event → Type 0
IsNotStarted t [] = Unit
IsNotStarted t (does i a ∷ es) = IsNotStarted t es
IsNotStarted t (starts i j ∷ es) = (j ≢ t) × IsNotStarted t es

step-other : (t i : ℕ) (a : Action) (w : World) → (i == t) ≡ false → step (does i a) w t ≡ w t
unfolding step
step-other t i a w e = rw e

step_self : (t i : ℕ) (a : Action) (w : World) → (i == t) ≡ true → step (does i a) w t ≡ act a (w t)
unfolding step
step_self t i a w e = rw e (ap (λ j. act a (w j)) ((==_iff i t).0 e))

step-starts : (t i j : ℕ) (w : World) → j ≢ t → step (starts i j) w t ≡ w t
unfolding step
step-starts t i j w n = ground arith

run-own :
    (t : ℕ) (es : List Event) (w : World)
    → IsNotStarted t es
    → run es w t ≡ perform (own t es) (w t)
unfolding run own perform
run-own t [] w h = refl
run-own t (does i a ∷ es) w h = elim (Bool-cases (i == t)) [
  | inl e ↦
      rw e (run-own t es (step (does i a) w) h ∙ ap (perform (own t es)) (step_self t i a w e))
  | inr e ↦
      rw e (run-own t es (step (does i a) w) h ∙ ap (perform (own t es)) (step-other t i a w e))
]
run-own t (starts i j ∷ es) w (n, h) =
    run-own t es (step (starts i j) w) h ∙ ap (perform (own t es)) (step-starts t i j w n)

-- Tasks do not disturb each other: if what one task does is properly nested, then after any
-- schedule, in which other tasks enter and leave scopes and start tasks in between, that task has
-- the visitor and the open scopes that it began with, unless the schedule starts it anew.
pub run-restores :
    (t : ℕ) (es : List Event) (w : World)
    → IsNotStarted t es
    → Balanced (own t es)
    → run es w t ≡ w t
run-restores t es w h b = run-own t es w h ∙ perform-Balanced b (w t)
